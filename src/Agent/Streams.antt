-- ===== src/Agent/Streams.antt =====
-- The client of Redis that the queue and the flow controller call (github.com/redis/go-redis), and
-- what they rely on of its streams.
use arkonis_operator.Prelude.{String, List, [], ◌∷◌, ◌++◌, ◌≡◌, ◌≢◌}
use arkonis_operator.Prelude.Map.{Map}
use arkonis_operator.Api.Meta.{Message, Result, ok}

pub record Entry : Type 0 where
  pub id : String
  pub values : Map String

pub data ReadReply : Type 0 where
  nil : ReadReply
  failed : Message → ReadReply
  read : List (List Entry) → ReadReply

-- Acknowledging and creating a group return errors that no caller reads. `x_range` of a missing
-- stream (`redis.Nil`) is the empty list, as its one caller treats it.
pub record Redis : Type 1 where
  pub State : Type 0
  pub x_group_create : State → (stream group : String) → State
  pub x_add : State → (stream : String) → Map String → State × Result String
  pub x_ack : State → (stream group id : String) → State
  pub x_read_group : State → (group consumer stream : String) → State × ReadReply
  pub x_range : State → (stream : String) → Result (List Entry)

-- XRANGE over a stream returns its entries; XADD that returns an identifier appends one entry to its
-- stream and leaves the others; XACK leaves every entry.
pub record IsStream (redis : Redis) : Type 0 where
  pub entries : redis.State → String → List Entry
  pub added :
      (db : redis.State) (stream id : String) (values : Map String)
      → (redis.x_add db stream values).1 ≡ ok id
      → entries (redis.x_add db stream values).0 stream
        ≡ entries db stream ++ (record { id = id; values = values } ∷ [])
  pub others :
      (db : redis.State) (stream other : String) (values : Map String)
      → stream ≢ other
      → entries (redis.x_add db stream values).0 other ≡ entries db other
  pub acked :
      (db : redis.State) (stream group id other : String)
      → entries (redis.x_ack db stream group id) other ≡ entries db other
