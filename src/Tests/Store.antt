-- ===== src/Tests/Store.antt =====
-- Streams in memory: a client of Redis that never fails.
use text.Mathlib.TextPositions.{eq_refl}
use text.Mathlib.TextEquality.{eq_iff}
use arkonis_operator.Prelude.{
  String, List, [], ◌∷◌, ◌++◌, ◌≡◌, ◌≢◌, refl, subst, arith, ◌==◌, if◌then◌else◌,
}
use arkonis_operator.Prelude.Map.{Map}
use arkonis_operator.Api.Meta.{Result, ok}
use arkonis_operator.Agent.Streams.{Redis, Entry, nil, IsStream}

abbrev Streams : Type 0
Streams = String → List Entry

abbrev append : Streams → String → Map String → Streams
append db stream values = λ other.
    if other == stream then db other ++ (record { id = "1-1"; values = values } ∷ []) else db other

abbrev pub memory : Redis
memory = record {
  State = Streams;
  x_group_create = λ db stream group. db;
  x_add = λ db stream values. (append db stream values, ok "1-1");
  x_ack = λ db stream group id. db;
  x_read_group = λ db group consumer stream. (db, nil);
  x_range = λ db stream. ok (db stream);
}

append_self :
    (db : Streams) (stream : String) (values : Map String)
    → append db stream values stream ≡ db stream ++ (record { id = "1-1"; values = values } ∷ [])
append_self db stream values = rw (eq_refl stream) refl

pub append-other :
    (db : Streams) (stream other : String) (values : Map String)
    → stream ≢ other
    → append db stream values other ≡ db other
append-other db stream other values differs = ground (arith, eq_iff other stream)

pub added_entry :
    (db : Streams) (stream id : String) (values : Map String)
    → ◌≡◌ {A = Result String} (ok "1-1") (ok id)
    → append db stream values stream ≡ db stream ++ (record { id = id; values = values } ∷ [])
added_entry db stream id values e =
    let same : "1-1" ≡ id = cc e in
    subst
      (λ i. append db stream values stream ≡ db stream ++ (record { id = i; values = values } ∷ []))
      same (append_self db stream values)

abbrev pub memory-IsStream : IsStream memory
memory-IsStream = record {
  entries = λ db stream. db stream;
  added = added_entry;
  others = append-other;
  acked = λ db stream group id other. refl;
}

abbrev pub nothing : Streams
nothing = λ stream. []
