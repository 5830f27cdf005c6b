-- ===== src/Controller/Conditions.antt =====
-- The library of status conditions (k8s.io/apimachinery) that the controllers of agents and memories
-- call, and what it documents.
use arkonis_operator.Prelude.{String, List, Bool, true, false, ◌≡◌}
use arkonis_operator.Api.Meta.{
  Condition, ConditionStatus, condition_true, condition_false, condition_unknown,
}

pub record Conditions : Type 0 where
  pub set_status : List Condition → Condition → List Condition
  pub remove_status : List Condition → String → List Condition
  pub is_status_true : List Condition → String → Bool

abbrev pub is_true : ConditionStatus → Bool
is_true condition_true = true
is_true condition_false = false
is_true condition_unknown = false

-- A condition that was set reads as it was set, and a removed condition is not true.
pub record IsConditionSet (c : Conditions) : Type 0 where
  pub true-set :
      (cs : List Condition) (new : Condition)
      → c.is_status_true (c.set_status cs new) new.type ≡ is_true new.status
  pub true-remove :
      (cs : List Condition) (type : String)
      → c.is_status_true (c.remove_status cs type) type ≡ false
