-- ===== src/Flow/Library.antt =====
-- What the flow logic calls and the repository does not hold: the packages text/template and
-- encoding/json, and `SetStatusCondition` of k8s.io/apimachinery. The context of a template is the
-- map that `BuildTemplateData` assembles.
use arkonis_operator.Prelude.{String, Option, List}
use arkonis_operator.Prelude.Map.{Map}
use arkonis_operator.Api.Meta.{Result, Condition}

-- One entry of `.steps`; `parsed` is the source's key `data`, which may be absent.
pub record StepEntry (Json : Type 0) : Type 0 where
  pub output : String
  pub parsed : Option Json

-- `input` is `.pipeline.input`.
pub record TemplateData (Json : Type 0) : Type 0 where
  pub input : Map String
  pub steps : Map (StepEntry Json)

pub record Library : Type 1 where
  pub Template : Type 0
  pub Json : Type 0
  pub parse : String → Result Template
  pub execute : Template → TemplateData Json → Result String
  pub unmarshal : String → Option Json
  pub set_status_condition : List Condition → Condition → List Condition
