-- ===== src/Controller/Service/Selects.antt =====
-- internal/controller/arkservice_controller.go: the pods that a service selects.
use arkonis_operator.Prelude.{String, Option, some, [], ◌≡◌, ◌≢◌, ◌↔◌, All}
use arkonis_operator.Prelude.Map.{Map, lookup}
use arkonis_operator.Api.Agent.{ArkAgent}
use arkonis_operator.Api.Settings.{ArkSettings}
use arkonis_operator.Api.Memory.{ArkMemory}
use arkonis_operator.Api.Service.{ArkService}
use arkonis_operator.Controller.Conditions.{Conditions}
use arkonis_operator.Controller.Deployment.{AgentLibrary, build_deployment}
use arkonis_operator.Controller.Service.{Service}

-- A selector that is not empty selects the pods whose labels have its pairs; an empty one selects none.
abbrev pub IsSelected : Map String → Map String → Type 0
IsSelected selector labels =
    (selector ≢ []) × All (λ pair. lookup pair.0 labels ≡ some pair.1) selector

-- Under the service, the pods with the labels are selected exactly if `name` is that of the agent; and there is a
-- port to reach them.
abbrev pub Selects : ArkAgent → String → Map String → Service → Type 0
Selects agent name labels s = (IsSelected s.selector labels ↔ (name ≡ agent.name)) × (s.ports ≢ [])

module _ (lib : AgentLibrary) (settings : Option ArkSettings) (mem : Option ArkMemory)
    (prompt : String) (svc : ArkService) (agent other : ArkAgent) where
  -- The labels of the pods of the other agent.
  abbrev pub pod_labels : Map String
  pod_labels = (build_deployment lib other settings mem prompt).template_labels

  abbrev SelectsOther : Service → Type 0
  SelectsOther = Selects agent other.name pod_labels
