-- ===== src/Controller/Settings.antt =====
-- internal/controller/arksettings_controller.go: `Reconcile` of settings, which only accepts them.
use arkonis_operator.Prelude.{Option, none, some, List, [], ◌∷◌}
use arkonis_operator.Api.Meta.{Message, text, condition_true}
use arkonis_operator.Api.Settings.{ArkSettings}
use arkonis_operator.Controller.Conditions.{Conditions}
use arkonis_operator.Controller.FlowReconcile.{Fetched, found, not_found, unavailable}

unfoldable pub accept_settings : Conditions → ArkSettings → ArkSettings
accept_settings c s = record s {
  status = record {
    observed_generation = s.generation;
    conditions = c.set_status s.status.conditions (record {
      type = "Ready";
      status = condition_true;
      observed_generation = s.generation;
      reason = "Accepted";
      message = text "ArkSettings is valid and available";
    });
  };
}

-- The statuses that a reconcile writes, and its error. `update` is the answer to the write.
unfoldable pub reconcile_settings :
    Conditions
    → (ArkSettings → Option Message)
    → Fetched ArkSettings
    → List ArkSettings × Option Message
unfolding accept_settings
reconcile_settings c update not_found = ([], none)
reconcile_settings c update (unavailable e) = ([], some e)
reconcile_settings c update (found s) = elim s.deletion_timestamp [
  | some _ ↦ ([], none)
  | none ↦ (accept_settings c s ∷ [], update (accept_settings c s))
]
