-- ===== src/Flow/Template.antt =====
-- internal/flow/template.go: truth of a text, templates, prompts and the context of the templates.
use arkonis_operator.Prelude.{
  String, none, some, List, [], ◌∷◌, Bool, not, ◌&&◌, get_elem?, ◌==◌, if◌then◌else◌,
}
use arkonis_operator.Prelude.Map.{Map}
use arkonis_operator.Prelude.Text.{◌<>◌, to_lower, trim_space}
use arkonis_operator.Api.Meta.{format, str, msg, end, Result, ok, err, ◌>>=◌}
use arkonis_operator.Api.Flow.{ArkFlow, ArkFlowStep, ArkFlowStepStatus}
use arkonis_operator.Flow.Dag.{StatusByName}
use arkonis_operator.Flow.Library.{Library, StepEntry, TemplateData}

unfoldable pub is_truthy : String → Bool
is_truthy s =
    let t = trim_space (to_lower s) in
    not (t == "") && not (t == "false") && not (t == "0") && not (t == "no")

module _ (lib : Library) where
  open lib use {Template, Json, parse, execute, unmarshal}

  unfoldable pub resolve_template : String → TemplateData Json → Result String
  resolve_template text context = do t ← parse text; execute t context

  -- The loop over `step.Inputs`. Go leaves the order of the keys open; here it is that of the map.
  unfoldable pub resolve_inputs : Map String → TemplateData Json → String → Result String
  resolve_inputs [] context buf = ok buf
  resolve_inputs ((key, text) ∷ inputs) context buf = elim (resolve_template text context) [
    | err e ↦ err (format "input %q: %w" (str key (msg e end)))
    | ok resolved ↦ resolve_inputs inputs context (buf <> key <> ": " <> resolved <> "\n")
  ]

  unfoldable pub resolve_prompt : ArkFlowStep → TemplateData Json → Result String
  resolve_prompt step context = do
    buf ← resolve_inputs step.inputs context ""
    ok (
        if step.output_schema == ""
        then buf
        else buf <> "\nRespond with valid JSON matching this schema:\n" <> step.output_schema
          <> "\n")

  unfoldable pub step_entry : ArkFlowStepStatus → StepEntry Json
  step_entry st = record {
    output = st.output;
    parsed = if st.output_json == "" then none else unmarshal st.output_json;
  }

  -- The loop over `statusByName`.
  unfoldable pub steps_data : StatusByName → List ArkFlowStepStatus → Map (StepEntry Json)
  steps_data [] steps = []
  steps_data ((name, i) ∷ m) steps =
      let rest = steps_data m steps in
      elim (get_elem? steps i) [ none ↦ rest | some st ↦ (name, step_entry st) ∷ rest ]

  unfoldable pub build_template_data : ArkFlow → StatusByName → TemplateData Json
  build_template_data f m = record { input = f.spec.input; steps = steps_data m f.status.steps }
