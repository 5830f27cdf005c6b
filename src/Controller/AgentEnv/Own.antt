-- ===== src/Controller/AgentEnv/Own.antt =====
-- internal/controller/arkagent_controller.go: what a container sees of its model, its prompt and its memory.
use arkonis_operator.Prelude.{String, Option, none, some, List, [], ◌∷◌, ◌≡◌, refl, ◌∙◌}
use arkonis_operator.Api.Settings.{ArkSettings}
use arkonis_operator.Api.Memory.{ArkMemory}
use arkonis_operator.Api.Agent.{ArkAgent, McpServerSpec, WebhookToolSpec}
use arkonis_operator.Controller.AgentEnv.{
  literal, EnvVar, backend_text, merge_system_prompt, tool_env_vars, base_env_vars, build_env_vars,
}
use arkonis_operator.Controller.AgentEnv.Backend.{last_value, build_env_vars-last_value}
use arkonis_operator.Controller.AgentEnv.Names.{contains, last_value-base}

-- The backend that is seen is that of the memory, if there is one.
abbrev pub SeesBackend : Option ArkMemory → List EnvVar → Type 0
SeesBackend none vars = Unit
SeesBackend (some mem) vars =
    last_value "AGENT_MEMORY_BACKEND" vars ≡ some (literal (backend_text mem.spec.backend))

module _ (marshal_servers : List McpServerSpec → String)
    (marshal_tools : List WebhookToolSpec → String) (agent : ArkAgent)
    (settings : Option ArkSettings) where
  own-tools :
      (tools : List WebhookToolSpec)
      → (last_value "AGENT_MODEL" (tool_env_vars marshal_servers marshal_tools tools) ≡ none)
        × (last_value "AGENT_SYSTEM_PROMPT" (tool_env_vars marshal_servers marshal_tools tools)
            ≡ none)
  unfolding tool_env_vars
  own-tools [] = (refl, refl)
  own-tools (tool ∷ tools) = (refl, refl)

  own-base :
      (prompt : String)
      → (last_value "AGENT_MODEL"
            (base_env_vars marshal_servers marshal_tools agent settings prompt)
          ≡ some (literal agent.spec.model))
        × (last_value "AGENT_SYSTEM_PROMPT"
              (base_env_vars marshal_servers marshal_tools agent settings prompt)
            ≡ some (literal (merge_system_prompt prompt settings)))
  unfolding base_env_vars
  own-base prompt = (refl, refl)

  -- The model, and the prompt merged with the settings.
  pub last_value-own :
      (mem : Option ArkMemory) (prompt : String)
      → (last_value "AGENT_MODEL"
            (build_env_vars marshal_servers marshal_tools agent settings mem prompt)
          ≡ some (literal agent.spec.model))
        × (last_value "AGENT_SYSTEM_PROMPT"
              (build_env_vars marshal_servers marshal_tools agent settings mem prompt)
            ≡ some (literal (merge_system_prompt prompt settings)))
  unfolding contains
  last_value-own mem prompt =
      let tools = own-tools agent.spec.tools in
      let base = own-base prompt in
      (
        last_value-base marshal_servers marshal_tools agent settings mem prompt "AGENT_MODEL" refl
              tools.0
            ∙ base.0,
        last_value-base marshal_servers marshal_tools agent settings mem prompt
              "AGENT_SYSTEM_PROMPT" refl tools.1
            ∙ base.1,
      )

  pub build_env_vars-SeesBackend :
      (prompt : String) (mem : Option ArkMemory)
      → SeesBackend mem (build_env_vars marshal_servers marshal_tools agent settings mem prompt)
  build_env_vars-SeesBackend prompt none = tt
  build_env_vars-SeesBackend prompt (some mem) =
      build_env_vars-last_value marshal_servers marshal_tools agent settings mem prompt
