-- ===== src/Agent/Render/EnvSh/Tests.antt =====
-- internal/agent/render.go: scripts of small snapshots, and the theorems on them.
use Prim.Native.String.{String}
use aap_config_server.Base.{◌≡◌, refl, some, [], ◌∷◌}
use aap_config_server.Base.Eq.{text_has_eq}
use aap_config_server.Base.Map.{Map, lookup, insert}
use aap_config_server.Base.Sort.{sort_by, insert_by}
use aap_config_server.Base.Text.{lacks}
use aap_config_server.Agent.Render.EnvSh.{
  EnvVarsPayload, defined_twice, rendered, refused, valid_rest, is_valid_env_name, value_error,
  add_env_values, replace_quotes, shell_single_quote, export_line, export_lines, render_env_sh,
}
use aap_config_server.Agent.Render.EnvSh.Shell.{source}
use aap_config_server.Agent.Render.EnvSh.Laws.{or_from, render_env_sh-source}

abbrev vars : EnvVarsPayload
vars = record {
  plain = ("MODE", "it's $HOME") ∷ [];
  secret_refs = [];
  secrets = ("KEY", "a\nb") ∷ [];
}

abbrev script : String
script = "export KEY='a\nb'\nexport MODE='it'\\''s $HOME'\n"

vars_rendered : render_env_sh (some vars) ≡ rendered script
unfolding render_env_sh add_env_values value_error is_valid_env_name valid_rest lacks lookup insert
    sort_by insert_by export_lines export_line shell_single_quote replace_quotes
vars_rendered = refl

twice :
    render_env_sh
      (some (record { plain = ("KEY", "a") ∷ []; secret_refs = []; secrets = ("KEY", "b") ∷ [] }))
    ≡ refused (defined_twice "KEY")
unfolding render_env_sh add_env_values value_error is_valid_env_name valid_rest lacks lookup insert
twice = refl

render_env_sh-source_example :
    (env : Map String String) × (source script ≡ some env)
    × ((name : String)
        → lookup name env ≡ or_from (lookup name vars.plain) (lookup name vars.secrets))
render_env_sh-source_example = render_env_sh-source vars script vars_rendered
