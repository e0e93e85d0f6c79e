-- ===== src/Agent/Render/EnvSh.antt =====
-- internal/agent/render.go: RenderEnvSH, the script that exports the variables of a service.
pub mod Shell
pub mod Lines
pub mod Laws
pub mod Tests
use Prim.Native.Char.{Char, code}
use Prim.Native.String.{String, ◌++◌ as str_append}
use aap_config_server.Base.{
  ℕ, Bool, true, false, not, ◌&&◌, ◌||◌, Option, none, some, List, [], ◌∷◌, map, if◌then◌else◌, ltb,
  nat_beq, is_some,
}
use aap_config_server.Base.Eq.{text_has_eq}
use aap_config_server.Base.Map.{Map, lookup, insert}
use aap_config_server.Base.Sort.{sort_by, str_less}
use aap_config_server.Base.Text.{all_chars, lacks}

-- EnvVarsSnapshot.EnvVars
pub record EnvVarsPayload : Type 0 where
  pub plain : Map String String
  pub secret_refs : Map String String
  pub secrets : Map String String

pub data RenderError : Type 0 where
  snapshot_required : RenderError
  unresolved_secret_refs : RenderError
  name_invalid : String → String → RenderError
  contains_nul : String → String → RenderError
  defined_twice : String → RenderError

pub data Rendered (A : Type 0) : Type 0 where
  rendered : A → Rendered A
  refused : RenderError → Rendered A

-- `r != '_' && (r < 'A' || r > 'Z') && (r < 'a' || r > 'z')`
abbrev pub no_letter : ℕ → Bool
no_letter r = not (nat_beq r b'_') && ((ltb r b'A' || ltb b'Z' r) && (ltb r b'a' || ltb b'z' r))

-- the loop of isValidEnvName behind the first character
unfoldable pub valid_rest : String → Bool
valid_rest String.[] = true
valid_rest (String.◌∷◌ c s) =
    let rest = valid_rest s in
    if ltb 127 (code c)
    then false
    else if no_letter (code c) && (ltb (code c) b'0' || ltb b'9' (code c))
    then false
    else rest

-- isValidEnvName
unfoldable pub is_valid_env_name : String → Bool
is_valid_env_name String.[] = false
is_valid_env_name (String.◌∷◌ c s) =
    if ltb 127 (code c) then false else if no_letter (code c) then false else valid_rest s

-- the checks of addEnvValues on one entry
unfoldable pub value_error : Map String String → String → String → String → Option RenderError
value_error dst source key value =
    if not (is_valid_env_name key)
    then some (name_invalid source key)
    else if not (lacks 0 value)
    then some (contains_nul source key)
    else if is_some (lookup key dst)
    then some (defined_twice key)
    else none

abbrev pub unless_error :
    Option RenderError → Rendered (Map String String) → Rendered (Map String String)
unless_error none next = next
unless_error (some why) next = refused why

-- addEnvValues
unfoldable pub add_env_values :
    Map String String → Map String String → String → Rendered (Map String String)
add_env_values dst [] source = rendered dst
add_env_values dst ((key, value) ∷ src) source =
    unless_error (value_error dst source key value)
      (add_env_values (insert key value dst) src source)

-- `strings.ReplaceAll(value, "'", "'\\''")`
unfoldable pub replace_quotes : String → String
replace_quotes String.[] = String.[]
replace_quotes (String.◌∷◌ c s) =
    let rest = replace_quotes s in
    if nat_beq (code c) b'\'' then str_append "'\\''" rest else String.◌∷◌ c rest

-- shellSingleQuote
unfoldable pub shell_single_quote : String → String
shell_single_quote value = str_append "'" (str_append (replace_quotes value) "'")

-- `values[key]`
abbrev pub value_or_empty : Option String → String
value_or_empty none = ""
value_or_empty (some value) = value

-- one round of the loop that writes
unfoldable pub export_line : String → String → String
export_line key value =
    str_append "export "
      (str_append key (str_append "=" (str_append (shell_single_quote value) "\n")))

unfoldable pub export_lines : Map String String → List String → String
export_lines values [] = String.[]
export_lines values (key ∷ keys) =
    str_append (export_line key (value_or_empty (lookup key values))) (export_lines values keys)

abbrev pub render_values : Rendered (Map String String) → Rendered String
render_values (refused why) = refused why
render_values (rendered values) =
    rendered (export_lines values (sort_by str_less (map (λ e. e.0) values)))

abbrev pub add_secrets :
    Map String String → Rendered (Map String String) → Rendered (Map String String)
add_secrets secrets (refused why) = refused why
add_secrets secrets (rendered values) = add_env_values values secrets "secrets"

abbrev pub render_resolved : EnvVarsPayload → Map String String → Rendered String
render_resolved vars [] =
    render_values (add_secrets vars.secrets (add_env_values [] vars.plain "plain"))
render_resolved vars (ref ∷ refs) = refused unresolved_secret_refs

-- RenderEnvSH
unfoldable pub render_env_sh : Option EnvVarsPayload → Rendered String
render_env_sh none = refused snapshot_required
render_env_sh (some vars) = render_resolved vars vars.secret_refs
