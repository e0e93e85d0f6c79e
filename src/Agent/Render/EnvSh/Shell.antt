-- ===== src/Agent/Render/EnvSh/Shell.antt =====
-- What a shell does with env.sh, in the strictest reading: lines `export NAME=word`, where a word is
-- made of single-quoted texts and escaped characters only. Any other character outside quotes is
-- refused, so nothing of a script that is read is expanded or run.
use Prim.Native.Char.{Char, code}
use Prim.Native.String.{String, ◌++◌ as str_append}
use aap_config_server.Base.{Option, none, some, [], ◌∷◌, ◌++◌, if◌then◌else◌, nat_beq}
use aap_config_server.Base.Eq.{◌==◌, text_has_eq}
use aap_config_server.Base.Map.{Map}
use aap_config_server.Parser.Nodes.{is_name_part, matches_env_name}

pub data Mode : Type 0 where
  command : String → Mode  -- what is left of the word `export` and its blank
  naming : String → Mode  -- the name so far
  bare : String → String → Mode  -- a name, and its value so far
  quoted : String → String → Mode
  escaped : String → String → Mode

abbrev pub after_keyword : String → Mode
after_keyword String.[] = naming ""
after_keyword (String.◌∷◌ c s) = command (String.◌∷◌ c s)

abbrev pub one : Char → String
one c = String.◌∷◌ c String.[]

abbrev pub Next : Type 0
Next = Option (Mode × Map String String)

unfoldable pub step : Mode → Map String String → Char → Next
step (command String.[]) out c = none
step (command (String.◌∷◌ d rest)) out c =
    if nat_beq (code c) (code d) then some (after_keyword rest, out) else none
step (naming n) out c =
    if nat_beq (code c) b'='
    then (if matches_env_name n then some (bare n "", out) else none)
    else if is_name_part (code c)
    then some (naming (str_append n (one c)), out)
    else none
step (bare n v) out c =
    if nat_beq (code c) b'\''
    then some (quoted n v, out)
    else if nat_beq (code c) b'\\'
    then some (escaped n v, out)
    else if nat_beq (code c) b'\n'
    then some (command "export ", out ++ (n, v) ∷ [])
    else none
step (quoted n v) out c =
    if nat_beq (code c) b'\''
    then some (bare n v, out)
    else some (quoted n (str_append v (one c)), out)
step (escaped n v) out c =
    if nat_beq (code c) b'\n' then none else some (bare n (str_append v (one c)), out)

abbrev pub then_run :
    Next → (Mode → Map String String → Option (Map String String)) → Option (Map String String)
then_run none go = none
then_run (some (m, out)) go = go m out

-- the script ends between two lines
abbrev pub ended : Mode → Map String String → Option (Map String String)
ended (command rest) out = if rest == "export " then some out else none
ended m out = none

unfoldable pub run_script : Mode → Map String String → String → Option (Map String String)
run_script m out String.[] = ended m out
run_script m out (String.◌∷◌ c s) = then_run (step m out c) (λ m' out'. run_script m' out' s)

-- the variables that the script exports, in order
unfoldable pub source : String → Option (Map String String)
source script = run_script (command "export ") [] script
