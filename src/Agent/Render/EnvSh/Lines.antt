-- ===== src/Agent/Render/EnvSh/Lines.antt =====
-- internal/agent/render.go: how a shell reads one line of env.sh.
use Prim.Native.Char.{Char, code}
use Prim.Native.String.{String, ◌++◌ as str_append}
use Prim.Native.String.append
use text.Mathlib.TextEquality.{Char-path}
use text.Mathlib.TextLemmas.{append_assoc, append-nil}
use aap_config_server.Base.{
  ◌≡◌, refl, sym, ap, ◌∙◌, inl, inr, true, false, [], ◌∷◌, ◌++◌, arith, Bool-cases, nat_beq,
  nat_beq_iff,
}
use aap_config_server.Base.Eq.{text_has_eq}
use aap_config_server.Base.Map.{Map}
use aap_config_server.Base.Text.{all_chars, singleton-append}
use aap_config_server.Parser.Nodes.{is_name_part, matches_env_name}
use aap_config_server.Agent.Render.EnvSh.{
  valid_rest, is_valid_env_name, replace_quotes, shell_single_quote, export_line,
}
use aap_config_server.Agent.Render.EnvSh.Shell.{
  command, naming, bare, quoted, after_keyword, one, step, run_script,
}

valid_rest-all_chars : (s : String) → valid_rest s ≡ all_chars is_name_part s
unfolding valid_rest all_chars
valid_rest-all_chars String.[] = refl
valid_rest-all_chars (String.◌∷◌ c s) = ground (arith, valid_rest-all_chars s)

-- The agent takes the same names for names of variables as the parser of env_vars.yaml does.
pub is_valid_env_name-matches_env_name : (s : String) → is_valid_env_name s ≡ matches_env_name s
unfolding is_valid_env_name matches_env_name
is_valid_env_name-matches_env_name String.[] = refl
is_valid_env_name-matches_env_name (String.◌∷◌ c s) = ground (arith, valid_rest-all_chars s)

grown :
    (v w : String) (c : Char) → str_append (str_append v (one c)) w ≡ str_append v (String.◌∷◌ c w)
grown v w c = append_assoc v (one c) w ∙ ap (str_append v) (singleton-append c w)

quote_escape :
    (t : String)
    → str_append "'\\''" t ≡ String.◌∷◌ "'" (String.◌∷◌ "\\" (String.◌∷◌ "'" (String.◌∷◌ "'" t)))
quote_escape t =
    append.cons "'" "\\''" t
    ∙ ap (String.◌∷◌ "'") (
        append.cons "\\" "''" t
        ∙ ap (String.◌∷◌ "\\")
            (append.cons "'" "'" t ∙ ap (String.◌∷◌ "'") (singleton-append "'" t)))

-- what stands behind a value: the closing quote and the end of the line
abbrev line_end : String → String
line_end rest = String.◌∷◌ "'" (String.◌∷◌ "\n" rest)

run_value :
    (w n v : String) (out : Map String String) (rest : String)
    → run_script (quoted n v) out (str_append (replace_quotes w) (line_end rest))
      ≡ run_script (command "export ") (out ++ (n, str_append v w) ∷ []) rest
unfolding run_script step replace_quotes
run_value String.[] n v out rest = rw (append.nil (line_end rest), append-nil v) refl
run_value (String.◌∷◌ c w) n v out rest = elim (Bool-cases (nat_beq (code c) b'\'')) [
  | inl y ↦
      let same : c ≡ "'" = Char-path c "'" ((nat_beq_iff (code c) b'\'').0 y) in
      rw
        (
          y,
          append_assoc "'\\''" (replace_quotes w) (line_end rest),
          quote_escape (str_append (replace_quotes w) (line_end rest)),
        )
        (run_value w n (str_append v (one "'")) out rest ∙ rw (grown v w "'", same) refl)
  | inr k ↦
      rw (k, append.cons c (replace_quotes w) (line_end rest))
        (rw k (run_value w n (str_append v (one c)) out rest ∙ rw (grown v w c) refl))
]

run_name :
    (k n : String) (out : Map String String) (t : String)
    → all_chars is_name_part k ≡ true
    → matches_env_name (str_append n k) ≡ true
    → run_script (naming n) out (str_append k (String.◌∷◌ "=" t))
      ≡ run_script (bare (str_append n k) "") out t
unfolding run_script step all_chars
run_name String.[] n out t h m =
    rw (append.nil (String.◌∷◌ "=" t), append-nil n)
      (let named : matches_env_name n ≡ true = ap matches_env_name (sym (append-nil n)) ∙ m in
        rw named refl)
run_name (String.◌∷◌ c k) n out t h m =
    let part : is_name_part (code c) ≡ true = ground arith in
    let other : nat_beq (code c) b'=' ≡ false = ground arith in
    rw (append.cons c k (String.◌∷◌ "=" t), other)
      (rw part (
        run_name k (str_append n (one c)) out t (ground arith)
          (ap matches_env_name (grown n k c) ∙ m)
        ∙ rw (grown n k c) refl))

run_keyword :
    (k : String) (out : Map String String) (t : String)
    → run_script (after_keyword k) out (str_append k t) ≡ run_script (naming "") out t
unfolding run_script step
run_keyword String.[] out t = rw (append.nil t) refl
run_keyword (String.◌∷◌ c k) out t =
    let same : nat_beq (code c) (code c) ≡ true = ground arith in
    rw (append.cons c k t, same) (run_keyword k out t)

pub matches_env_name-all_chars :
    (k : String) → matches_env_name k ≡ true → all_chars is_name_part k ≡ true
unfolding matches_env_name all_chars
matches_env_name-all_chars String.[] h = refl
matches_env_name-all_chars (String.◌∷◌ c k) h = ground (arith, h)

export_line_spread :
    (k v rest : String)
    → str_append (export_line k v) rest
      ≡ str_append "export " (
          str_append k
            (String.◌∷◌ "=" (String.◌∷◌ "'" (str_append (replace_quotes v) (line_end rest)))))
unfolding export_line shell_single_quote
export_line_spread k v rest = simp append_assoc (
    rw
      (
        singleton-append "\n" rest,
        singleton-append "'" (String.◌∷◌ "\n" rest),
        singleton-append "'" (str_append (replace_quotes v) (line_end rest)),
        singleton-append "=" (String.◌∷◌ "'" (str_append (replace_quotes v) (line_end rest))),
      )
      refl)

pub run_line :
    (k v : String) (out : Map String String) (rest : String)
    → matches_env_name k ≡ true
    → run_script (command "export ") out (str_append (export_line k v) rest)
      ≡ run_script (command "export ") (out ++ (k, v) ∷ []) rest
unfolding run_script step
run_line k v out rest m =
    let value = str_append (replace_quotes v) (line_end rest) in
    ap (run_script (command "export ") out) (export_line_spread k v rest)
    ∙ (run_keyword "export " out (str_append k (String.◌∷◌ "=" (String.◌∷◌ "'" value)))
        ∙ (run_name k "" out (String.◌∷◌ "'" value) (matches_env_name-all_chars k m)
              (ap matches_env_name (append.nil k) ∙ m)
            ∙ (ap
                  (λ n.
                    run_script (quoted n "") out (str_append (replace_quotes v) (line_end rest)))
                  (append.nil k)
                ∙ (run_value v k "" out rest
                    ∙ ap (λ w. run_script (command "export ") (out ++ (k, w) ∷ []) rest)
                        (append.nil v)))))
