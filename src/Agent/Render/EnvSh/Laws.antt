-- ===== src/Agent/Render/EnvSh/Laws.antt =====
-- internal/agent/render.go: a shell that reads env.sh gets each variable with its value.
use Prim.Native.String.{String}
use mathlib.Core.List.{append_assoc as list_append_assoc, append-nil as list_append-nil}
use aap_config_server.Store.Listing.{contains}
use aap_config_server.Store.Revert.Laws.{contains-sort_by, contains-keys}
use aap_config_server.Base.{
  Option-cases, All, ◌≡◌, refl, sym, ap, ◌∙◌, inl, inr, true, Option, none, some, List, [], ◌∷◌,
  ◌++◌, map, arith, Bool-cases, if◌then◌else◌,
}
use aap_config_server.Base.Eq.{◌==◌, text_has_eq}
use aap_config_server.Base.Map.{Map, lookup, insert, lookup-insert}
use aap_config_server.Base.Sort.{sort_by, insert_by, str_less}
use aap_config_server.Parser.Nodes.{matches_env_name}
use aap_config_server.Agent.Render.EnvSh.{
  is_valid_env_name, value_error, add_env_values, export_lines, value_or_empty, unless_error,
  render_values, add_secrets, render_resolved, render_env_sh, EnvVarsPayload, Rendered, rendered,
  refused, RenderError,
}
use aap_config_server.Agent.Render.EnvSh.Lines.{is_valid_env_name-matches_env_name, run_line}
use aap_config_server.Agent.Render.EnvSh.Shell.{command, run_script, source}

abbrev Named : String → Type 0
Named key = matches_env_name key ≡ true

abbrev exports : Map String String → List String → Map String String
exports values keys = map (λ k. (k, value_or_empty (lookup k values))) keys

run_lines :
    (values : Map String String) (keys : List String) (out : Map String String)
    → All Named keys
    → run_script (command "export ") out (export_lines values keys)
      ≡ some (out ++ exports values keys)
unfolding run_script export_lines
run_lines values [] out h = rw (list_append-nil out) refl
run_lines values (k ∷ keys) out h =
    let value = value_or_empty (lookup k values) in
    run_line k value out (export_lines values keys) h.0
    ∙ (run_lines values keys (out ++ (k, value) ∷ []) h.1
        ∙ ap (λ es. some es) (list_append_assoc out ((k, value) ∷ []) (exports values keys)))

abbrev NamedKeys : Map String String → Type 0
NamedKeys m = All (λ e. Named e.0) m

insert-NamedKeys :
    (key value : String) (m : Map String String)
    → Named key
    → NamedKeys m
    → NamedKeys (insert key value m)
unfolding insert
insert-NamedKeys key value [] n h = (n, tt)
insert-NamedKeys key value ((i, v) ∷ m) n h = elim (Bool-cases (i == key)) [
  | inl same ↦ rw same (n, h.1)
  | inr other ↦ rw other (h.0, insert-NamedKeys key value m n h.1)
]

sort_by-Named : (keys : List String) → All Named keys → All Named (sort_by str_less keys)
unfolding sort_by
sort_by-Named [] h = tt
sort_by-Named (k ∷ keys) h = insert_by-Named k (sort_by str_less keys) h.0 (sort_by-Named keys h.1)
  where
    insert_by-Named :
        (k : String) (ks : List String)
        → Named k
        → All Named ks
        → All Named (insert_by str_less k ks)
    insert_by-Named k [] n h = (n, tt)
    insert_by-Named k (j ∷ ks) n h = elim (Bool-cases (str_less j k)) [
      | inl less ↦ rw less (h.0, insert_by-Named k ks n h.1)
      | inr more ↦ rw more (n, (h.0, h.1))
    ]

keys-Named : (m : Map String String) → NamedKeys m → All Named (map (λ e. e.0) m)
keys-Named [] h = tt
keys-Named (e ∷ m) h = (h.0, keys-Named m h.1)

lookup-exports :
    (values : Map String String) (name : String) (keys : List String)
    → lookup name (exports values keys)
      ≡ (if contains name keys then some (value_or_empty (lookup name values)) else none)
unfolding lookup contains
lookup-exports values name [] = refl
lookup-exports values name (k ∷ keys) = elim (Bool-cases (k == name)) [
  | inl same ↦
      rw same
        (ap (λ n. some (value_or_empty (lookup n values))) ((text_has_eq.agree_iff k name).0 same))
  | inr other ↦ rw other (lookup-exports values name keys)
]

lookup_sorted :
    (values : Map String String) (name : String)
    → lookup name (exports values (sort_by str_less (map (λ e. e.0) values))) ≡ lookup name values
lookup_sorted values name =
    lookup-exports values name (sort_by str_less (map (λ e. e.0) values))
    ∙ rw (contains-sort_by name (map (λ e. e.0) values), contains-keys name values)
        (elim (Option-cases (lookup name values)) [
          | inl missing ↦ rw missing refl
          | inr (v, found) ↦ rw found refl
        ])

abbrev pub or_from : Option String → Option String → Option String
or_from (some value) later = some value
or_from none later = later

-- what a successful addEnvValues has added
record Added (dst src values : Map String String) : Type 0 where
  found : (name : String) → lookup name values ≡ or_from (lookup name dst) (lookup name src)
  named : NamedKeys dst → NamedKeys values

unless_error-rendered :
    (error : Option RenderError) (next : Rendered (Map String String)) (values : Map String String)
    → unless_error error next ≡ rendered values
    → (error ≡ none) × (next ≡ rendered values)
unless_error-rendered none next values h = (refl, h)
unless_error-rendered (some why) next values h = absurd (cc h)

value_error-none :
    (dst : Map String String) (origin key value : String)
    → value_error dst origin key value ≡ none
    → Named key × (lookup key dst ≡ none)
unfolding value_error
value_error-none dst origin key value h =
    let valid : is_valid_env_name key ≡ true = ground arith in
    (
      sym (is_valid_env_name-matches_env_name key) ∙ valid,
      ground (arith, Option-cases (lookup key dst)),
    )

inserted :
    (key name value : String) (dst : Map String String) (later : Option String)
    → lookup key dst ≡ none
    → or_from (lookup name (insert key value dst)) later
      ≡ or_from (lookup name dst) (if key == name then some value else later)
inserted key name value dst later fresh = elim (Bool-cases (key == name)) [
  | inl same ↦
      rw
        (
          lookup-insert key name value dst,
          same,
          ap (λ n. lookup n dst) (sym ((text_has_eq.agree_iff key name).0 same)),
          fresh,
        )
        refl
  | inr other ↦ rw (lookup-insert key name value dst, other) refl
]

add_env_values-Added :
    (dst src : Map String String) (origin : String) (values : Map String String)
    → add_env_values dst src origin ≡ rendered values
    → Added dst src values
unfolding add_env_values lookup
add_env_values-Added dst [] origin values h =
    let same : dst ≡ values = cc h in
    record {
      found = λ name. ground (arith, ap (lookup name) same, Option-cases (lookup name dst));
      named = λ k. rw (← same) k;
    }
add_env_values-Added dst ((key, value) ∷ src) origin values h =
    let parts =
      unless_error-rendered (value_error dst origin key value)
        (add_env_values (insert key value dst) src origin) values h in
    let fresh = value_error-none dst origin key value parts.0 in
    let rest = add_env_values-Added (insert key value dst) src origin values parts.1 in
    record {
      found = λ name. rest.found name ∙ inserted key name value dst (lookup name src) fresh.1;
      named = λ k. rest.named (insert-NamedKeys key value dst fresh.0 k);
    }

abbrev pub SourcedAs : EnvVarsPayload → String → Map String String → Type 0
SourcedAs vars script env =
    (source script ≡ some env)
    × ((name : String)
        → lookup name env ≡ or_from (lookup name vars.plain) (lookup name vars.secrets))

add_secrets-rendered :
    (secrets : Map String String) (added : Rendered (Map String String))
    (values : Map String String)
    → add_secrets secrets added ≡ rendered values
    → (plain : Map String String) × (added ≡ rendered plain)
      × (add_env_values plain secrets "secrets" ≡ rendered values)
add_secrets-rendered secrets (refused why) values h = absurd (cc h)
add_secrets-rendered secrets (rendered plain) values h = (plain, refl, h)

render_values-rendered :
    (added : Rendered (Map String String)) (script : String)
    → render_values added ≡ rendered script
    → (values : Map String String) × (added ≡ rendered values)
      × (export_lines values (sort_by str_less (map (λ e. e.0) values)) ≡ script)
render_values-rendered (refused why) script h = absurd (cc h)
render_values-rendered (rendered values) script h = (values, refl, cc h)

render_resolved-source :
    (vars : EnvVarsPayload) (refs : Map String String) (script : String)
    → render_resolved vars refs ≡ rendered script
    → (env : Map String String) × SourcedAs vars script env
unfolding source lookup
render_resolved-source vars (ref ∷ refs) script h = absurd (cc h)
render_resolved-source vars [] script h =
    let (values, added, written) =
      render_values-rendered (add_secrets vars.secrets (add_env_values [] vars.plain "plain"))
        script h in
    let (plain, first, second) =
      add_secrets-rendered vars.secrets (add_env_values [] vars.plain "plain") values added in
    let a = add_env_values-Added [] vars.plain "plain" plain first in
    let b = add_env_values-Added plain vars.secrets "secrets" values second in
    let keys = sort_by str_less (map (λ e. e.0) values) in
    (
      exports values keys,
      (
        ap source (sym written)
            ∙ run_lines values keys []
                (sort_by-Named (map (λ e. e.0) values) (keys-Named values (b.named (a.named tt)))),
        λ name.
            lookup_sorted values name
            ∙ (b.found name ∙ ap (λ o. or_from o (lookup name vars.secrets)) (a.found name)),
      ),
    )

-- A shell that reads the env.sh of a snapshot exports each variable of the snapshot with exactly its
-- value, whatever characters the value has, and nothing else; outside quotes there is nothing that
-- it could expand or run.
pub render_env_sh-source :
    (vars : EnvVarsPayload) (script : String)
    → render_env_sh (some vars) ≡ rendered script
    → (env : Map String String) × (source script ≡ some env)
      × ((name : String)
          → lookup name env ≡ or_from (lookup name vars.plain) (lookup name vars.secrets))
unfolding render_env_sh
render_env_sh-source vars script h =
    let (env, sourced) = render_resolved-source vars vars.secret_refs script h in
    (env, sourced.0, sourced.1)
