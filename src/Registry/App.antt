-- ===== src/Registry/App.antt =====
-- internal/registry/types.go: one registered app, its key and its normal form.
-- `time.Parse` with the RFC 3339 layout is the standard library's: the section's parameter gives the
-- instant that a text denotes, counted from Go's zero time, or nothing where the parse fails.
use aap_config_server.Base.{
  ℕ, String, ◌≡◌, ◌↔◌, Bool, true, false, ◌&&◌, Option, List, [], ◌∷◌, arith, if◌then◌else◌,
  is_some, eq_iff,
}
use aap_config_server.Base.Eq.{HasEq, ◌==◌, text_has_eq}
use aap_config_server.Base.Sort.{str_less, sort_by}

abbrev pub Time : Type 0
Time = ℕ

pub record App : Type 0 where
  pub org : String
  pub project : String
  pub service : String
  pub name : String
  pub updated_at : String

pub record Key : Type 0 where
  pub org : String
  pub project : String
  pub service : String

abbrev pub key_for : App → Key
key_for app = record { org = app.org; project = app.project; service = app.service }

abbrev pub key_beq : Key → Key → Bool
key_beq a b = a.org == b.org && (a.project == b.project && a.service == b.service)

pub key_beq_iff : (a b : Key) → (key_beq a b ≡ true) ↔ (a ≡ b)
key_beq_iff a b = (
  λ h. ground (arith, eq_iff a.org b.org, eq_iff a.project b.project, eq_iff a.service b.service),
  λ h. ground (arith, eq_iff a.org b.org, eq_iff a.project b.project, eq_iff a.service b.service),
)

instance abbrev pub key_eq : HasEq Key
key_eq = record { agree = key_beq; agree_iff = key_beq_iff }

pub data AppError : Type 0 where
  org_required project_required service_required : AppError
  updated_at_required updated_at_invalid current_updated_at_invalid : AppError

pub data Result (A : Type 0) : Type 0 where
  ok : A → Result A
  err : AppError → Result A

-- the service and the name stand in for each other
abbrev pub named : App → App
named app =
    let service = if app.service == "" then app.name else app.service in
    record app { service = service; name = if app.name == "" then service else app.name }

-- the order of `sort.Slice`: org, then project, then service
abbrev pub app_less : App → App → Bool
app_less a b =
    if a.org == b.org
    then if a.project == b.project
      then str_less a.service b.service
      else str_less a.project b.project
    else str_less a.org b.org

module _ (parse_time : String → Option Time) where
  -- `normalizeApp`
  unfoldable pub normalize_app : App → Result App
  normalize_app app =
      let next = named app in
      if next.org == ""
      then err org_required
      else if next.project == ""
      then err project_required
      else if next.service == ""
      then err service_required
      else if next.updated_at == ""
      then ok next
      else if is_some (parse_time next.updated_at)
      then ok next
      else err updated_at_invalid

  abbrev prepend : Result App → Result (List App) → Result (List App)
  prepend (err e) rest = err e
  prepend (ok app) (err e) = err e
  prepend (ok app) (ok apps) = ok (app ∷ apps)

  abbrev normalize_all : List App → Result (List App)
  normalize_all [] = ok []
  normalize_all (app ∷ apps) = prepend (normalize_app app) (normalize_all apps)

  abbrev sorted : Result (List App) → Result (List App)
  sorted (err e) = err e
  sorted (ok apps) = ok (sort_by app_less apps)

  -- `normalizeApps`: all entries in their order, or the error of the first malformed one
  unfoldable pub normalize_apps : List App → Result (List App)
  unfolding normalize_app sort_by
  normalize_apps apps = sorted (normalize_all apps)

  -- What a normalised app promises.
  pub record IsNormal (app : App) : Type 0 where
    pub has_org : (app.org == "") ≡ false
    pub has_project : (app.project == "") ≡ false
    pub has_service : (app.service == "") ≡ false
    pub has_time : (app.updated_at == "") ≡ false → is_some (parse_time app.updated_at) ≡ true

  -- A normalised app is complete, and normalising it again changes nothing.
  pub normalize_app_idempotent :
      (app next : App)
      → normalize_app app ≡ ok next
      → IsNormal next × (normalize_app next ≡ ok next)
  unfolding normalize_app
  normalize_app_idempotent app next h = ground arith
