-- ===== src/Handler/Watch/Laws.antt =====
-- internal/handler/handler.go: when a watch answers that the resource has changed.
use mathlib.Core.Path.{subst}
use aap_config_server.Base.{
  String, ◌≡◌, refl, ap, ◌∙◌, ◌≢◌, ◌⊎◌, Bool, true, false, Option, none, some, List, [], ◌∷◌,
  if◌then◌else◌, Bool-cases, inl, inr, eq_iff, arith,
}
use aap_config_server.Base.Eq.{◌==◌, text_has_eq}
use aap_config_server.Store.Types.{ServiceKey, ServiceData}
use aap_config_server.Store.Versions.{Resource, resource_version}
use aap_config_server.Store.Reload.{ConfigStore, get_config, resource_version_of}
use aap_config_server.Handler.Payload.{config_version, env_vars_version}
use aap_config_server.Handler.Payload.Laws.{payload_version}
use aap_config_server.Handler.Watch.{
  Waited, moved, gave_up, blocked, wait_for_version_change, is_inherited, watched_version, Turn,
  WatchAnswer, changed, not_modified, after_wait, after_reading, watch_outcome, read_token, watch,
}

payload_version_lem :
    (d : ServiceData) (resource : Resource) (inherit : Bool) (head : String)
    → (if inherit
        then if is_inherited resource d then head else resource_version d resource head
        else resource_version d resource head)
      ≡ payload_version resource inherit d head head
unfolding resource_version is_inherited config_version env_vars_version
payload_version_lem d Resource.config inherit head =
    ground (arith, eq_iff d.config_resource_version "", eq_iff head "")
payload_version_lem d Resource.env_vars inherit head =
    ground (arith, eq_iff d.env_vars_resource_version "", eq_iff head "")

resource_version_of_lem :
    (s : ConfigStore) (key : ServiceKey) (resource : Resource) (d : ServiceData)
    → get_config s key ≡ some d
    → resource_version_of s key resource
      ≡ some (resource_version d resource s.snapshot.version, s.snapshot.version)
unfolding resource_version_of
resource_version_of_lem s key resource d h = rw (resource_version_of, h) refl

-- The token that a watch compares is the version that a read of the same resource reports, if both
-- find the same store: of either resource, with or without inheritance.
pub watched_version-payload_version :
    (s : ConfigStore) (key : ServiceKey) (resource : Resource) (inherit : Bool) (d : ServiceData)
    → get_config s key ≡ some d
    → watched_version s s key resource inherit
      ≡ some (
        payload_version resource inherit d s.snapshot.version s.snapshot.version,
        s.snapshot.version,
      )
unfolding watched_version
watched_version-payload_version s key resource true d h =
    rw (resource_version_of_lem s key resource d h, h)
      (ap (λ v. some (v, s.snapshot.version))
        (payload_version_lem d resource true s.snapshot.version))
watched_version-payload_version s key resource false d h =
    rw (resource_version_of_lem s key resource d h) (
      ap (λ v. some (v, s.snapshot.version))
        (payload_version_lem d resource false s.snapshot.version))

-- some element satisfies it
abbrev pub Somewhere : {A : Type 0} → (A → Type 0) → List A → Type 0
Somewhere P [] = ⊥
Somewhere P (a ∷ more) = P a ⊎ Somewhere P more

module _ (key : ServiceKey) (resource : Resource) (inherit : Bool) (version : String) where
  -- the turn read a token other than the version
  abbrev pub Differs : Turn → Type 0
  Differs turn =
      (token : String) × (head : String) × ((read_token key resource inherit turn
          ≡ some (token, head))
        × (token ≢ version))

  after_wait_changed :
      (turn : Turn) (rest : WatchAnswer) (w : Waited)
      → after_wait turn rest w ≡ changed
      → rest ≡ changed
  after_wait_changed turn rest (moved current) h = h
  after_wait_changed turn rest (gave_up current) h = absurd (cc h)
  after_wait_changed turn rest blocked h = absurd (cc h)

  after_reading_changed :
      (turn : Turn) (rest : WatchAnswer) (read : Option (String × String))
      → read_token key resource inherit turn ≡ read
      → after_reading version turn rest read ≡ changed
      → Differs turn ⊎ (rest ≡ changed)
  after_reading_changed turn rest none is h = absurd (cc h)
  after_reading_changed turn rest (some (token, head)) is h = elim (Bool-cases (token == version)) [
    | inl y ↦ inr (
        after_wait_changed turn rest (wait_for_version_change head turn.waiting turn.wakes) (
          subst
            (λ b.
              (if b
                then after_wait turn rest (wait_for_version_change head turn.waiting turn.wakes)
                else changed)
              ≡ changed)
            y h))
    | inr n ↦ inl (token, head, (is, λ same. ground (arith, eq_iff token version)))
  ]

  -- a turn of the loop before its deadline
  abbrev turn_answer : Turn → List Turn → WatchAnswer
  turn_answer turn turns =
      after_reading version turn (watch key resource inherit version turns)
        (read_token key resource inherit turn)

  over_unchanged :
      (canceled : Bool) (answer : WatchAnswer) (over : Bool)
      → over ≡ true
      → (if over then not_modified (watch_outcome canceled) else answer) ≢ changed
  over_unchanged canceled answer true y h = cc h
  over_unchanged canceled answer false y h = cc y

  open_answer :
      (canceled : Bool) (answer : WatchAnswer) (over : Bool)
      → over ≡ false
      → answer ≡ (if over then not_modified (watch_outcome canceled) else answer)
  open_answer canceled answer true n = absurd (cc n)
  open_answer canceled answer false n = refl

  -- A watch that answers "changed" has read a token of the resource that is not the version of its
  -- query, in one of its turns.
  pub watch_changed :
      (turns : List Turn)
      → watch key resource inherit version turns ≡ changed
      → Somewhere Differs turns
  unfolding watch
  watch_changed [] h = absurd (cc h)
  watch_changed (turn ∷ turns) h = elim (Bool-cases turn.deadline_over) [
    | inl y ↦ absurd (over_unchanged turn.canceled (turn_answer turn turns) turn.deadline_over y h)
    | inr n ↦
        elim (after_reading_changed turn (watch key resource inherit version turns)
          (read_token key resource inherit turn) refl
          (open_answer turn.canceled (turn_answer turn turns) turn.deadline_over n ∙ h)) [
            | inl d ↦ inl d
            | inr later ↦ inr (watch_changed turns later)
          ]
  ]
