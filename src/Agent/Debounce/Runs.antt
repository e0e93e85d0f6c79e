-- ===== src/Agent/Debounce/Runs.antt =====
-- Sequences of calls of the debouncer: internal/agent/debounce.go, `RecordChange` and `Due` called
-- in any order by one event loop.
use aap_config_server.Base.{
  ◌+◌, ◌≤◌, ◌<◌, ◌≡◌, ◌∙◌, refl, true, false, none, List, [], ◌∷◌, ◌++◌, ◌⊎◌, ◌≢◌, arith,
  if◌then◌else◌, Bool-cases, inl, inr,
}
use aap_config_server.Base.Int.{pos_part}
use aap_config_server.Agent.Debounce.{
  Time, DebounceConfig, Debouncer, DebounceDecision, validate, new_debouncer, due, record_change,
}
use aap_config_server.Agent.Debounce.Laws.{IsValid, validate_iff}

pub data Call : Type 0 where
  change check : Time → Call

abbrev pub at : Call → Time
at (change t) = t
at (check t) = t

unfoldable pub step : Debouncer → Call → Debouncer × DebounceDecision
unfolding record_change due
step d (change t) = record_change d t
step d (check t) = due d t

unfoldable pub run : Debouncer → List Call → Debouncer
run d [] = d
run d (c ∷ cs) = run (step d c).0 cs

-- the times of the calls that told the caller to apply
unfoldable pub applies : Debouncer → List Call → List Time
applies d [] = []
applies d (c ∷ cs) =
    let rest = applies (step d c).0 cs in if (step d c).1.apply_now then at c ∷ rest else rest

-- each time is at least `gap` after the one before it, and the first is at least `low`
abbrev pub IsSpaced : Time → Time → List Time → Type 0
IsSpaced gap low [] = Unit
IsSpaced gap low (t ∷ ts) = (low ≤ t) × IsSpaced gap (t + gap) ts

-- the calls come in the order of time, none before `now`
abbrev pub IsOrdered : Time → List Call → Type 0
IsOrdered now [] = Unit
IsOrdered now (c ∷ cs) = (now ≤ at c) × IsOrdered (at c) cs

cfg-step : (d : Debouncer) (c : Call) → (step d c).0.cfg ≡ d.cfg
unfolding step
cfg-step d (change t) = ground arith
cfg-step d (check t) = ground arith

step_applies :
    (d : Debouncer) (c : Call)
    → 0 < pos_part d.cfg.cooldown
    → (step d c).1.apply_now ≡ true
    → (d.cooldown_until ≤ at c) × ((step d c).0.cooldown_until ≡ at c + pos_part d.cfg.cooldown)
unfolding step
step_applies d (change t) v h = ground arith
step_applies d (check t) v h = ground arith

step_waits :
    (d : Debouncer) (c : Call)
    → (step d c).1.apply_now ≡ false
    → (step d c).0.cooldown_until ≡ d.cooldown_until
unfolding step
step_waits d (change t) h = ground arith
step_waits d (check t) h = ground arith

IsSpaced-weaken :
    (gap low low' : Time) (ts : List Time) → low ≤ low' → IsSpaced gap low' ts → IsSpaced gap low ts
IsSpaced-weaken gap low low' [] h s = tt
IsSpaced-weaken gap low low' (t ∷ ts) h s = (omega arith, s.1)

applies_from :
    (gap : Time) (d : Debouncer) (cs : List Call)
    → 0 < gap
    → pos_part d.cfg.cooldown ≡ gap
    → IsSpaced gap d.cooldown_until (applies d cs)
unfolding applies
applies_from gap d [] p g = tt
applies_from gap d (c ∷ cs) p g =
    let ih = applies_from gap (step d c).0 cs p (ground (arith, cfg-step d c)) in
    elim (Bool-cases (step d c).1.apply_now) [
      | inl e ↦
          let s = step_applies d c (omega arith) e in
          rw e
            (s.0, IsSpaced-weaken gap (at c + gap) (step d c).0.cooldown_until _ (omega arith) ih)
      | inr e ↦ rw e (
          IsSpaced-weaken gap d.cooldown_until (step d c).0.cooldown_until _
            (omega (arith, step_waits d c e)) ih)
    ]

-- Whatever the calls and their times, a debouncer with a valid configuration tells its caller to
-- apply at most once per cooldown: two successive applies are at least the cooldown apart.
pub applies-IsSpaced :
    (cfg : DebounceConfig) (cs : List Call)
    → validate cfg ≡ none
    → IsSpaced (pos_part cfg.cooldown) 0 (applies (new_debouncer cfg).0 cs)
unfolding new_debouncer
applies-IsSpaced cfg cs v =
    applies_from (pos_part cfg.cooldown) (new_debouncer cfg).0 cs
      ((validate_iff cfg).0 v).cooldown_pos refl

-- What holds of a debouncer at time `now`, if the calls come in the order of time.
pub record OnTime (d : Debouncer) (now : Time) : Type 0 where
  pub started : d.pending ≡ true → d.debounce_start ≤ now
  pub seen : d.pending ≡ true → d.debounce_start ≤ d.last_change
  pub cools_from_start :
      d.pending ≡ true → d.cooldown_until ≤ d.debounce_start + pos_part d.cfg.cooldown
  pub cools_from_now : d.cooldown_until ≤ now + pos_part d.cfg.cooldown

step-OnTime :
    (d : Debouncer) (c : Call) (now : Time)
    → now ≤ at c
    → OnTime d now
    → IsValid d.cfg
    → OnTime (step d c).0 (at c)
unfolding step
step-OnTime d (change t) now o h v = ground arith
step-OnTime d (check t) now o h v = ground arith

run-OnTime :
    (d : Debouncer) (now : Time) (cs more : List Call)
    → IsOrdered now (cs ++ more)
    → IsValid d.cfg
    → OnTime d now
    → (later : Time) × (IsOrdered later more) × OnTime (run d cs) later × IsValid (run d cs).cfg
unfolding run
run-OnTime d now [] more o v h = (now, o, h, v)
run-OnTime d now (c ∷ cs) more o v h =
    run-OnTime (step d c).0 (at c) cs more o.1 (rw (cfg-step d c) v) (step-OnTime d c now o.0 h v)

cfg-run : (d : Debouncer) (cs : List Call) → (run d cs).cfg ≡ d.cfg
unfolding run
cfg-run d [] = refl
cfg-run d (c ∷ cs) = cfg-run (step d c).0 cs ∙ cfg-step d c

record_change_last :
    (d : Debouncer) (t : Time)
    → (((record_change d t).1.apply_now ≡ true) × ((record_change d t).0.pending ≡ false))
      ⊎ ((record_change d t).0.pending ≡ true)
unfolding record_change
record_change_last d t = ground arith

due_late :
    (d : Debouncer) (now at : Time)
    → OnTime d now
    → IsValid d.cfg
    → d.pending ≡ true
    → d.debounce_start + pos_part d.cfg.max_wait ≤ at
    → (due d at).1.apply_now ≡ true
unfolding due
due_late d now at h v p le = ground arith

-- a call that does not apply leaves a pending batch pending, and its start where it was or earlier
step_keeps :
    (d : Debouncer) (c : Call)
    → d.pending ≡ true
    → (step d c).1.apply_now ≡ false
    → ((step d c).0.pending ≡ true) × ((step d c).0.debounce_start ≤ d.debounce_start)
unfolding step
step_keeps d (change t) p n = ground arith
step_keeps d (check t) p n = ground arith

pending_applied :
    (d : Debouncer) (now t t' : Time) (later : List Call)
    → IsOrdered now (later ++ check t' ∷ [])
    → OnTime d now
    → IsValid d.cfg
    → d.pending ≡ true
    → d.debounce_start ≤ t
    → t + pos_part d.cfg.max_wait ≤ t'
    → applies d (later ++ check t' ∷ []) ≢ []
unfolding applies step
pending_applied d now t t' [] o h v p s le = rw (due_late d now t' h v p (omega arith)) (λ e. cc e)
pending_applied d now t t' (c ∷ later) o h v p s le = elim (Bool-cases (step d c).1.apply_now) [
  | inl e ↦ rw e (λ f. cc f)
  | inr e ↦
      let kept = step_keeps d c p e in
      rw e (
        pending_applied (step d c).0 (at c) t t' later o.1 (step-OnTime d c now o.0 h v)
          (rw (cfg-step d c) v) kept.0 (omega (arith, kept.1)) (rw (cfg-step d c) le))
]

-- A change recorded after any calls is applied at once, with nothing left pending, or one of the
-- calls behind it tells the caller to apply, whatever changes and checks these are, once the last
-- of them is a check at least the maximal wait after the change. The configuration is valid and the
-- calls come in the order of time.
pub change_applied :
    (cfg : DebounceConfig) (cs later : List Call) (t t' : Time)
    → validate cfg ≡ none
    → IsOrdered 0 (cs ++ change t ∷ (later ++ check t' ∷ []))
    → t + pos_part cfg.max_wait ≤ t'
    → (((record_change (run (new_debouncer cfg).0 cs) t).1.apply_now ≡ true)
        × ((record_change (run (new_debouncer cfg).0 cs) t).0.pending ≡ false))
      ⊎ (applies (record_change (run (new_debouncer cfg).0 cs) t).0 (later ++ check t' ∷ []) ≢ [])
change_applied cfg cs later t t' v o le =
    let d = (new_debouncer cfg).0 in
    let cfg_kept : d.cfg ≡ cfg = unfold new_debouncer in refl in
    let start : OnTime d 0 = unfold new_debouncer in ground arith in
    let valid : IsValid d.cfg = rw cfg_kept ((validate_iff cfg).0 v) in
    let (now, ordered, h, ok) =
      run-OnTime d 0 cs (change t ∷ (later ++ check t' ∷ [])) o valid start in
    let d' = (record_change (run d cs) t).0 in
    let same_cfg : d'.cfg ≡ cfg =
      unfold step in cfg-step (run d cs) (change t) ∙ (cfg-run d cs ∙ cfg_kept) in
    let on_time : OnTime d' t =
      unfold step in step-OnTime (run d cs) (change t) now ordered.0 h ok in
    elim (record_change_last (run d cs) t) [
      | inl applied ↦ inl applied
      | inr p ↦ inr (
          pending_applied d' t t t' later ordered.1 on_time (rw same_cfg ((validate_iff cfg).0 v)) p
            (on_time.started p) (rw same_cfg le))
    ]
