-- ===== src/Agent/Debounce.antt =====
-- internal/agent/debounce.go: the leading-edge debounce of rollouts.
-- A `Time` counts nanoseconds from Go's zero `time.Time`, so that `IsZero` is a test for 0; a
-- `Duration` is signed. Methods that mutate `*Debouncer` return the new record. A nil receiver is
-- no value of `Debouncer`, so the guards on it are left out.
pub mod Laws
pub mod Runs
mod Tests
use aap_config_server.Base.{
  ℕ, ◌+◌, ◌-◌, Bool, true, false, not, ◌&&◌, Option, none, some, ltb, leb, nat_beq, if◌then◌else◌,
}
use aap_config_server.Base.Int.{ℤ, pos, negsuc, ltb_ℤ, leb_ℤ}

abbrev pub Time : Type 0
Time = ℕ

abbrev pub Duration : Type 0
Duration = ℤ

-- `t.Add(d)`; no instant before the zero time is represented
abbrev pub add : Time → Duration → Time
add t (pos n) = t + n
add t (negsuc n) = t - (n + 1)

pub record DebounceConfig : Type 0 where
  pub cooldown : Duration
  pub quiet_period : Duration
  pub max_wait : Duration

pub record Debouncer : Type 0 where
  pub cfg : DebounceConfig
  pub cooldown_until : Time
  pub pending : Bool
  pub debounce_start : Time
  pub last_change : Time

pub data Reason : Type 0 where
  immediate cooling waiting quiet max_waited idle : Reason

pub record DebounceDecision : Type 0 where
  pub apply_now : Bool
  pub next_at : Time
  pub reason : Reason

pub data ConfigError : Type 0 where
  cooldown_not_positive quiet_period_not_positive max_wait_not_positive : ConfigError
  max_wait_below_quiet_period max_wait_below_cooldown : ConfigError

-- `Validate`: the first violated constraint, in the order of the code
unfoldable pub validate : DebounceConfig → Option ConfigError
validate c =
    if leb_ℤ c.cooldown (pos 0)
    then some cooldown_not_positive
    else if leb_ℤ c.quiet_period (pos 0)
    then some quiet_period_not_positive
    else if leb_ℤ c.max_wait (pos 0)
    then some max_wait_not_positive
    else if ltb_ℤ c.max_wait c.quiet_period
    then some max_wait_below_quiet_period
    else if ltb_ℤ c.max_wait c.cooldown
    then some max_wait_below_cooldown
    else none

abbrev fresh : DebounceConfig → Debouncer
fresh cfg = record {
  cfg = cfg;
  cooldown_until = 0;
  pending = false;
  debounce_start = 0;
  last_change = 0;
}

-- `NewDebouncer`: a debouncer, or the error of `Validate`
unfoldable pub new_debouncer : DebounceConfig → Debouncer × Option ConfigError
unfolding validate
new_debouncer cfg = (fresh cfg, validate cfg)

unfoldable pub in_cooldown : Debouncer → Time → Bool
in_cooldown d at = not (nat_beq d.cooldown_until 0) && ltb at d.cooldown_until

unfoldable pub min_time : Time → Time → Time
min_time a b = if ltb a b then a else b

-- `nextDueAtAndReason`
unfoldable pub next_due_at_and_reason : Debouncer → Time × Reason
unfolding in_cooldown min_time
next_due_at_and_reason d =
    let quiet_due = add d.last_change d.cfg.quiet_period in
    let max_due = add d.debounce_start d.cfg.max_wait in
    let next = min_time quiet_due max_due in
    let reason = if nat_beq next max_due then max_waited else quiet in
    if in_cooldown d next then (d.cooldown_until, reason) else (next, reason)

unfoldable pub next_due_at : Debouncer → Time
unfolding next_due_at_and_reason
next_due_at d = if d.pending then (next_due_at_and_reason d).0 else 0

-- the state after a pending rollout is applied at `at`
abbrev applied : Debouncer → Time → Debouncer
applied d at = record d {
  pending = false;
  debounce_start = 0;
  last_change = 0;
  cooldown_until = add at d.cfg.cooldown;
}

abbrev decide : Bool → Time → Reason → DebounceDecision
decide apply next reason = record { apply_now = apply; next_at = next; reason = reason }

-- `Due`
unfoldable pub due : Debouncer → Time → Debouncer × DebounceDecision
unfolding next_due_at_and_reason
due d at =
    let (next, reason) = next_due_at_and_reason d in
    if not d.pending
    then (d, decide false 0 idle)
    else if ltb at next
    then (d, decide false next waiting)
    else (applied d at, decide true 0 reason)

-- The end of `RecordChange`, reached when no pending rollout was flushed.
record_unflushed : Debouncer → Time → Debouncer × DebounceDecision
unfolding next_due_at in_cooldown
record_unflushed d at =
    if not d.pending && not (in_cooldown d at)
    then (record d { cooldown_until = add at d.cfg.cooldown }, decide true 0 immediate)
    else let start =
        if not d.pending then at else if ltb at d.debounce_start then at else d.debounce_start in
      let d' = record d { pending = true; debounce_start = start; last_change = at } in
      (d', decide false (next_due_at d') cooling)

-- The branch of `RecordChange` in which `Due` flushed an overdue rollout.
record_flushed : Time → Time → Debouncer × DebounceDecision → Debouncer × DebounceDecision
unfolding next_due_at
record_flushed at next (d, flush) =
    if nat_beq at next
    then (d, flush)
    else let d' = record d { pending = true; debounce_start = at; last_change = at } in
      (d', decide true (next_due_at d') flush.reason)

-- `RecordChange`
unfoldable pub record_change : Debouncer → Time → Debouncer × DebounceDecision
unfolding record_unflushed record_flushed due next_due_at
record_change d at =
    if d.pending && (due d at).1.apply_now
    then record_flushed at (next_due_at d) (due d at)
    else record_unflushed d at
