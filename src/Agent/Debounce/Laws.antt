-- ===== src/Agent/Debounce/Laws.antt =====
-- One call of the debouncer.
use aap_config_server.Base.{◌≤◌, ◌<◌, ◌≡◌, ◌↔◌, ◌⊎◌, true, false, none, arith}
use aap_config_server.Base.Int.{pos_part}
use aap_config_server.Agent.Debounce.{
  Time, DebounceConfig, Debouncer, validate, next_due_at, due, record_change,
}

-- What a validated configuration promises, stated without the order of the checks.
pub record IsValid (c : DebounceConfig) : Type 0 where
  pub cooldown_pos : 0 < pos_part c.cooldown
  pub quiet_pos : 0 < pos_part c.quiet_period
  pub max_ge_quiet : pos_part c.quiet_period ≤ pos_part c.max_wait
  pub max_ge_cooldown : pos_part c.cooldown ≤ pos_part c.max_wait

-- `validate` accepts exactly the configurations with a positive cooldown and quiet period and a
-- maximal wait at least as long as both.
pub validate_iff : (c : DebounceConfig) → (validate c ≡ none) ↔ IsValid c
unfolding validate
validate_iff c = (λ h. ground arith, λ h. ground arith)

-- A pending rollout that is asked for at its due time, or later, is applied, and then nothing is
-- pending; asked for earlier, the debouncer does not change and names that due time.
pub due_exact :
    (d : Debouncer) (at : Time)
    → d.pending ≡ true
    → (next_due_at d ≤ at → ((due d at).1.apply_now ≡ true) × ((due d at).0.pending ≡ false))
      × (at < next_due_at d
          → ((due d at).1.apply_now ≡ false)
            × ((due d at).0 ≡ d)
            × ((due d at).1.next_at ≡ next_due_at d))
unfolding due next_due_at
due_exact d at h = (λ le. ground arith, λ lt. ground arith)

-- No change is lost: after `record_change` either this very call applies a rollout, or the change
-- is pending, recorded as the latest one, and the decision carries the time at which it is due.
pub record_change_kept :
    (d : Debouncer) (at : Time)
    → ((record_change d at).1.apply_now ≡ true)
      ⊎ (((record_change d at).0.pending ≡ true)
          × ((record_change d at).0.last_change ≡ at)
          × ((record_change d at).1.next_at ≡ next_due_at (record_change d at).0))
unfolding record_change
record_change_kept d at = ground arith
