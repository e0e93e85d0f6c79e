-- ===== src/Agent/Debounce/Tests.antt =====
-- Runs of internal/agent/debounce.go at concrete times.
use aap_config_server.Base.{◌≡◌, refl, ◌⊎◌, ◌≢◌, true, false, none, List, [], ◌∷◌, arith}
use aap_config_server.Base.Int.{pos}
use aap_config_server.Agent.Debounce.{
  DebounceConfig, Debouncer, validate, new_debouncer, record_change,
}
use aap_config_server.Agent.Debounce.Runs.{
  Call, change, check, step, run, applies, IsSpaced, applies-IsSpaced, change_applied,
}

abbrev cfg : DebounceConfig
cfg = record { cooldown = pos 10; quiet_period = pos 4; max_wait = pos 12 }

cfg_valid : validate cfg ≡ none
unfolding validate
cfg_valid = refl

-- one change at once, two in the cooldown, and checks until the batch is applied
abbrev calls : List Call
calls = change 100 ∷ change 103 ∷ change 109 ∷ check 110 ∷ check 113 ∷ []

calls_apply : applies (new_debouncer cfg).0 calls ≡ 100 ∷ 113 ∷ []
unfolding applies new_debouncer validate step
calls_apply = refl

abbrev waiting_one : Debouncer
waiting_one = run (new_debouncer cfg).0 (change 100 ∷ change 103 ∷ [])

waiting_one_pending : waiting_one.pending ≡ true
unfolding run new_debouncer validate step record_change
waiting_one_pending = refl

-- a change that comes after the pending one is overdue flushes that one and is pending itself
late_change : (record_change waiting_one 150).0.pending ≡ true
unfolding run new_debouncer validate step record_change
late_change = refl

applies-IsSpaced_example : IsSpaced 10 0 (applies (new_debouncer cfg).0 calls)
applies-IsSpaced_example = applies-IsSpaced cfg calls cfg_valid

-- changes that keep coming do not put the apply off
abbrev busy : List Call
busy = change 106 ∷ check 107 ∷ change 110 ∷ change 113 ∷ []

change_applied_example :
    (((record_change (run (new_debouncer cfg).0 (change 100 ∷ [])) 103).1.apply_now ≡ true)
      × ((record_change (run (new_debouncer cfg).0 (change 100 ∷ [])) 103).0.pending ≡ false))
    ⊎ (applies
          (record_change (run (new_debouncer cfg).0 (change 100 ∷ [])) 103).0
          (change 106 ∷ check 107 ∷ change 110 ∷ change 113 ∷ check 115 ∷ [])
        ≢ [])
change_applied_example =
    change_applied cfg (change 100 ∷ []) busy 103 115 cfg_valid
      (
        omega arith,
        (
          omega arith,
          (omega arith, (omega arith, (omega arith, (omega arith, (omega arith, tt))))),
        ),
      )
      (omega arith)
