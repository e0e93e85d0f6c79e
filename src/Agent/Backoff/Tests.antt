-- ===== src/Agent/Backoff/Tests.antt =====
-- Delays of internal/agent/fetch_loop.go, `RetryBackoff`, at concrete durations.
use aap_config_server.Base.{ℕ, ◌*◌, ◌^◌, ◌≡◌, refl, arith}
use aap_config_server.Base.Int.{pos, negsuc}
use aap_config_server.Agent.Backoff.{next, reset}
use aap_config_server.Agent.Backoff.Laws.{after, backoff, next_wraps}

-- one second, capped at thirty
abbrev second : ℕ
second = 1000000000

capped : (next (after 5 (reset (backoff second (30 * second) (pos 7))))).1 ≡ pos 30000000000
unfolding next after reset
capped = refl

next_wraps_example : (n : ℕ) × ((next (backoff 1 (2 ^ 62) (pos (2 ^ 62)))).1 ≡ negsuc n)
next_wraps_example = next_wraps 1 (2 ^ 62) (omega arith) (omega arith)
