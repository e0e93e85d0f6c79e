-- ===== src/Agent/Backoff.antt =====
-- internal/agent/fetch_loop.go, `RetryBackoff`: retry delays that double up to a cap.
-- A `time.Duration` is an int64 and signed; `twice` is its doubling, with the wrap-around written
-- out. Methods that mutate `*RetryBackoff` return the new record.
pub mod Laws
mod Tests
use aap_config_server.Base.{
  ℕ, ◌+◌, ◌-◌, ◌*◌, ◌^◌, Bool, ◌&&◌, Option, none, some, ltb, if◌then◌else◌,
}
use aap_config_server.Base.Int.{ℤ, pos, negsuc, ltb_ℤ, leb_ℤ}

abbrev pub Duration : Type 0
Duration = ℤ

-- The int64 that has the low 64 bits of `d`, for -2^64 ≤ d < 2^64.
abbrev pub int64 : ℤ → ℤ
int64 (pos n) = if ltb n (2 ^ 63) then pos n else negsuc (2 ^ 64 - 1 - n)
int64 (negsuc n) = if ltb n (2 ^ 63) then negsuc n else pos (2 ^ 64 - 1 - n)

-- `d * 2`, where -(n + 1) * 2 is -((2 * n + 1) + 1)
abbrev pub twice : Duration → Duration
twice (pos n) = int64 (pos (2 * n))
twice (negsuc n) = int64 (negsuc (2 * n + 1))

abbrev pub is_zero : Duration → Bool
is_zero d = leb_ℤ d (pos 0) && leb_ℤ (pos 0) d

pub record RetryBackoff : Type 0 where
  pub initial : Duration
  pub cap : Duration
  pub current : Duration

pub data BackoffError : Type 0 where
  initial_not_positive max_not_positive max_below_initial : BackoffError

pub data Created : Type 0 where
  created : RetryBackoff → Created
  refused : BackoffError → Created

-- `NewRetryBackoff`
unfoldable pub new_retry_backoff : Duration → Duration → Created
new_retry_backoff initial max =
    if leb_ℤ initial (pos 0)
    then refused initial_not_positive
    else if leb_ℤ max (pos 0)
    then refused max_not_positive
    else if ltb_ℤ max initial
    then refused max_below_initial
    else created (record { initial = initial; cap = max; current = pos 0 })

-- `Next`
unfoldable pub next : RetryBackoff → RetryBackoff × Duration
next b =
    if is_zero b.current
    then (record b { current = b.initial }, b.initial)
    else let doubled = twice b.current in
      let delay = if ltb_ℤ b.cap doubled then b.cap else doubled in
      (record b { current = delay }, delay)

-- `Reset`
unfoldable pub reset : RetryBackoff → RetryBackoff
reset b = record b { current = pos 0 }
