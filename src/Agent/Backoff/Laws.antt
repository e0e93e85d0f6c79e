-- ===== src/Agent/Backoff/Laws.antt =====
-- The delays of internal/agent/fetch_loop.go, `RetryBackoff`.
use native.Mathlib.Nat.{pow-suc}
use aap_config_server.Base.{
  ℕ, zero, suc, ◌-◌, ◌*◌, ◌^◌, ◌≤◌, ◌<◌, ◌≡◌, ◌↔◌, refl, ap, ◌∙◌, min, arith,
}
use aap_config_server.Base.Int.{pos, negsuc, pos_part}
use aap_config_server.Agent.Backoff.{
  Duration, RetryBackoff, created, new_retry_backoff, next, reset,
}

-- `NewRetryBackoff` accepts exactly the pairs with 0 < initial ≤ max, and keeps both.
pub new_retry_backoff_iff :
    (i m : Duration)
    → (new_retry_backoff i m ≡ created (record { initial = i; cap = m; current = pos 0 }))
      ↔ ((0 < pos_part i) × (pos_part i ≤ pos_part m))
unfolding new_retry_backoff
new_retry_backoff_iff i m = (λ h. ground arith, λ h. ground arith)

-- the state after `n` further calls of `Next`
unfoldable pub after : ℕ → RetryBackoff → RetryBackoff
after zero b = b
after (suc n) b = (next (after n b)).0

abbrev pub backoff : ℕ → ℕ → Duration → RetryBackoff
backoff i m c = record { initial = pos i; cap = pos m; current = c }

next_first : (i m : ℕ) → next (backoff i m (pos 0)) ≡ (backoff i m (pos i), pos i)
unfolding next
next_first i m = refl

-- one further call, on a running delay
next_doubles :
    (i m c : ℕ)
    → 0 < c
    → c ≤ m
    → m < 2 ^ 62
    → next (backoff i m (pos c)) ≡ (backoff i m (pos (min (2 * c) m)), pos (min (2 * c) m))
unfolding next
next_doubles i m c p l f = ground arith

min-pow : (i m n : ℕ) → min (2 * min (i * 2 ^ n) m) m ≡ min (i * 2 ^ suc n) m
min-pow i m n =
    let e : i * 2 ^ suc n ≡ 2 * (i * 2 ^ n) = rw pow-suc (grind arith) in rw e (omega arith)

pow_pos : (i n : ℕ) → 0 < i → 0 < i * 2 ^ n
pow_pos i zero p = omega arith
pow_pos i (suc n) p =
    let e : i * 2 ^ suc n ≡ 2 * (i * 2 ^ n) = rw pow-suc (grind arith) in
    omega (arith, pow_pos i n p, e)

running :
    (i m n : ℕ)
    → 0 < i
    → i ≤ m
    → m < 2 ^ 62
    → after (suc n) (backoff i m (pos 0)) ≡ backoff i m (pos (min (i * 2 ^ n) m))
unfolding after
running i m zero p l f =
    let e : i ≡ min (i * 2 ^ 0) m = omega arith in
    ap (λ r. r.0) (next_first i m) ∙ ap (λ d. backoff i m (pos d)) e
running i m (suc n) p l f =
    ap (λ b. (next b).0) (running i m n p l f)
    ∙ ap (λ r. r.0)
        (next_doubles i m (min (i * 2 ^ n) m) (omega (arith, pow_pos i n p)) (omega arith) f)
    ∙ ap (λ d. backoff i m (pos d)) (min-pow i m n)

-- After a reset the call of `Next` with the number `n`, counted from 0, waits initial * 2 ^ n,
-- capped at the maximum, if the maximum is below 2 ^ 62 nanoseconds.
pub next_closed_form :
    (i m n : ℕ) (c : Duration)
    → 0 < i
    → i ≤ m
    → m < 2 ^ 62
    → (next (after n (reset (backoff i m c)))).1 ≡ pos (min (i * 2 ^ n) m)
unfolding reset after
next_closed_form i m zero c p l f =
    let e : i ≡ min (i * 2 ^ 0) m = omega arith in ap (λ r. r.1) (next_first i m) ∙ ap pos e
next_closed_form i m (suc n) c p l f = rw (running i m n p l f) (
    rw (next_doubles i m (min (i * 2 ^ n) m) (omega (arith, pow_pos i n p)) (omega arith) f)
      (rw (min-pow i m n)))

-- From 2 ^ 62 nanoseconds on, the doubling wraps around below zero and escapes the cap: with such a
-- delay running under a maximum that it has reached, the next delay is negative.
pub next_wraps :
    (i c : ℕ) → 2 ^ 62 ≤ c → c < 2 ^ 63 → (n : ℕ) × ((next (backoff i c (pos c))).1 ≡ negsuc n)
unfolding next
next_wraps i c l u = (2 ^ 64 - 1 - 2 * c, ground arith)
