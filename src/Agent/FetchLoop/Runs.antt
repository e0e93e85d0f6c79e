-- ===== src/Agent/FetchLoop/Runs.antt =====
-- Whole runs of internal/agent/fetch_loop.go, `Run`.
use aap_config_server.Base.{
  ℕ, zero, suc, ◌*◌, ◌^◌, ◌≤◌, ◌<◌, String, ◌≡◌, refl, ap, inl, inr, false, Option, none, List, [],
  ◌∷◌, length, min, arith, All,
}
use mathlib.Core.Path.{subst}
use aap_config_server.Base.Int.{pos}
use aap_config_server.Agent.Backoff.{Duration, RetryBackoff, next, reset}
use aap_config_server.Agent.Backoff.Laws.{after, backoff, next_closed_form}
use aap_config_server.Agent.FetchLoop.{
  FetchError, err, FetchLoop, Round, Action, waited, continue, return, fetch_once, turn, run,
}
use aap_config_server.Agent.FetchLoop.Laws.{
  Turn-cases, last_accepted, HasNoRepeat, last_accepted-append, HasNoRepeat-append, Tracks,
  turn-Tracks,
}

module _ {C E : Type 0} (hash_config : C → Option String) (hash_env_vars : E → Option String) where
  -- After any rounds the loop's state is that of the last result whose handling succeeded, if there
  -- was one, and no result was accepted whose content is that of the result accepted before it.
  pub run_accepts :
      (l : FetchLoop) (b : RetryBackoff) (rs : List (Round C E))
      → ((run hash_config hash_env_vars l b rs).0.state
          ≡ last_accepted l.state (run hash_config hash_env_vars l b rs).1)
        × HasNoRepeat l.state (run hash_config hash_env_vars l b rs).1
  unfolding run
  run_accepts l b [] = (refl, tt)
  run_accepts l b (r ∷ rs) = elim (Turn-cases (turn hash_config hash_env_vars l b r)) [
    | inl (l', b', acts, e) ↦
        let h : Tracks l (continue l' b' acts) =
          rw e at (turn-Tracks hash_config hash_env_vars l b r) in
        let ih = run_accepts l' b' rs in
        rw (e, run)
          (
            rw (last_accepted-append, ← h.0) ih.0,
            HasNoRepeat-append l.state acts _ h.2
                (subst (λ s. HasNoRepeat s (run hash_config hash_env_vars l' b' rs).1) h.0 ih.1),
          )
    | inr (l', acts, e', e) ↦
        let h : Tracks l (return l' acts e') =
          rw e at (turn-Tracks hash_config hash_env_vars l b r) in
        rw (e, run) (h.0, h.2)
  ]

  -- a round whose fetch fails, with a context that stays alive and a wait that succeeds
  pub record IsFailing (l : FetchLoop) (r : Round C E) : Type 0 where
    pub error : FetchError
    pub fails : fetch_once hash_config hash_env_vars l r.client ≡ err error
    pub alive : r.done_after_fetch ≡ false
    pub waits : r.wait ≡ none

  turn_failing :
      (l : FetchLoop) (b : RetryBackoff) (r : Round C E)
      → IsFailing l r
      → turn hash_config hash_env_vars l b r ≡ continue l (next b).0 (waited (next b).1 ∷ [])
  unfolding turn
  turn_failing l b r f = ground (arith, f.fails)

-- the waits of failing rounds, when `k` rounds have failed before
abbrev pub delays : ℕ → ℕ → ℕ → ℕ → List Action
delays i m k zero = []
delays i m k (suc n) = waited (pos (min (i * 2 ^ k) m)) ∷ delays i m (suc k) n

module _ {C E : Type 0} (hash_config : C → Option String) (hash_env_vars : E → Option String) where
  failing_from :
      (i m k : ℕ) (c : Duration) (l : FetchLoop) (rs : List (Round C E))
      → 0 < i
      → i ≤ m
      → m < 2 ^ 62
      → All (IsFailing hash_config hash_env_vars l) rs
      → run hash_config hash_env_vars l (after k (reset (backoff i m c))) rs
        ≡ (l, delays i m k (length rs))
  unfolding run after
  failing_from i m k c l [] p q f h = refl
  failing_from i m k c l (r ∷ rs) p q f h =
      let b = after k (reset (backoff i m c)) in
      rw (turn_failing hash_config hash_env_vars l b r h.0, run)
        (rw (next_closed_form i m k c p q f) (
          ap (λ x. (x.0, waited (pos (min (i * 2 ^ k) m)) ∷ x.1))
            (failing_from i m (suc k) c l rs p q f h.1)))

  -- While every round fails to fetch, the context stays alive and the waits succeed, the loop's
  -- state does not change, the handler is not called, and the round with the number `k`, counted
  -- from 0 since the last success, waits initial * 2 ^ k, capped at the maximum.
  pub run_failing :
      (i m : ℕ) (c : Duration) (l : FetchLoop) (rs : List (Round C E))
      → 0 < i
      → i ≤ m
      → m < 2 ^ 62
      → All (IsFailing hash_config hash_env_vars l) rs
      → run hash_config hash_env_vars l (reset (backoff i m c)) rs ≡ (l, delays i m 0 (length rs))
  unfolding after
  run_failing i m c l rs = failing_from i m 0 c l rs
