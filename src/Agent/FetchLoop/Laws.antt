-- ===== src/Agent/FetchLoop/Laws.antt =====
-- One turn of internal/agent/fetch_loop.go, `Run`.
use aap_config_server.Base.{
  String, ◌≡◌, refl, ◌⊎◌, inl, inr, Bool, true, false, Option, none, some, List, [], ◌∷◌, ◌++◌,
  arith, Bool-cases,
}
use aap_config_server.Agent.Backoff.{Duration, RetryBackoff, next, reset}
use aap_config_server.Agent.FetchLoop.{
  FetchState, same_content, FetchResult, FetchOnce, ok, err, SnapshotClient, FetchLoop, Round,
  Action, accepted, rejected, waited, Turn, continue, return, mark_handled, wait_turn, fetch_once,
  fetched_turn, handled_turn, turn,
}

pub Turn-cases :
    (t : Turn)
    → ((l : FetchLoop) × (b : RetryBackoff) × (acts : List Action) × (t ≡ continue l b acts))
      ⊎ ((l : FetchLoop) × (acts : List Action) × (e : Option String) × (t ≡ return l acts e))
Turn-cases (continue l b acts) = inl (l, b, acts, refl)
Turn-cases (return l acts e) = inr (l, acts, e, refl)

-- the state of the last accepted result among the actions, or `s`
abbrev pub last_accepted : FetchState → List Action → FetchState
last_accepted s [] = s
last_accepted s (accepted t ∷ acts) = last_accepted t acts
last_accepted s (rejected t ∷ acts) = last_accepted s acts
last_accepted s (waited d ∷ acts) = last_accepted s acts

-- each accepted result differs in content from the one accepted before it
abbrev pub HasNoRepeat : FetchState → List Action → Type 0
HasNoRepeat s [] = Unit
HasNoRepeat s (accepted t ∷ acts) =
    (s.handled ≡ true → same_content s t ≡ false) × HasNoRepeat t acts
HasNoRepeat s (rejected t ∷ acts) = HasNoRepeat s acts
HasNoRepeat s (waited d ∷ acts) = HasNoRepeat s acts

pub last_accepted-append :
    (s : FetchState) (xs ys : List Action)
    → last_accepted s (xs ++ ys) ≡ last_accepted (last_accepted s xs) ys
last_accepted-append s [] ys = refl
last_accepted-append s (accepted t ∷ xs) ys = last_accepted-append t xs ys
last_accepted-append s (rejected t ∷ xs) ys = last_accepted-append s xs ys
last_accepted-append s (waited d ∷ xs) ys = last_accepted-append s xs ys

pub HasNoRepeat-append :
    (s : FetchState) (xs ys : List Action)
    → HasNoRepeat s xs
    → HasNoRepeat (last_accepted s xs) ys
    → HasNoRepeat s (xs ++ ys)
HasNoRepeat-append s [] ys h k = k
HasNoRepeat-append s (accepted t ∷ xs) ys h k = (h.0, HasNoRepeat-append t xs ys h.1 k)
HasNoRepeat-append s (rejected t ∷ xs) ys h k = HasNoRepeat-append s xs ys h k
HasNoRepeat-append s (waited d ∷ xs) ys h k = HasNoRepeat-append s xs ys h k

-- What a turn does with the loop's state: it is the state of the last accepted result, and that
-- result is no repetition.
abbrev pub Tracks : FetchLoop → Turn → Type 0
Tracks l (continue l' b acts) =
    (l'.state ≡ last_accepted l.state acts) × (l'.cfg ≡ l.cfg) × HasNoRepeat l.state acts
Tracks l (return l' acts e) =
    (l'.state ≡ last_accepted l.state acts) × (l'.cfg ≡ l.cfg) × HasNoRepeat l.state acts

module _ {C E : Type 0} (hash_config : C → Option String) (hash_env_vars : E → Option String) where
  pub fetch_once_changed :
      (l : FetchLoop) (client : SnapshotClient C E) (r : FetchResult C E)
      → fetch_once hash_config hash_env_vars l client ≡ ok r
      → r.changed ≡ true
      → l.state.handled ≡ true
      → same_content l.state r.state ≡ false
  unfolding fetch_once
  fetch_once_changed l client r h c t = ground arith

  wait_turn-Tracks :
      (l l' : FetchLoop) (b : RetryBackoff) (acts : List Action) (d : Duration) (w : Option String)
      (done : Bool)
      → Tracks l (return l' acts none)
      → Tracks l (wait_turn l' b acts d w done)
  unfolding wait_turn
  wait_turn-Tracks l l' b acts d none done h =
      (rw last_accepted-append h.0, h.1, HasNoRepeat-append l.state acts (waited d ∷ []) h.2 tt)
  wait_turn-Tracks l l' b acts d (some e) done h = h

  handled_turn-Tracks :
      (l : FetchLoop) (b : RetryBackoff) (r : Round C E) (s : FetchState) (o : Option String)
      → (l.state.handled ≡ true → same_content l.state s ≡ false)
      → Tracks l (handled_turn hash_config hash_env_vars l b r s o)
  unfolding mark_handled
  handled_turn-Tracks l b r s none h =
      wait_turn-Tracks l (record l { state = s }) (reset b) (accepted s ∷ []) l.cfg.poll_interval
        r.wait r.done_after_wait (refl, refl, (h, tt))
  handled_turn-Tracks l b r s (some e) h = elim (Bool-cases r.done_after_handler) [
    | inl y ↦ rw y (refl, refl, tt)
    | inr n ↦ rw n (
        wait_turn-Tracks l l (next b).0 (rejected s ∷ []) (next b).1 r.wait r.done_after_wait
          (refl, refl, tt))
  ]

  fetched_turn-Tracks :
      (l : FetchLoop) (b : RetryBackoff) (r : Round C E) (x : FetchOnce C E)
      → ((res : FetchResult C E)
          → x ≡ ok res
          → res.changed ≡ true
          → l.state.handled ≡ true
          → same_content l.state res.state ≡ false)
      → Tracks l (fetched_turn hash_config hash_env_vars l b r x)
  fetched_turn-Tracks l b r (err e) h = elim (Bool-cases r.done_after_fetch) [
    | inl y ↦ rw y (refl, refl, tt)
    | inr n ↦
        rw n
          (wait_turn-Tracks l l (next b).0 [] (next b).1 r.wait r.done_after_wait (refl, refl, tt))
  ]
  fetched_turn-Tracks l b r (ok res) h = elim (Bool-cases res.changed) [
    | inl y ↦ simp y (handled_turn-Tracks l b r res.state (r.handler res) (h res refl y))
    | inr n ↦ simp n (
        wait_turn-Tracks l l (reset b) [] l.cfg.poll_interval r.wait r.done_after_wait
          (refl, refl, tt))
  ]

  pub turn-Tracks :
      (l : FetchLoop) (b : RetryBackoff) (r : Round C E)
      → Tracks l (turn hash_config hash_env_vars l b r)
  unfolding turn
  turn-Tracks l b r =
      fetched_turn-Tracks l b r (fetch_once hash_config hash_env_vars l r.client)
        (fetch_once_changed l r.client)
