-- ===== src/Agent/FetchLoop.antt =====
-- internal/agent/fetch_loop.go, `FetchLoop`: polling the Config Server for one service.
-- What the loop meets from outside in one turn of `Run` is a `Round`: the client's answers, the
-- handler's, those of `wait`, and whether the context is done where the code asks. The payloads of
-- the snapshots and `hashJSON` of them are parameters: JSON and SHA-256 are the standard library's.
-- The nil guards on the loop and the context, and the default for a nil handler, are left out.
pub mod Laws
pub mod Runs
mod Tests
use aap_config_server.Base.{
  ℕ, String, Bool, true, false, not, ◌&&◌, ◌||◌, Option, none, some, List, [], ◌∷◌, ◌++◌,
  if◌then◌else◌,
}
use aap_config_server.Base.Eq.{◌==◌, text_has_eq}
use aap_config_server.Agent.Backoff.{Duration, RetryBackoff, next, reset}

pub record ServiceRef : Type 0 where
  pub org : String
  pub project : String
  pub service : String

pub record Metadata : Type 0 where
  pub org : String
  pub project : String
  pub service : String
  pub version : String
  pub updated_at : ℕ

-- `ConfigSnapshot` and `EnvVarsSnapshot`, with the payload as `A`
pub record Snapshot (A : Type 0) : Type 0 where
  pub metadata : Metadata
  pub payload : A

-- the answer of a client call: an error, or a pointer that may be nil
pub data Fetched (A : Type 0) : Type 0 where
  failed : String → Fetched A
  nil : Fetched A
  fetched : Snapshot A → Fetched A

pub record SnapshotClient (C E : Type 0) : Type 0 where
  pub fetch_config : ServiceRef → Fetched C
  pub fetch_env_vars : ServiceRef → Bool → Fetched E

pub record FetchLoopConfig : Type 0 where
  pub ref : ServiceRef
  pub resolve_secrets : Bool
  pub poll_interval : Duration

pub record FetchState : Type 0 where
  pub revision : String
  pub config_version : String
  pub env_version : String
  pub config_hash : String
  pub env_hash : String
  pub config_updated_at : ℕ
  pub env_updated_at : ℕ
  pub handled : Bool

abbrev pub no_state : FetchState
no_state = record {
  revision = "";
  config_version = "";
  env_version = "";
  config_hash = "";
  env_hash = "";
  config_updated_at = 0;
  env_updated_at = 0;
  handled = false;
}

unfoldable pub same_content : FetchState → FetchState → Bool
same_content s other = s.config_hash == other.config_hash && s.env_hash == other.env_hash

pub record FetchResult (C E : Type 0) : Type 0 where
  pub ref : ServiceRef
  pub config : Snapshot C
  pub env_vars : Snapshot E
  pub state : FetchState
  pub changed : Bool
  pub initial : Bool
  pub resolve_secrets : Bool

pub data FetchError : Type 0 where
  client_failed : String → FetchError
  config_is_nil env_vars_is_nil hash_config_failed hash_env_vars_failed : FetchError

pub data FetchOnce (C E : Type 0) : Type 0 where
  ok : FetchResult C E → FetchOnce C E
  err : FetchError → FetchOnce C E

pub record FetchLoop : Type 0 where
  pub cfg : FetchLoopConfig
  pub state : FetchState

pub record Round (C E : Type 0) : Type 0 where
  pub client : SnapshotClient C E
  pub done_after_fetch : Bool  -- `ctx.Err() != nil` after a failed fetch
  pub handler : FetchResult C E → Option String
  pub done_after_handler : Bool
  pub wait : Option String  -- the error of `l.wait`
  pub done_after_wait : Bool

-- what `Run` does to its environment, in order
pub data Action : Type 0 where
  accepted : FetchState → Action  -- the handler succeeded on a result with this state
  rejected : FetchState → Action  -- the handler failed
  waited : Duration → Action

-- one turn of the loop: the next turn's state, or the return of `Run` with its error
pub data Turn : Type 0 where
  continue : FetchLoop → RetryBackoff → List Action → Turn
  return : FetchLoop → List Action → Option String → Turn

-- `MarkHandled`
unfoldable pub mark_handled : FetchLoop → FetchState → FetchLoop
mark_handled l s = record l { state = s }

-- a wait that fails ends `Run`: with nil if the context is done (`nilIfContextDone`)
unfoldable pub wait_turn :
    FetchLoop → RetryBackoff → List Action → Duration → Option String → Bool → Turn
wait_turn l b acts delay none done = continue l b (acts ++ waited delay ∷ [])
wait_turn l b acts delay (some e) done = return l acts (if done then none else some e)

module _ {C E : Type 0} (hash_config : C → Option String) (hash_env_vars : E → Option String) where
  abbrev hashed :
      FetchLoop → Snapshot C → Snapshot E → Option String → Option String → FetchOnce C E
  hashed l c e none eh = err hash_config_failed
  hashed l c e (some ch) none = err hash_env_vars_failed
  hashed l c e (some ch) (some eh) =
      let state : FetchState = record {
        revision = c.metadata.version;
        config_version = c.metadata.version;
        env_version = e.metadata.version;
        config_hash = ch;
        env_hash = eh;
        config_updated_at = c.metadata.updated_at;
        env_updated_at = e.metadata.updated_at;
        handled = true;
      } in
      let initial = not l.state.handled in
      ok (record {
        ref = l.cfg.ref;
        config = c;
        env_vars = e;
        state = state;
        changed = initial || not (same_content l.state state);
        initial = initial;
        resolve_secrets = l.cfg.resolve_secrets;
      })

  abbrev with_env_vars : FetchLoop → Snapshot C → Fetched E → FetchOnce C E
  with_env_vars l c (failed e) = err (client_failed e)
  with_env_vars l c nil = err env_vars_is_nil
  with_env_vars l c (fetched e) = hashed l c e (hash_config c.payload) (hash_env_vars e.payload)

  abbrev with_config : FetchLoop → Fetched E → Fetched C → FetchOnce C E
  with_config l env (failed e) = err (client_failed e)
  with_config l env nil = err config_is_nil
  with_config l env (fetched c) = with_env_vars l c env

  -- `FetchOnce`; the second request is made, and its answer read, only after the first succeeded
  unfoldable pub fetch_once : FetchLoop → SnapshotClient C E → FetchOnce C E
  unfolding same_content
  fetch_once l client =
      with_config l (client.fetch_env_vars l.cfg.ref l.cfg.resolve_secrets)
        (client.fetch_config l.cfg.ref)

  abbrev handled_turn : FetchLoop → RetryBackoff → Round C E → FetchState → Option String → Turn
  handled_turn l b r s none =
      wait_turn (mark_handled l s) (reset b) (accepted s ∷ []) l.cfg.poll_interval r.wait
        r.done_after_wait
  handled_turn l b r s (some e) =
      if r.done_after_handler
      then return l (rejected s ∷ []) none
      else wait_turn l (next b).0 (rejected s ∷ []) (next b).1 r.wait r.done_after_wait

  abbrev fetched_turn : FetchLoop → RetryBackoff → Round C E → FetchOnce C E → Turn
  fetched_turn l b r (err e) =
      if r.done_after_fetch
      then return l [] none
      else wait_turn l (next b).0 [] (next b).1 r.wait r.done_after_wait
  fetched_turn l b r (ok result) =
      if result.changed
      then handled_turn l b r result.state (r.handler result)
      else wait_turn l (reset b) [] l.cfg.poll_interval r.wait r.done_after_wait

  -- the body of the loop of `Run`
  unfoldable pub turn : FetchLoop → RetryBackoff → Round C E → Turn
  unfolding mark_handled wait_turn
  turn l b r = fetched_turn l b r (fetch_once l r.client)

  -- `Run` over the rounds that its environment plays: the loop at the end and all actions. After a
  -- return no further round is played.
  unfoldable pub run : FetchLoop → RetryBackoff → List (Round C E) → FetchLoop × List Action
  run l b [] = (l, [])
  run l b (r ∷ rs) = elim (turn l b r) [
    | continue l' b' acts ↦ let (end, more) = run l' b' rs in (end, acts ++ more)
    | return l' acts e ↦ (l', acts)
  ]
