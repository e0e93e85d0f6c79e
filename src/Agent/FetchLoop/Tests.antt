-- ===== src/Agent/FetchLoop/Tests.antt =====
-- Rounds of internal/agent/fetch_loop.go, `Run`, with texts for payloads and for their hashes.
use aap_config_server.Base.{String, ◌≡◌, refl, false, Option, none, some, [], ◌∷◌, length}
use aap_config_server.Base.Int.{pos}
use aap_config_server.Agent.Backoff.{RetryBackoff, reset, next}
use aap_config_server.Agent.Backoff.Laws.{backoff}
use aap_config_server.Agent.FetchLoop.{
  Snapshot, failed, fetched, no_state, FetchLoop, Round, fetch_once, turn, run, client_failed,
}
use aap_config_server.Agent.FetchLoop.Laws.{last_accepted, HasNoRepeat}
use aap_config_server.Agent.FetchLoop.Runs.{IsFailing, run_accepts}

abbrev hash : String → Option String
hash s = some s

abbrev loop : FetchLoop
loop = record {
  cfg = record {
    ref = record { org = "o"; project = "p"; service = "s" };
    resolve_secrets = false;
    poll_interval = pos 30;
  };
  state = no_state;
}

abbrev snapshot : String → Snapshot String
snapshot text = record {
  metadata = record { org = "o"; project = "p"; service = "s"; version = "v"; updated_at = 5 };
  payload = text;
}

abbrev serving : String → Round String String
serving text = record {
  client = record {
    fetch_config = λ ref. fetched (snapshot text);
    fetch_env_vars = λ ref resolve. fetched (snapshot "env");
  };
  done_after_fetch = false;
  handler = λ result. none;
  done_after_handler = false;
  wait = none;
  done_after_wait = false;
}

abbrev down : Round String String
down = record (serving "") {
  client = record {
    fetch_config = λ ref. failed "503";
    fetch_env_vars = λ ref resolve. failed "503";
  };
}

abbrev slow : RetryBackoff
slow = reset (backoff 2 7 (pos 0))

-- only the first and the last of three polls are handled
three_polls : length (run hash hash loop slow (serving "a" ∷ serving "a" ∷ serving "b" ∷ [])).1 ≡ 5
unfolding run turn fetch_once next reset
three_polls = refl

run_accepts_example :
    ((run hash hash loop slow (serving "a" ∷ down ∷ serving "b" ∷ [])).0.state
      ≡ last_accepted no_state (run hash hash loop slow (serving "a" ∷ down ∷ serving "b" ∷ [])).1)
    × HasNoRepeat no_state (run hash hash loop slow (serving "a" ∷ down ∷ serving "b" ∷ [])).1
run_accepts_example = run_accepts hash hash loop slow (serving "a" ∷ down ∷ serving "b" ∷ [])

down-IsFailing : IsFailing hash hash loop down
unfolding fetch_once
down-IsFailing = record { error = client_failed "503"; fails = refl; alive = refl; waits = refl }
