-- ===== src/Handler/Watch/Wakes.antt =====
-- internal/handler/handler.go, waitForWatchChange, over the stores that reloads leave behind one
-- another: which of them ends the watch.
use aap_config_server.Base.{
  String, ◌≡◌, refl, ap, ◌∙◌, ◌≢◌, Bool, true, false, some, List, [], ◌∷◌, ◌++◌, eq_iff, eq_refl,
  All, arith,
}
use aap_config_server.Base.Eq.{◌==◌, text_has_eq}
use aap_config_server.Store.Types.{ServiceKey, ServiceData}
use aap_config_server.Store.Versions.{Resource}
use aap_config_server.Store.Reload.{ConfigStore, get_config}
use aap_config_server.Handler.Payload.Laws.{payload_version}
use aap_config_server.Handler.Watch.{
  Wake, closed, moved, blocked, wait_for_version_change, watched_version, Turn, changed,
  still_waiting, watch,
}
use aap_config_server.Handler.Watch.Laws.{watched_version-payload_version}

-- the wait in a turn is woken by the next store, if there is one
abbrev pub wake_by : List ConfigStore → List Wake
wake_by [] = []
wake_by (t ∷ more) = closed t ∷ []

-- a turn before the deadline that finds one store at all its readings
abbrev pub turn_over : ConfigStore → List Wake → Turn
turn_over s wakes = record {
  deadline_over = false;
  canceled = false;
  reading = s;
  config_reading = s;
  waiting = s;
  wakes = wakes;
}

-- one turn for each store
abbrev pub turns_over : List ConfigStore → List Turn
turns_over [] = []
turns_over (s ∷ more) = turn_over s (wake_by more) ∷ turns_over more

-- each store has another head than the one before it, and the first another than this
abbrev pub MoveFrom : String → List ConfigStore → Type 0
MoveFrom head [] = Unit
MoveFrom head (s ∷ more) = (s.snapshot.version ≢ head) × MoveFrom s.snapshot.version more

-- each store has another head than the one before it
abbrev pub IsMoving : List ConfigStore → Type 0
IsMoving [] = Unit
IsMoving (s ∷ more) = MoveFrom s.snapshot.version more

IsMoving-tail : (s : ConfigStore) (more : List ConfigStore) → IsMoving (s ∷ more) → IsMoving more
IsMoving-tail s [] m = tt
IsMoving-tail s (t ∷ more) m = m.1

IsMoving-front :
    (quiet : List ConfigStore) (s : ConfigStore) → IsMoving (quiet ++ s ∷ []) → IsMoving quiet
IsMoving-front [] s m = tt
IsMoving-front (q ∷ []) s m = tt
IsMoving-front (q ∷ r ∷ quiet) s m = (m.0, IsMoving-front (r ∷ quiet) s m.1)

module _ (key : ServiceKey) (resource : Resource) (inherit : Bool) (version : String) where
  -- a read of the resource from this store reports the version
  abbrev pub Reports : ConfigStore → Type 0
  Reports s =
      (d : ServiceData) × ((get_config s key ≡ some d)
        × (payload_version resource inherit d s.snapshot.version s.snapshot.version ≡ version))

  -- it reports another one
  abbrev pub ReportsOther : ConfigStore → Type 0
  ReportsOther s =
      (d : ServiceData) × ((get_config s key ≡ some d)
        × (payload_version resource inherit d s.snapshot.version s.snapshot.version ≢ version))

  quiet_token :
      (q : ConfigStore)
      → Reports q
      → watched_version q q key resource inherit ≡ some (version, q.snapshot.version)
  quiet_token q (d, (has, is)) =
      watched_version-payload_version q key resource inherit d has
      ∙ ap (λ v. some (v, q.snapshot.version)) is

  wait_blocked : (q : ConfigStore) → wait_for_version_change q.snapshot.version q [] ≡ blocked
  unfolding wait_for_version_change
  wait_blocked q =
      let equal : (q.snapshot.version == q.snapshot.version) ≡ true = eq_refl q.snapshot.version in
      rw equal refl

  wait_moved :
      (q t : ConfigStore)
      → t.snapshot.version ≢ q.snapshot.version
      → wait_for_version_change q.snapshot.version q (closed t ∷ []) ≡ moved t.snapshot.version
  unfolding wait_for_version_change
  wait_moved q t m =
      let equal : (q.snapshot.version == q.snapshot.version) ≡ true = eq_refl q.snapshot.version in
      let other : (t.snapshot.version == q.snapshot.version) ≡ false =
        ground (arith, eq_iff t.snapshot.version q.snapshot.version) in
      rw (equal, other) refl

  quiet_turn :
      (q t : ConfigStore) (more : List ConfigStore) (turns : List Turn)
      → Reports q
      → t.snapshot.version ≢ q.snapshot.version
      → watch key resource inherit version (turn_over q (wake_by (t ∷ more)) ∷ turns)
        ≡ watch key resource inherit version turns
  unfolding watch
  quiet_turn q t more turns reports m =
      let equal : (version == version) ≡ true = eq_refl version in
      rw (quiet_token q reports, equal, wait_moved q t m) refl

  quiet_waits :
      (quiet : List ConfigStore)
      → All Reports quiet
      → IsMoving quiet
      → watch key resource inherit version (turns_over quiet) ≡ still_waiting
  unfolding watch
  quiet_waits [] reports m = refl
  quiet_waits (q ∷ []) (here, reports) m =
      let equal : (version == version) ≡ true = eq_refl version in
      rw (quiet_token q here, equal, wait_blocked q) refl
  quiet_waits (q ∷ r ∷ quiet) (here, reports) m =
      quiet_turn q r quiet (turns_over (r ∷ quiet)) here m.0 ∙ quiet_waits (r ∷ quiet) reports m.1

  other_ends :
      (quiet : List ConfigStore) (s : ConfigStore) (later : List ConfigStore)
      → All Reports quiet
      → IsMoving (quiet ++ s ∷ [])
      → ReportsOther s
      → watch key resource inherit version (turns_over (quiet ++ s ∷ later)) ≡ changed
  unfolding watch
  other_ends [] s later reports m (d, (has, differs)) =
      let token = payload_version resource inherit d s.snapshot.version s.snapshot.version in
      let other : (token == version) ≡ false = ground (arith, eq_iff token version) in
      rw (watched_version-payload_version s key resource inherit d has, other) refl
  other_ends (q ∷ []) s later (here, reports) m other =
      quiet_turn q s later (turns_over (s ∷ later)) here m.0 ∙ other_ends [] s later tt tt other
  other_ends (q ∷ r ∷ quiet) s later (here, reports) m other =
      quiet_turn q r (quiet ++ s ∷ later) (turns_over (r ∷ (quiet ++ s ∷ later))) here m.0
      ∙ other_ends (r ∷ quiet) s later reports m.1 other

  -- A watch from a version, over stores each of which has another head than the one before it: as
  -- long as a read of the resource reports that version in every store, however often the head
  -- moves, the watch goes on waiting; the first store in which a read reports another version makes
  -- it answer "changed", whatever stores follow. Each turn finds one store at all its readings and
  -- is before the deadline.
  pub watch_wakes :
      (quiet : List ConfigStore) (s : ConfigStore) (later : List ConfigStore)
      → All Reports quiet
      → IsMoving (quiet ++ s ∷ [])
      → ReportsOther s
      → (watch key resource inherit version (turns_over quiet) ≡ still_waiting)
        × (watch key resource inherit version (turns_over (quiet ++ s ∷ later)) ≡ changed)
  watch_wakes quiet s later reports m other = (
    quiet_waits quiet reports (IsMoving-front quiet s m),
    other_ends quiet s later reports m other,
  )
