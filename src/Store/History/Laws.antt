-- ===== src/Store/History/Laws.antt =====
-- What History of internal/store/store.go lists: the first matching commits behind the cursor.
use aap_config_server.Base.{
  ℕ, zero, suc, ◌+◌, String, ◌≡◌, refl, ap, ◌∙◌, Bool, true, false, ◌||◌, Option, none, some, List,
  [], ◌∷◌, ◌++◌, if◌then◌else◌, length, length-append, leb, arith, Bool-cases, inl, inr,
}
use mathlib.Core.List.{append-nil, append_assoc}
use aap_config_server.Base.Eq.{◌==◌, text_has_eq}
use aap_config_server.Store.History.{
  ServiceHistoryEntry, HistoryEntry, listed, refused, iteration_failed, history_entry_matches_file,
  history_entry, Progress, visit, iterate, list_history,
}

-- at most `n` elements from the front
unfoldable pub take {ℓ} : {A : Type ℓ} → ℕ → List A → List A
take zero xs = []
take (suc n) [] = []
take (suc n) (x ∷ xs) = x ∷ take n xs

-- the commits that touch the file, as the API shows them
unfoldable pub matching : String → List ServiceHistoryEntry → List HistoryEntry
matching file [] = []
matching file (entry ∷ commits) =
    let rest = matching file commits in
    if history_entry_matches_file entry file then history_entry entry ∷ rest else rest

-- the commits behind the one that the cursor names; all of them without a cursor
unfoldable pub behind : String → List ServiceHistoryEntry → List ServiceHistoryEntry
behind before [] = []
behind before (entry ∷ commits) =
    let rest = behind before commits in if entry.version == before then commits else rest

abbrev cursor_in : String → List ServiceHistoryEntry → Bool
cursor_in before [] = false
cursor_in before (entry ∷ commits) = entry.version == before || cursor_in before commits

-- the callback's state behind the cursor
abbrev after_cursor : List HistoryEntry → Bool → Progress
after_cursor entries stopped = record { entries = entries; before_seen = true; stopped = stopped }

visit_other :
    (file before : String) (limit : ℕ) (entry : ServiceHistoryEntry) (entries : List HistoryEntry)
    → history_entry_matches_file entry file ≡ false
    → visit file before limit entry (after_cursor entries false) ≡ after_cursor entries false
unfolding visit
visit_other file before limit entry entries n = rw n refl

visit_matching :
    (file before : String) (limit : ℕ) (entry : ServiceHistoryEntry) (entries : List HistoryEntry)
    → history_entry_matches_file entry file ≡ true
    → visit file before limit entry (after_cursor entries false)
      ≡ after_cursor (entries ++ history_entry entry ∷ []) (leb limit (length entries + 1))
unfolding visit
visit_matching file before limit entry entries y =
    rw (y, length-append entries (history_entry entry ∷ [])) refl

iterate_step :
    (file before : String) (limit : ℕ) (entry : ServiceHistoryEntry)
    (commits : List ServiceHistoryEntry) (at next : Progress)
    → visit file before limit entry at ≡ next
    → iterate file before limit (entry ∷ commits) at
      ≡ (if next.stopped then next else iterate file before limit commits next)
unfolding iterate
iterate_step file before limit entry commits at next e =
    ap (λ n. if n.stopped then n else iterate file before limit commits n) e

iterate_seen :
    (file before : String) (limit room : ℕ) (commits : List ServiceHistoryEntry)
    (entries : List HistoryEntry)
    → length entries + suc room ≡ limit
    → iterate file before limit commits (after_cursor entries false)
      ≡ after_cursor
          (entries ++ take (suc room) (matching file commits))
          (leb (suc room) (length (matching file commits)))
unfolding iterate take matching
iterate_seen file before limit room [] entries h =
    let left : leb (suc room) 0 ≡ false = ground arith in cc (append-nil entries, left)
iterate_seen file before limit room (entry ∷ commits) entries h =
    elim (Bool-cases (history_entry_matches_file entry file)) [
      | inr n ↦
          iterate_step file before limit entry commits (after_cursor entries false)
            (after_cursor entries false) (visit_other file before limit entry entries n)
          ∙ rw n (iterate_seen file before limit room commits entries h)
      | inl y ↦
          iterate_step file before limit entry commits (after_cursor entries false)
            (after_cursor (entries ++ history_entry entry ∷ []) (leb limit (length entries + 1)))
            (visit_matching file before limit entry entries y)
          ∙ rw y (grown room h (λ r es k. iterate_seen file before limit r commits es k))
    ]
  where
    grown :
        (room : ℕ)
        → length entries + suc room ≡ limit
        → ((r : ℕ) (es : List HistoryEntry)
            → length es + suc r ≡ limit
            → iterate file before limit commits (after_cursor es false)
              ≡ after_cursor
                  (es ++ take (suc r) (matching file commits))
                  (leb (suc r) (length (matching file commits))))
        → (if leb limit (length entries + 1)
            then after_cursor (entries ++ history_entry entry ∷ []) (leb limit (length entries + 1))
            else iterate file before limit commits (
                after_cursor
                  (entries ++ history_entry entry ∷ [])
                  (leb limit (length entries + 1))))
          ≡ after_cursor
              (entries ++ take (suc room) (history_entry entry ∷ matching file commits))
              (leb (suc room) (length (history_entry entry ∷ matching file commits)))
    grown zero h again =
        let full : leb limit (length entries + 1) ≡ true = ground arith in
        let more : leb 1 (suc (length (matching file commits))) ≡ true = ground arith in
        rw (full, more) refl
    grown (suc r) h again =
        let room_left : leb limit (length entries + 1) ≡ false = ground arith in
        let same : leb (suc (suc r)) (suc (length (matching file commits)))
            ≡ leb (suc r) (length (matching file commits)) =
          ground arith in
        rw room_left (
          again r (entries ++ history_entry entry ∷ [])
            (omega (arith, h, length-append entries (history_entry entry ∷ [])))
          ∙ cc (
            append_assoc entries (history_entry entry ∷ []) (take (suc r) (matching file commits)),
            same,
          ))

-- the cursor's commit itself, and all before it, are passed over
iterate_unseen :
    (file before : String) (room : ℕ) (commits : List ServiceHistoryEntry)
    → iterate file before
        (suc room)
        commits
        (record { entries = []; before_seen = false; stopped = false })
      ≡ record {
        entries = take (suc room) (matching file (behind before commits));
        before_seen = cursor_in before commits;
        stopped = leb (suc room) (length (matching file (behind before commits)));
      }
unfolding iterate visit take matching behind
iterate_unseen file before room [] = let left : leb (suc room) 0 ≡ false = ground arith in cc left
iterate_unseen file before room (entry ∷ commits) = elim (Bool-cases (entry.version == before)) [
  | inr n ↦ rw n (iterate_unseen file before room commits)
  | inl y ↦ rw y (iterate_seen file before (suc room) room commits [] (omega arith))
]

-- what the API promises: the first matching commits behind the cursor
abbrev pub page : String → String → ℕ → List ServiceHistoryEntry → List HistoryEntry
page file before limit commits =
    take limit (matching file (if before == "" then commits else behind before commits))

-- whether these commits fill the page
abbrev pub page_full : String → String → ℕ → List ServiceHistoryEntry → Bool
page_full file before limit commits =
    leb limit (length (matching file (if before == "" then commits else behind before commits)))

iterate_from :
    (file before : String) (room : ℕ) (commits : List ServiceHistoryEntry) (seen : Bool)
    → let at =
        iterate file before
          (suc room)
          commits
          (record { entries = []; before_seen = seen; stopped = false }) in
      let found = matching file (if seen then commits else behind before commits) in
      (at.entries ≡ take (suc room) found) × (at.stopped ≡ leb (suc room) (length found))
iterate_from file before room commits true =
    let ran = iterate_seen file before (suc room) room commits [] (omega arith) in
    (ap (λ at. at.entries) ran, ap (λ at. at.stopped) ran)
iterate_from file before room commits false =
    let ran = iterate_unseen file before room commits in
    (ap (λ at. at.entries) ran, ap (λ at. at.stopped) ran)

-- For a positive limit, History lists exactly the first `limit` commits that match the file and lie
-- behind the cursor, fewer only if there are no more. An error that the iteration meets later is
-- the result only if the page is not full by then.
pub list_history_lem :
    (file before : String) (room : ℕ) (commits : List ServiceHistoryEntry) (failure : Option String)
    → list_history file before (suc room) commits failure ≡ (
        if page_full file before (suc room) commits
        then listed (page file before (suc room) commits)
        else elim failure [
          | none ↦ listed (page file before (suc room) commits)
          | some why ↦ refused (iteration_failed why)
        ])
unfolding list_history
list_history_lem file before room commits failure =
    let ran = iterate_from file before room commits (before == "") in cc (ran.0, ran.1)
