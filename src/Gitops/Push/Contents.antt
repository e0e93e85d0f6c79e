-- ===== src/Gitops/Push/Contents.antt =====
-- internal/gitops/repo.go: which files a pushed commit of CommitAndPush holds.
use Prim.Native.String.{String}
use mathlib.Core.Path.{subst}
use aap_config_server.Base.{
  ℕ, zero, suc, ◌≡◌, ◌≢◌, refl, sym, ap, ◌∙◌, ◌⊎◌, inl, inr, Bool, true, false, Option, none, some,
  [], ◌∷◌, arith, Bool-cases, if◌then◌else◌, All, map, eq_iff,
}
use aap_config_server.Base.Eq.{◌==◌, text_has_eq}
use aap_config_server.Base.Map.{Map, lookup, HasDistinctKeys}
use aap_config_server.Gitops.Push.{
  PushError, is_non_fast_forward_push, PullAnswer, merged, already_up_to_date, pull_failed,
  CommitAnswer, committed, empty_commit, commit_failed, Git, GitError, write_failed, Outcome,
  pushed, noop, err, Stage, go_on, stop, Attempt, finished, again, built, reset_to_parent,
  max_push_retries, after_reset, after_refusal, after_push, after_commit, after_change, after_pull,
  attempt, continue_with, push_loop, after_write, write_files, after_build, build_and_write,
  commit_and_push_func, commit_and_push,
}

-- What the file system and go-git document of the files of a clone.
pub record FileLaws (g : Git) : Type 0 where
  pub write_reads :
      (w : g.World) (path : String) (content : g.Bytes) (c : g.Clone)
      → (g.write w path content c).0 ≡ none
      → (q : String)
      → g.read_file (g.write w path content c).1 q
        ≡ (if path == q then some content else g.read_file c q)
  pub commit_reads :
      (w : g.World) (msg : String) (c : g.Clone) (q : String)
      → g.read_file (g.commit w msg c).1 q ≡ g.read_file c q
  pub push_reads :
      (w : g.World) (c : g.Clone) (q : String) → g.read_file (g.push w c).1 q ≡ g.read_file c q
  pub up_to_date_reads :
      (w : g.World) (c : g.Clone)
      → (g.pull w c).0 ≡ already_up_to_date
      → (q : String) → g.read_file (g.pull w c).1 q ≡ g.read_file c q

abbrev pub or_else {ℓ} : {A : Type ℓ} → Option A → Option A → Option A
or_else (some x) later = some x
or_else none later = later

lookup_distinct :
    {V : Type 0} (q : String) (m : Map String V)
    → All (λ k. q ≢ k) (map (λ e. e.0) m)
    → lookup q m ≡ none
unfolding lookup
lookup_distinct q [] h = refl
lookup_distinct q ((k, v) ∷ m) h = ground (arith, lookup_distinct q m h.1, eq_iff k q, h.0)

module _ (g : Git) (laws : FileLaws g) where
  -- the files of `d` are those of `c` under `files`
  abbrev pub IsOverlay : Map String g.Bytes → g.Clone → g.Clone → Type 0
  IsOverlay files c d = (q : String) → g.read_file d q ≡ or_else (lookup q files) (g.read_file c q)

  overlay_first :
      (w : g.World) (path q : String) (content : g.Bytes) (files : Map String g.Bytes) (c : g.Clone)
      → (g.write w path content c).0 ≡ none
      → All (λ k. path ≢ k) (map (λ e. e.0) files)
      → or_else (lookup q files) (g.read_file (g.write w path content c).1 q)
        ≡ or_else (if path == q then some content else lookup q files) (g.read_file c q)
  overlay_first w path q content files c ok fresh = elim (Bool-cases (path == q)) [
    | inl same ↦
        let here : path ≡ q = (text_has_eq.agree_iff path q).0 same in
        let unseen : lookup q files ≡ none =
          ap (λ k. lookup k files) (sym here) ∙ lookup_distinct path files fresh in
        rw (laws.write_reads w path content c ok q, unseen, same) refl
    | inr other ↦ rw (laws.write_reads w path content c ok q, other) refl
  ]

  write_files-IsOverlay :
      (w : g.World) (files : Map String g.Bytes) (c : g.Clone)
      → HasDistinctKeys files
      → (write_files g w files c).0 ≡ go_on tt
      → IsOverlay files c (write_files g w files c).1
  unfolding write_files lookup
  write_files-IsOverlay w [] c distinct h q = refl
  write_files-IsOverlay w ((path, content) ∷ files) c distinct h q =
      written (g.write w path content c) refl h
        (λ d k. write_files-IsOverlay w files d distinct.1 k q)
    where
      written :
          (r : Option String × g.Clone)
          → g.write w path content c ≡ r
          → (after_write g path r (λ d. write_files g w files d)).0 ≡ go_on tt
          → ((d : g.Clone)
              → (write_files g w files d).0 ≡ go_on tt
              → g.read_file (write_files g w files d).1 q
                ≡ or_else (lookup q files) (g.read_file d q))
          → g.read_file (after_write g path r (λ d. write_files g w files d)).1 q
            ≡ or_else (if path == q then some content else lookup q files) (g.read_file c q)
      written (some why, d) e k rest = absurd (cc k)
      written (none, d) e k rest =
          rest d k
          ∙ (ap (λ r. or_else (lookup q files) (g.read_file r.1 q)) (sym e)
              ∙ overlay_first w path q content files c (ap (λ r. r.0) e) distinct.0)

  -- an attempt that ends with a commit, new or not
  abbrev pub Succeeded : Attempt Unit → Type 0
  Succeeded (finished (pushed hash a)) = Unit
  Succeeded (finished (noop hash a)) = Unit
  Succeeded (finished (err why)) = ⊥
  Succeeded again = ⊥

  after_push_reads :
      (w : g.World) (hash : String) (c : g.Clone) (r : Option PushError × g.Clone) (q : String)
      → g.push w c ≡ r
      → Succeeded (after_push g w hash tt r).0
      → g.read_file (after_push g w hash tt r).1 q ≡ g.read_file c q
  after_push_reads w hash c (none, d) q e s =
      ap (λ r. g.read_file r.1 q) (sym e) ∙ laws.push_reads w c q
  after_push_reads w hash c (some refusal, d) q e s =
      absurd (refused (is_non_fast_forward_push refusal) refl s)
    where
      refused :
          (b : Bool)
          → is_non_fast_forward_push refusal ≡ b
          → Succeeded (after_refusal g {A = Unit} w refusal d).0
          → ⊥
      refused true b t = reset (reset_to_parent g w d) (rw b at t)
        where
          reset : (r : Option String × g.Clone) → Succeeded (after_reset g {A = Unit} r).0 → ⊥
          reset (none, e) u = u
          reset (some why, e) u = u
      refused false b t = rw b at t

  after_commit_reads :
      (w : g.World) (msg : String) (c : g.Clone) (r : CommitAnswer × g.Clone) (q : String)
      → g.commit w msg c ≡ r
      → Succeeded (after_commit g w (λ a. a) tt r).0
      → g.read_file (after_commit g w (λ a. a) tt r).1 q ≡ g.read_file c q
  after_commit_reads w msg c (committed hash, d) q e s =
      after_push_reads w hash d (g.push w d) q refl s
      ∙ (ap (λ r. g.read_file r.1 q) (sym e) ∙ laws.commit_reads w msg c q)
  after_commit_reads w msg c (empty_commit, d) q e s =
      ap (λ r. g.read_file r.1 q) (sym e) ∙ laws.commit_reads w msg c q
  after_commit_reads w msg c (commit_failed why, d) q e s = absurd s

  after_change_reads :
      (w : g.World) (msg : String) (files : Map String g.Bytes) (c : g.Clone)
      (r : Stage Unit × g.Clone)
      → HasDistinctKeys files
      → write_files g w files c ≡ r
      → Succeeded (after_change g w msg (λ a. a) r).0
      → IsOverlay files c (after_change g w msg (λ a. a) r).1
  after_change_reads w msg files c (stop why, d) distinct e s q = absurd s
  after_change_reads w msg files c (go_on u, d) distinct e s q =
      after_commit_reads w msg d (g.commit w msg d) q refl s
      ∙ (ap (λ r. g.read_file r.1 q) (sym e)
          ∙ write_files-IsOverlay w files c distinct (ap (λ r. r.0) e) q)

  after_tree_reads :
      (w : g.World) (msg : String) (files : Map String g.Bytes) (c : g.Clone) (tree : Option String)
      → HasDistinctKeys files
      → Succeeded (after_change g w msg (λ a. a) (after_build g w (built files) tree c)).0
      → IsOverlay files c (after_change g w msg (λ a. a) (after_build g w (built files) tree c)).1
  after_tree_reads w msg files c (some why) distinct s q = absurd s
  after_tree_reads w msg files c none distinct s q =
      after_change_reads w msg files c (write_files g w files c) distinct refl s q

  after_pull_reads :
      (w : g.World) (msg : String) (files : Map String g.Bytes) (r : PullAnswer × g.Clone)
      → HasDistinctKeys files
      → Succeeded (after_pull g w msg (λ a. a) (build_and_write g (λ reader. built files)) r).0
      → IsOverlay files r.1
          (after_pull g w msg (λ a. a) (build_and_write g (λ reader. built files)) r).1
  after_pull_reads w msg files (pull_failed why, c) distinct s q = absurd s
  after_pull_reads w msg files (merged, c) distinct s q =
      after_tree_reads w msg files c (g.worktree w) distinct s q
  after_pull_reads w msg files (already_up_to_date, c) distinct s q =
      after_tree_reads w msg files c (g.worktree w) distinct s q

  abbrev pub write_attempt :
      g.World → String → Map String g.Bytes → g.Clone → Attempt Unit × g.Clone
  write_attempt w msg files c =
      attempt g w msg (λ a. a) (build_and_write g (λ reader. built files)) c

  attempt_reads :
      (w : g.World) (msg : String) (files : Map String g.Bytes) (c : g.Clone)
      → HasDistinctKeys files
      → Succeeded (write_attempt w msg files c).0
      → IsOverlay files (g.pull w c).1 (write_attempt w msg files c).1
  unfolding attempt
  attempt_reads w msg files c distinct s = after_pull_reads w msg files (g.pull w c) distinct s

  abbrev pub IsSuccess : Outcome Unit → Type 0
  IsSuccess (pushed hash a) = Unit
  IsSuccess (noop hash a) = Unit
  IsSuccess (err why) = ⊥

  -- `d` is the clone as one of the attempts pulled it, with the files laid over it: each attempt
  -- before that one went round, and the one behind it starts on the clone that it left
  abbrev pub FromPull :
      (ℕ → g.World) → String → Map String g.Bytes → ℕ → ℕ → g.Clone → g.Clone → Type 0
  FromPull worlds msg files zero i c d = ⊥
  FromPull worlds msg files (suc left) i c d =
      IsOverlay files (g.pull (worlds i) c).1 d
      ⊎ (((write_attempt (worlds i) msg files c).0 ≡ again)
          × FromPull worlds msg files left (suc i) (write_attempt (worlds i) msg files c).1 d)

  push_loop_reads :
      (left i : ℕ) (worlds : ℕ → g.World) (msg : String) (files : Map String g.Bytes) (c : g.Clone)
      → HasDistinctKeys files
      → IsSuccess
          (push_loop g left i worlds msg (λ a. a) (build_and_write g (λ reader. built files)) c).0
      → FromPull worlds msg files left i c
          (push_loop g left i worlds msg (λ a. a) (build_and_write g (λ reader. built files)) c).1
  unfolding push_loop
  push_loop_reads zero i worlds msg files c distinct s = absurd s
  push_loop_reads (suc left) i worlds msg files c distinct s =
      ended (write_attempt (worlds i) msg files c) refl s
        (λ d t. push_loop_reads left (suc i) worlds msg files d distinct t)
    where
      ended :
          (r : Attempt Unit × g.Clone)
          → write_attempt (worlds i) msg files c ≡ r
          → IsSuccess
              (continue_with g r (λ d.
                push_loop g left
                  (suc i)
                  worlds
                  msg
                  (λ a. a)
                  (build_and_write g (λ reader. built files))
                  d)).0
          → ((d : g.Clone)
              → IsSuccess
                  (push_loop g left
                    (suc i)
                    worlds
                    msg
                    (λ a. a)
                    (build_and_write g (λ reader. built files))
                    d).0
              → FromPull worlds msg files left
                  (suc i)
                  d
                  (push_loop g left
                    (suc i)
                    worlds
                    msg
                    (λ a. a)
                    (build_and_write g (λ reader. built files))
                    d).1)
          → FromPull worlds msg files
              (suc left)
              i
              c
              (continue_with g r (λ d.
                push_loop g left
                  (suc i)
                  worlds
                  msg
                  (λ a. a)
                  (build_and_write g (λ reader. built files))
                  d)).1
      ended (again, d) e t later = inr (
        ap (λ r. r.0) e,
        subst
            (λ x.
              FromPull worlds msg files left (suc i) x
                (push_loop g left (suc i) worlds msg (λ a. a)
                  (build_and_write g (λ reader. built files)) d).1)
            (sym (ap (λ r. r.1) e)) (later d t),
      )
      ended (finished (err why), d) e t later = absurd t
      ended (finished (pushed hash a), d) e t later = inl (λ q.
          ap (λ r. g.read_file r.1 q) (sym e)
          ∙ attempt_reads (worlds i) msg files c distinct (subst (λ r. Succeeded r.0) (sym e) tt) q)
      ended (finished (noop hash a), d) e t later = inl (λ q.
          ap (λ r. g.read_file r.1 q) (sym e)
          ∙ attempt_reads (worlds i) msg files c distinct (subst (λ r. Succeeded r.0) (sym e) tt) q)

  -- When CommitAndPush succeeds, with a new commit or with nothing to commit, the clone holds each
  -- of the given files with its given contents, and every other path as the pull of one of the
  -- attempts left it; each attempt before that one went round the loop, and the one behind it
  -- pulled on the clone that it left. The given paths are different.
  pub commit_and_push-IsOverlay :
      (worlds : ℕ → g.World) (msg : String) (files : Map String g.Bytes) (c : g.Clone)
      → HasDistinctKeys files
      → IsSuccess (commit_and_push g worlds msg files c).0
      → FromPull worlds msg files max_push_retries 0 c (commit_and_push g worlds msg files c).1
  unfolding commit_and_push commit_and_push_func
  commit_and_push-IsOverlay worlds msg files c distinct s =
      push_loop_reads max_push_retries 0 worlds msg files c distinct s

  after_write-none :
      (path : String) (r : Option String × g.Clone) (rest : g.Clone → Stage Unit × g.Clone)
      → r.0 ≡ none
      → after_write g path r rest ≡ rest r.1
  after_write-none path (none, d) rest e = refl
  after_write-none path (some why, d) rest e = absurd (cc e)

  after_write-some :
      (path why : String) (r : Option String × g.Clone) (rest : g.Clone → Stage Unit × g.Clone)
      → r.0 ≡ some why
      → after_write g path r rest ≡ (stop (write_failed path why), r.1)
  after_write-some path why (none, d) rest e = absurd (cc e)
  after_write-some path why (some found, d) rest e = cc e

  stopped :
      (w : g.World) (msg : String) (files : Map String g.Bytes) (r : PullAnswer × g.Clone)
      (why : GitError) (d : g.Clone)
      → r.0 ≡ already_up_to_date
      → g.worktree w ≡ none
      → write_files g w files r.1 ≡ (stop why, d)
      → after_pull g w msg (λ a. a) (build_and_write g (λ reader. built files)) r
        ≡ (finished (err why), d)
  stopped w msg files (merged, c) why d e tree h = absurd (cc e)
  stopped w msg files (pull_failed refusal, c) why d e tree h = absurd (cc e)
  stopped w msg files (already_up_to_date, c) why d e tree h =
      ap (λ t. after_change g w msg (λ a. a) (after_build g w (built files) t c)) tree
      ∙ ap (after_change g w msg (λ a. a)) h

  first_attempt :
      (w : g.World) (msg : String) (files : Map String g.Bytes) (c : g.Clone)
      → Succeeded (write_attempt w msg files c).0
      → (commit_and_push g (λ i. w) msg files c).1 ≡ (write_attempt w msg files c).1
  unfolding commit_and_push commit_and_push_func push_loop
  first_attempt w msg files c s =
      ended (write_attempt w msg files c) s
        (λ d. push_loop g 2 1 (λ i. w) msg (λ a. a) (build_and_write g (λ reader. built files)) d)
    where
      ended :
          (r : Attempt Unit × g.Clone)
          → Succeeded r.0
          → (rest : g.Clone → Outcome Unit × g.Clone) → (continue_with g r rest).1 ≡ r.1
      ended (again, d) t rest = absurd t
      ended (finished outcome, d) t rest = refl

  -- CommitAndPush of two files, of which the second cannot be written
  abbrev pub left_over :
      g.World → String → String → String → g.Bytes → g.Bytes → g.Clone → Outcome Unit × g.Clone
  left_over w msg p1 p2 d1 d2 c = commit_and_push g (λ i. w) msg ((p1, d1) ∷ (p2, d2) ∷ []) c

  module _ (w : g.World) (msg p1 p2 why : String) (d1 d2 : g.Bytes) (c : g.Clone)
      (current : (g.pull w c).0 ≡ already_up_to_date) (tree : g.worktree w ≡ none)
      (first : (g.write w p1 d1 (g.pull w c).1).0 ≡ none)
      (second : (g.write w p2 d2 (g.write w p1 d1 (g.pull w c).1).1).0 ≡ some why)
      (apart : g.read_file (g.write w p2 d2 (g.write w p1 d1 (g.pull w c).1).1).1 p1
        ≡ g.read_file (g.write w p1 d1 (g.pull w c).1).1 p1) where
    abbrev spoilt : g.Clone
    spoilt = (g.write w p2 d2 (g.write w p1 d1 (g.pull w c).1).1).1

    writes_stop :
        write_files g w ((p1, d1) ∷ (p2, d2) ∷ []) (g.pull w c).1
        ≡ (stop (write_failed p2 why), spoilt)
    unfolding write_files
    writes_stop =
        after_write-none p1 (g.write w p1 d1 (g.pull w c).1)
          (λ d. after_write g p2 (g.write w p2 d2 d) (λ e. (go_on tt, e))) first
        ∙ after_write-some p2 why (g.write w p2 d2 (g.write w p1 d1 (g.pull w c).1).1)
            (λ e. (go_on tt, e)) second

    left_over_lem : left_over w msg p1 p2 d1 d2 c ≡ (err (write_failed p2 why), spoilt)
    unfolding commit_and_push commit_and_push_func push_loop attempt
    left_over_lem =
        ap
          (λ r. continue_with g r (λ d.
            push_loop g 2 1 (λ i. w) msg (λ a. a)
              (build_and_write g (λ reader. built ((p1, d1) ∷ (p2, d2) ∷ []))) d))
          (stopped w msg ((p1, d1) ∷ (p2, d2) ∷ []) (g.pull w c) (write_failed p2 why) spoilt
            current tree writes_stop)

    left_reads : g.read_file (left_over w msg p1 p2 d1 d2 c).1 p1 ≡ some d1
    left_reads =
        ap (λ r. g.read_file r.1 p1) left_over_lem
        ∙ (apart
            ∙ (laws.write_reads w p1 d1 (g.pull w c).1 first p1
                ∙ rw ((text_has_eq.agree_iff p1 p1).1 refl) refl))

    -- A failed write leaves what was written before it. On a clone that is up to date, let the first
    -- of two files be written, and let the write of the second fail without touching the first. Then
    -- CommitAndPush returns that error, and the clone it leaves holds the first file. A later
    -- CommitAndPush of files that do not name the first one, on a clone that is still up to date and
    -- with success at its first attempt, leaves a clone that holds the first file all the same.
    pub failed_write_leaks :
        (v : g.World) (later : String) (files : Map String g.Bytes)
        → HasDistinctKeys files
        → lookup p1 files ≡ none
        → (g.pull v (left_over w msg p1 p2 d1 d2 c).1).0 ≡ already_up_to_date
        → Succeeded (write_attempt v later files (left_over w msg p1 p2 d1 d2 c).1).0
        → ((left_over w msg p1 p2 d1 d2 c).0 ≡ err (write_failed p2 why))
          × (g.read_file (left_over w msg p1 p2 d1 d2 c).1 p1 ≡ some d1)
          × (g.read_file
                (commit_and_push g (λ i. v) later files (left_over w msg p1 p2 d1 d2 c).1).1
                p1
              ≡ some d1)
    failed_write_leaks v later files distinct unnamed still s =
        let left = (left_over w msg p1 p2 d1 d2 c).1 in
        (
          ap (λ r. r.0) left_over_lem,
          left_reads,
          ap (λ d. g.read_file d p1) (first_attempt v later files left s)
              ∙ (attempt_reads v later files left distinct s p1
                  ∙ (ap (λ o. or_else o (g.read_file (g.pull v left).1 p1)) unnamed
                      ∙ (laws.up_to_date_reads v left still p1 ∙ left_reads))),
        )
