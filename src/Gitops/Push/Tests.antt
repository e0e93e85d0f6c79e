-- ===== src/Gitops/Push/Tests.antt =====
-- internal/gitops/repo.go on a clone that is a list of commits with a working tree; the remote takes
-- every commit but those called "local".
use Prim.Native.String.{String}
use aap_config_server.Base.{
  ℕ, zero, suc, ◌≡◌, refl, ◌∙◌, sym, ap, false, Option, none, some, List, [], ◌∷◌, if◌then◌else◌,
  Bool-cases, inl, inr, arith,
}
use aap_config_server.Base.Eq.{◌==◌, text_has_eq}
use aap_config_server.Base.Map.{Map, lookup, insert, remove, lookup-insert}
use aap_config_server.Base.Text.{split_on, cut_prefix, join}
use aap_config_server.Store.History.{ServiceFileKind}
use aap_config_server.Gitops.Paths.{
  classify_service_file_change, changed, clean_repo_path, clean_parts, clean_part,
  service_config_root,
}
use aap_config_server.Gitops.Push.{
  PushError, push_error, has_part, is_non_fast_forward_push, already_up_to_date, committed, missing,
  regular, walked, Git, Outcome, pushed, err, write_failed, retries_exhausted, Built, built,
  attempt, push_loop, write_files, reset_to_parent, commit_and_push_func, commit_and_push,
}
use aap_config_server.Gitops.Push.Restore.{
  removal_targets, still_there, unstage_all, delete_paths, delete_and_push,
  restore_service_files_and_push,
}
use aap_config_server.Gitops.Push.Laws.{HeadLaws, ResetsWork, Sound}
use aap_config_server.Gitops.Push.Published.{pushes_published}
use aap_config_server.Gitops.Push.Contents.{
  FileLaws, FromPull, commit_and_push-IsOverlay, left_over, failed_write_leaks,
}

record Local : Type 0 where
  history : List String
  files : Map String String

-- the name of the next commit, and the path that the disk refuses
record Surroundings : Type 0 where
  next : String
  full : String

abbrev first : List String → Option String
first [] = none
first (hash ∷ hashes) = some hash

abbrev second : List String → Option String
second [] = none
second (hash ∷ hashes) = first hashes

abbrev refused : Option PushError
refused = some (push_error false "non-fast-forward update: refs/heads/main")

abbrev take_push : Option String → Option PushError
take_push none = refused
take_push (some hash) = if hash == "local" then refused else none

abbrev put_file : Surroundings → String → String → Local → Option String × Local
put_file w path content c =
    if path == w.full
    then (some "disk full", c)
    else (none, record { history = c.history; files = insert path content c.files })

abbrev names : Map String String → List String
names [] = []
names ((path, content) ∷ files) = path ∷ names files

abbrev local : Git
local = record {
  Clone = Local;
  World = Surroundings;
  Bytes = String;
  pull = λ w c. (already_up_to_date, c);
  worktree = λ w. none;
  read_file = λ c path. lookup path c.files;
  write = put_file;
  stat = λ w c path. elim (lookup path c.files) [ none ↦ missing | some content ↦ regular ];
  walk = λ w c path. walked (names c.files);
  remove_all = λ w path c. (none, record { history = c.history; files = remove path c.files });
  unstage = λ path c. c;
  commit = λ w msg c. (committed w.next, record { history = w.next ∷ c.history; files = c.files });
  push = λ w c. (take_push (first c.history), c);
  head_hash = λ c. first c.history;
  parent_of = λ c hash. second c.history;
  hard_reset = λ w parent c. (none, record { history = parent ∷ []; files = c.files });
}

taken :
    (o : Option String) (hash : String)
    → take_push o ≡ none
    → o ≡ some hash
    → (hash == "local") ≡ false
taken none hash h e = absurd (cc e)
taken (some found) hash h e = elim (Bool-cases (found == "local")) [
  | inl bad ↦ absurd (ground (arith, bad, h))
  | inr good ↦ let same : found ≡ hash = cc e in ap (λ n. n == "local") (sym same) ∙ good
]

put_file_head :
    (w : Surroundings) (path content : String) (c : Local)
    → first (put_file w path content c).1.history ≡ first c.history
put_file_head w path content c = elim (Bool-cases (path == w.full)) [
  | inl full ↦ rw full refl
  | inr free ↦ rw free refl
]

put_file_reads :
    (w : Surroundings) (path content : String) (c : Local)
    → (put_file w path content c).0 ≡ none
    → (q : String)
    → lookup q (put_file w path content c).1.files
      ≡ (if path == q then some content else lookup q c.files)
put_file_reads w path content c h q = elim (Bool-cases (path == w.full)) [
  | inl full ↦ absurd (ground (arith, full, h))
  | inr free ↦ rw free (lookup-insert path q content c.files)
]

heads : HeadLaws local
heads = record {
  Accepted = λ hash. (hash == "local") ≡ false;
  pull_head = λ w c hash head accepted. (hash, head, accepted);
  write_head = put_file_head;
  remove_head = λ w path c. refl;
  unstage_head = λ path c. refl;
  empty_head = λ w msg c h. absurd (cc h);
  failed_head = λ w msg c why h. absurd (cc h);
  commit_head = λ w msg c hash h. (ap (λ n. some n) (cc h), refl);
  push_head = λ w c. (refl, λ hash. refl);
  push_accepted = λ w c hash h head. taken (first c.history) hash h head;
  reset_head = λ w parent c h. refl;
}

files_kept : FileLaws local
files_kept = record {
  write_reads = put_file_reads;
  commit_reads = λ w msg c q. refl;
  push_reads = λ w c q. refl;
  up_to_date_reads = λ w c h q. refl;
}

abbrev start : Local
start = record { history = "c1" ∷ []; files = ("a.yaml", "1") ∷ [] }

abbrev named : String → Surroundings
named hash = record { next = hash; full = "full.yaml" }

-- the first push is refused, the second is taken
abbrev moving : ℕ → Surroundings
moving zero = named "local"
moving (suc i) = named "c2"

second_push : (commit_and_push local moving "m" (("b.yaml", "2") ∷ []) start).0 ≡ pushed "c2" tt
unfolding commit_and_push commit_and_push_func push_loop attempt write_files insert
    is_non_fast_forward_push has_part cut_prefix reset_to_parent
second_push = refl

never_taken :
    (commit_and_push local (λ i. named "local") "m" (("b.yaml", "2") ∷ []) start).0
    ≡ err retries_exhausted
unfolding commit_and_push commit_and_push_func push_loop attempt write_files insert
    is_non_fast_forward_push has_part cut_prefix reset_to_parent
never_taken = refl

delete_a : (delete_and_push local moving "m" ("a.yaml" ∷ "z.yaml" ∷ []) start).0 ≡ pushed "c2" []
unfolding delete_and_push push_loop attempt delete_paths removal_targets still_there unstage_all
    lookup remove is_non_fast_forward_push has_part cut_prefix reset_to_parent
delete_a = refl

sealed_file :
    classify_service_file_change "configs/orgs/o/projects/p//services/s/sealed-secrets/k.yaml" "o"
      "p" "s"
    ≡ changed "sealed-secrets/k.yaml" ServiceFileKind.sealed_secret
unfolding classify_service_file_change clean_repo_path clean_parts clean_part service_config_root
    join split_on cut_prefix
sealed_file = refl

sibling :
    classify_service_file_change "configs/orgs/o/projects/p/services/s2/config.yaml" "o" "p" "s"
    ≡ none
unfolding classify_service_file_change clean_repo_path clean_parts clean_part service_config_root
    join split_on cut_prefix
sibling = refl

resets_work : ResetsWork local heads
resets_work w parent c = refl

abbrev build_b : (String → Option String) → Built (Map String String)
build_b reader = built (("b.yaml", "2") ∷ [])

pushes_published_example :
    (Sound local heads
      (commit_and_push_func local moving "m" build_b start).0
      (commit_and_push_func local moving "m" build_b start).1)
    × (Sound local heads
        (delete_and_push local moving "m" ("a.yaml" ∷ []) start).0
        (delete_and_push local moving "m" ("a.yaml" ∷ []) start).1)
    × (Sound local heads
        (restore_service_files_and_push local moving "m" "o" "p" "s" [] start).0
        (restore_service_files_and_push local moving "m" "o" "p" "s" [] start).1)
unfolding heads
pushes_published_example =
    pushes_published local heads moving "m" build_b ("a.yaml" ∷ []) "o" "p" "s" [] start resets_work
      ("c1", refl, refl)

commit_and_push-IsOverlay_example :
    FromPull local files_kept moving "m"
      (("b.yaml", "2") ∷ [])
      3
      0
      start
      (commit_and_push local moving "m" (("b.yaml", "2") ∷ []) start).1
unfolding commit_and_push commit_and_push_func push_loop attempt write_files insert
    is_non_fast_forward_push has_part cut_prefix reset_to_parent
commit_and_push-IsOverlay_example =
    commit_and_push-IsOverlay local files_kept moving "m" (("b.yaml", "2") ∷ []) start (tt, tt) tt

abbrev half : Outcome Unit × Local
half = left_over local files_kept (named "c2") "m" "b.yaml" "full.yaml" "2" "3" start

failed_write_leaks_example :
    (half.0 ≡ err (write_failed "full.yaml" "disk full"))
    × (lookup "b.yaml" half.1.files ≡ some "2")
    × (lookup "b.yaml"
          (commit_and_push local (λ i. named "c3") "n" (("d.yaml", "4") ∷ []) half.1).1.files
        ≡ some "2")
unfolding commit_and_push commit_and_push_func push_loop attempt write_files insert lookup
failed_write_leaks_example =
    failed_write_leaks local files_kept (named "c2") "m" "b.yaml" "full.yaml" "disk full" "2" "3"
      start refl refl refl refl refl (named "c3") "n" (("d.yaml", "4") ∷ []) (tt, tt) refl refl tt
