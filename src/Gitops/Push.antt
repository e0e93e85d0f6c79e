-- ===== src/Gitops/Push.antt =====
-- internal/gitops/repo.go: CommitAndPushFunc, CommitAndPush, DeleteAndPush and
-- RestoreServiceFilesAndPush, which change the clone, commit, push, and start again from a pull when
-- the remote has moved.
pub mod Laws
pub mod Contents
pub mod Restore
pub mod Published
pub mod Tests
use Prim.Native.Char.{Char}
use Prim.Native.String.{String}
use aap_config_server.Base.{
  ℕ, zero, suc, Bool, true, false, ◌||◌, Option, none, some, List, [], ◌∷◌, ◌++◌, if◌then◌else◌,
  is_some,
}
use aap_config_server.Base.Map.{Map}
use aap_config_server.Base.Sort.{sort_by, str_less}
use aap_config_server.Base.Text.{cut_prefix}

-- an error of go-git's push: whether it is the sentinel, and its message
pub data PushError : Type 0 where
  push_error : Bool → String → PushError

-- `strings.Contains(s, part)`
unfoldable pub has_part : String → String → Bool
has_part part String.[] = is_some (cut_prefix part String.[])
has_part part (String.◌∷◌ c s) = is_some (cut_prefix part (String.◌∷◌ c s)) || has_part part s

-- isNonFastForwardPush, on an error that is there
unfoldable pub is_non_fast_forward_push : PushError → Bool
is_non_fast_forward_push (push_error sentinel message) =
    sentinel || has_part "non-fast-forward update" message

pub data PullAnswer : Type 0 where
  merged : PullAnswer
  already_up_to_date : PullAnswer
  pull_failed : String → PullAnswer

pub data CommitAnswer : Type 0 where
  committed : String → CommitAnswer
  empty_commit : CommitAnswer
  commit_failed : String → CommitAnswer

-- what os.Stat tells of a path
pub data StatAnswer : Type 0 where
  missing : StatAnswer
  regular : StatAnswer
  directory : StatAnswer
  stat_error : String → StatAnswer

-- filepath.WalkDir over the files below a directory
pub data WalkAnswer : Type 0 where
  walked : List String → WalkAnswer
  no_directory : WalkAnswer
  walk_failed : String → WalkAnswer

-- What the code uses of go-git and of the file system. `World` is all that decides an answer and is
-- not in the clone: the remote, the disk, the context.
pub record Git : Type 1 where
  pub Clone : Type 0
  pub World : Type 0
  pub Bytes : Type 0
  pub pull : World → Clone → PullAnswer × Clone
  pub worktree : World → Option String
  pub read_file : Clone → String → Option Bytes
  pub write : World → String → Bytes → Clone → Option String × Clone
  pub stat : World → Clone → String → StatAnswer
  pub walk : World → Clone → String → WalkAnswer
  pub remove_all : World → String → Clone → Option String × Clone
  pub unstage : String → Clone → Clone
  pub commit : World → String → Clone → CommitAnswer × Clone
  pub push : World → Clone → Option PushError × Clone
  pub head_hash : Clone → Option String
  pub parent_of : Clone → String → Option String
  pub hard_reset : World → String → Clone → Option String × Clone

pub data GitError : Type 0 where
  pre_pull : String → GitError
  no_worktree : String → GitError
  build_failed : String → GitError
  write_failed : String → String → GitError
  stat_failed : String → GitError
  walk_error : String → GitError
  remove_failed : String → String → GitError
  git_commit : String → GitError
  push_failed : PushError → GitError
  reset_failed : String → GitError
  retries_exhausted : GitError

-- the answer of an operation: the new head, with what else it reports
pub data Outcome (A : Type 0) : Type 0 where
  pushed : String → A → Outcome A
  noop : String → A → Outcome A
  err : GitError → Outcome A

-- what a stage of one attempt answers
pub data Stage (A : Type 0) : Type 0 where
  go_on : A → Stage A
  stop : GitError → Stage A

-- one attempt: the operation ends, or the loop goes round
pub data Attempt (A : Type 0) : Type 0 where
  finished : Outcome A → Attempt A
  again : Attempt A

pub data Built (Files : Type 0) : Type 0 where
  built : Files → Built Files
  not_built : String → Built Files

abbrev pub max_push_retries : ℕ
max_push_retries = 3

abbrev pub hash_or_empty : Option String → String
hash_or_empty none = ""
hash_or_empty (some hash) = hash

module _ (g : Git) where
  abbrev pub reset_to : g.World → Option String → g.Clone → Option String × g.Clone
  reset_to w none c = (some "get parent commit", c)
  reset_to w (some parent) c = g.hard_reset w parent c

  abbrev pub reset_from : g.World → Option String → g.Clone → Option String × g.Clone
  reset_from w none c = (some "git head", c)
  reset_from w (some hash) c = reset_to w (g.parent_of c hash) c

  -- resetToParent
  unfoldable pub reset_to_parent : g.World → g.Clone → Option String × g.Clone
  reset_to_parent w c = reset_from w (g.head_hash c) c

  -- the clone's change of one attempt, between the pull and the commit
  abbrev pub Change : Type 0 → Type 0
  Change A = g.World → g.Clone → Stage A × g.Clone

  module _ {A : Type 0} where
    -- after a rejected push: try again from the parent, or give up
    abbrev pub after_reset : Option String × g.Clone → Attempt A × g.Clone
    after_reset (none, c) = (again, c)
    after_reset (some why, c) = (finished (err (reset_failed why)), c)

    abbrev pub after_refusal : g.World → PushError → g.Clone → Attempt A × g.Clone
    after_refusal w e c =
        if is_non_fast_forward_push e
        then after_reset (reset_to_parent w c)
        else (finished (err (push_failed e)), (reset_to_parent w c).1)

    abbrev pub after_push : g.World → String → A → Option PushError × g.Clone → Attempt A × g.Clone
    after_push w hash a (none, c) = (finished (pushed hash a), c)
    after_push w hash a (some e, c) = after_refusal w e c

    abbrev pub after_commit : g.World → (A → A) → A → CommitAnswer × g.Clone → Attempt A × g.Clone
    after_commit w on_noop a (committed hash, c) = after_push w hash a (g.push w c)
    after_commit w on_noop a (empty_commit, c) =
        (finished (noop (hash_or_empty (g.head_hash c)) (on_noop a)), c)
    after_commit w on_noop a (commit_failed why, c) = (finished (err (git_commit why)), c)

    abbrev pub after_change : g.World → String → (A → A) → Stage A × g.Clone → Attempt A × g.Clone
    after_change w msg on_noop (stop why, c) = (finished (err why), c)
    after_change w msg on_noop (go_on a, c) = after_commit w on_noop a (g.commit w msg c)

    abbrev pub after_pull :
        g.World → String → (A → A) → Change A → PullAnswer × g.Clone → Attempt A × g.Clone
    after_pull w msg on_noop change (pull_failed why, c) = (finished (err (pre_pull why)), c)
    after_pull w msg on_noop change (merged, c) = after_change w msg on_noop (change w c)
    after_pull w msg on_noop change (already_up_to_date, c) =
        after_change w msg on_noop (change w c)

    -- the body of the three loops
    unfoldable pub attempt : g.World → String → (A → A) → Change A → g.Clone → Attempt A × g.Clone
    attempt w msg on_noop change c = after_pull w msg on_noop change (g.pull w c)

    abbrev pub continue_with :
        Attempt A × g.Clone → (g.Clone → Outcome A × g.Clone) → Outcome A × g.Clone
    continue_with (finished outcome, c) rest = (outcome, c)
    continue_with (again, c) rest = rest c

    -- the loop, with the attempts that are left and the number of the next one
    unfoldable pub push_loop :
        ℕ → ℕ → (ℕ → g.World) → String → (A → A) → Change A → g.Clone → Outcome A × g.Clone
    push_loop zero i worlds msg on_noop change c = (err retries_exhausted, c)
    push_loop (suc left) i worlds msg on_noop change c =
        continue_with (attempt (worlds i) msg on_noop change c)
          (λ c'. push_loop left (suc i) worlds msg on_noop change c')

  abbrev pub after_write :
      String → Option String × g.Clone → (g.Clone → Stage Unit × g.Clone) → Stage Unit × g.Clone
  after_write path (some why, c) rest = (stop (write_failed path why), c)
  after_write path (none, c) rest = rest c

  -- `for path, data := range files`: mkdir, write and stage each
  unfoldable pub write_files : g.World → Map String g.Bytes → g.Clone → Stage Unit × g.Clone
  write_files w [] c = (go_on tt, c)
  write_files w ((path, content) ∷ files) c =
      after_write path (g.write w path content c) (λ c'. write_files w files c')

  abbrev pub after_build :
      g.World → Built (Map String g.Bytes) → Option String → g.Clone → Stage Unit × g.Clone
  after_build w (not_built why) tree c = (stop (build_failed why), c)
  after_build w (built files) (some why) c = (stop (no_worktree why), c)
  after_build w (built files) none c = write_files w files c

  abbrev pub build_and_write :
      ((String → Option g.Bytes) → Built (Map String g.Bytes)) → Change Unit
  build_and_write build w c = after_build w (build (g.read_file c)) (g.worktree w) c

  -- CommitAndPushFunc
  unfoldable pub commit_and_push_func :
      (ℕ → g.World)
      → String
      → ((String → Option g.Bytes) → Built (Map String g.Bytes))
      → g.Clone
      → Outcome Unit × g.Clone
  commit_and_push_func worlds msg build c =
      push_loop max_push_retries 0 worlds msg (λ a. a) (build_and_write build) c

  -- CommitAndPush
  unfoldable pub commit_and_push :
      (ℕ → g.World) → String → Map String g.Bytes → g.Clone → Outcome Unit × g.Clone
  commit_and_push worlds msg files c = commit_and_push_func worlds msg (λ reader. built files) c
