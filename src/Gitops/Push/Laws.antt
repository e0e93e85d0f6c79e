-- ===== src/Gitops/Push/Laws.antt =====
-- internal/gitops/repo.go: the clone never stays ahead of the remote, and a success is published.
use Prim.Native.String.{String}
use aap_config_server.Base.{
  ℕ, zero, suc, ◌≡◌, refl, sym, ap, ◌∙◌, Option, none, some, Bool-cases, inl, inr,
}
use aap_config_server.Gitops.Push.{
  PushError, is_non_fast_forward_push, PullAnswer, merged, already_up_to_date, pull_failed,
  CommitAnswer, committed, empty_commit, commit_failed, Git, Outcome, pushed, noop, err, Stage,
  go_on, stop, Attempt, finished, again, reset_to_parent, Change, after_reset, after_refusal,
  after_push, after_commit, after_change, after_pull, attempt, continue_with, push_loop,
  hash_or_empty,
}

-- What go-git documents of the head of a clone. `Accepted` holds of the commits that the remote has
-- taken.
pub record HeadLaws (g : Git) : Type 1 where
  pub Accepted : String → Type 0
  pub pull_head :
      (w : g.World) (c : g.Clone) (hash : String)
      → g.head_hash c ≡ some hash
      → Accepted hash
      → (new : String) × (g.head_hash (g.pull w c).1 ≡ some new) × Accepted new
  pub write_head :
      (w : g.World) (path : String) (content : g.Bytes) (c : g.Clone)
      → g.head_hash (g.write w path content c).1 ≡ g.head_hash c
  pub remove_head :
      (w : g.World) (path : String) (c : g.Clone)
      → g.head_hash (g.remove_all w path c).1 ≡ g.head_hash c
  pub unstage_head : (path : String) (c : g.Clone) → g.head_hash (g.unstage path c) ≡ g.head_hash c
  pub empty_head :
      (w : g.World) (msg : String) (c : g.Clone)
      → (g.commit w msg c).0 ≡ empty_commit
      → g.head_hash (g.commit w msg c).1 ≡ g.head_hash c
  pub failed_head :
      (w : g.World) (msg : String) (c : g.Clone) (why : String)
      → (g.commit w msg c).0 ≡ commit_failed why
      → g.head_hash (g.commit w msg c).1 ≡ g.head_hash c
  pub commit_head :
      (w : g.World) (msg : String) (c : g.Clone) (hash : String)
      → (g.commit w msg c).0 ≡ committed hash
      → (g.head_hash (g.commit w msg c).1 ≡ some hash)
        × (g.parent_of (g.commit w msg c).1 hash ≡ g.head_hash c)
  pub push_head :
      (w : g.World) (c : g.Clone)
      → (g.head_hash (g.push w c).1 ≡ g.head_hash c)
        × ((hash : String) → g.parent_of (g.push w c).1 hash ≡ g.parent_of c hash)
  pub push_accepted :
      (w : g.World) (c : g.Clone) (hash : String)
      → (g.push w c).0 ≡ none
      → g.head_hash c ≡ some hash
      → Accepted hash
  pub reset_head :
      (w : g.World) (parent : String) (c : g.Clone)
      → (g.hard_reset w parent c).0 ≡ none
      → g.head_hash (g.hard_reset w parent c).1 ≡ some parent

module _ (g : Git) (laws : HeadLaws g) where
  -- the head is a commit that the remote has taken
  abbrev pub IsPublished : g.Clone → Type 0
  IsPublished c = (hash : String) × (g.head_hash c ≡ some hash) × laws.Accepted hash

  -- the head is a commit on top of such a one
  abbrev IsAhead : String → g.Clone → Type 0
  IsAhead hash c =
      (parent : String) × (g.head_hash c ≡ some hash)
      × (g.parent_of c hash ≡ some parent)
      × laws.Accepted parent

  abbrev pub ResetsWork : Type 0
  ResetsWork = (w : g.World) (parent : String) (c : g.Clone) → (g.hard_reset w parent c).0 ≡ none

  same_head-IsPublished :
      (c d : g.Clone) → g.head_hash d ≡ g.head_hash c → IsPublished c → IsPublished d
  same_head-IsPublished c d e (hash, head, accepted) = (hash, e ∙ head, accepted)

  -- resetToParent gives up a commit that the remote has not taken
  reset_to_parent-IsPublished :
      (w : g.World) (hash : String) (c : g.Clone)
      → ResetsWork
      → IsAhead hash c
      → IsPublished (reset_to_parent g w c).1
  unfolding reset_to_parent
  reset_to_parent-IsPublished w hash c works (parent, head, above, accepted) =
      rw (head, above) (parent, laws.reset_head w parent c (works w parent c), accepted)

  module _ {A : Type 0} where
    -- the clone is published, and if the operation has succeeded its commit is the head
    abbrev pub Sound : Outcome A → g.Clone → Type 0
    Sound (pushed hash a) c = IsPublished c × (g.head_hash c ≡ some hash) × laws.Accepted hash
    Sound (noop hash a) c = IsPublished c × (hash ≡ hash_or_empty (g.head_hash c))
    Sound (err why) c = IsPublished c

    abbrev SoundAttempt : Attempt A → g.Clone → Type 0
    SoundAttempt (finished outcome) c = Sound outcome c
    SoundAttempt again c = IsPublished c

  after_reset-Sound :
      (A : Type 0) (r : Option String × g.Clone)
      → IsPublished r.1
      → SoundAttempt (after_reset g {A = A} r).0 (after_reset g {A = A} r).1
  after_reset-Sound A (none, c) p = p
  after_reset-Sound A (some why, c) p = p

  after_refusal-Sound :
      (A : Type 0) (w : g.World) (e : PushError) (hash : String) (c : g.Clone)
      → ResetsWork
      → IsAhead hash c
      → SoundAttempt (after_refusal g {A = A} w e c).0 (after_refusal g {A = A} w e c).1
  after_refusal-Sound A w e hash c works ahead =
      let back = reset_to_parent-IsPublished w hash c works ahead in
      elim (Bool-cases (is_non_fast_forward_push e)) [
        | inl moved ↦ rw moved (after_reset-Sound A (reset_to_parent g w c) back)
        | inr other ↦ rw other back
      ]

  module _ {A : Type 0} where
    after_push-Sound :
        (w : g.World) (hash : String) (a : A) (c : g.Clone) (r : Option PushError × g.Clone)
        → g.push w c ≡ r
        → ResetsWork
        → IsAhead hash c
        → SoundAttempt (after_push g w hash a r).0 (after_push g w hash a r).1
    after_push-Sound w hash a c (none, d) e works (parent, head, above, accepted) =
        let taken = laws.push_accepted w c hash (ap (λ r. r.0) e) head in
        let kept : g.head_hash d ≡ some hash =
          ap (λ r. g.head_hash r.1) (sym e) ∙ ((laws.push_head w c).0 ∙ head) in
        ((hash, kept, taken), kept, taken)
    after_push-Sound w hash a c (some refusal, d) e works (parent, head, above, accepted) =
        after_refusal-Sound A w refusal hash d works (
          parent,
          ap (λ r. g.head_hash r.1) (sym e) ∙ ((laws.push_head w c).0 ∙ head),
          ap (λ r. g.parent_of r.1 hash) (sym e) ∙ ((laws.push_head w c).1 hash ∙ above),
          accepted,
        )

    after_commit-Sound :
        (w : g.World) (msg : String) (on_noop : A → A) (a : A) (c : g.Clone)
        (r : CommitAnswer × g.Clone)
        → g.commit w msg c ≡ r
        → ResetsWork
        → IsPublished c
        → SoundAttempt (after_commit g w on_noop a r).0 (after_commit g w on_noop a r).1
    after_commit-Sound w msg on_noop a c (committed hash, d) e works (old, head, accepted) =
        let made = laws.commit_head w msg c hash (ap (λ r. r.0) e) in
        after_push-Sound w hash a d (g.push w d) refl works (
          old,
          ap (λ r. g.head_hash r.1) (sym e) ∙ made.0,
          ap (λ r. g.parent_of r.1 hash) (sym e) ∙ (made.1 ∙ head),
          accepted,
        )
    after_commit-Sound w msg on_noop a c (empty_commit, d) e works p = (
      same_head-IsPublished c d
          (ap (λ r. g.head_hash r.1) (sym e) ∙ laws.empty_head w msg c (ap (λ r. r.0) e)) p,
      refl,
    )
    after_commit-Sound w msg on_noop a c (commit_failed why, d) e works p =
        same_head-IsPublished c d
          (ap (λ r. g.head_hash r.1) (sym e) ∙ laws.failed_head w msg c why (ap (λ r. r.0) e)) p

    after_change-Sound :
        (w : g.World) (msg : String) (on_noop : A → A) (r : Stage A × g.Clone)
        → ResetsWork
        → IsPublished r.1
        → SoundAttempt (after_change g w msg on_noop r).0 (after_change g w msg on_noop r).1
    after_change-Sound w msg on_noop (stop why, c) works p = p
    after_change-Sound w msg on_noop (go_on a, c) works p =
        after_commit-Sound w msg on_noop a c (g.commit w msg c) refl works p

    -- a change of files that leaves the head alone
    abbrev pub KeepsHead : Change g A → Type 0
    KeepsHead change = (w : g.World) (c : g.Clone) → g.head_hash (change w c).1 ≡ g.head_hash c

    after_pull-Sound :
        (w : g.World) (msg : String) (on_noop : A → A) (change : Change g A)
        (r : PullAnswer × g.Clone)
        → ResetsWork
        → KeepsHead change
        → IsPublished r.1
        → SoundAttempt
            (after_pull g w msg on_noop change r).0
            (after_pull g w msg on_noop change r).1
    after_pull-Sound w msg on_noop change (pull_failed why, c) works keeps p = p
    after_pull-Sound w msg on_noop change (merged, c) works keeps p =
        after_change-Sound w msg on_noop (change w c) works
          (same_head-IsPublished c (change w c).1 (keeps w c) p)
    after_pull-Sound w msg on_noop change (already_up_to_date, c) works keeps p =
        after_change-Sound w msg on_noop (change w c) works
          (same_head-IsPublished c (change w c).1 (keeps w c) p)

    attempt-Sound :
        (w : g.World) (msg : String) (on_noop : A → A) (change : Change g A) (c : g.Clone)
        → ResetsWork
        → KeepsHead change
        → IsPublished c
        → SoundAttempt (attempt g w msg on_noop change c).0 (attempt g w msg on_noop change c).1
    unfolding attempt
    attempt-Sound w msg on_noop change c works keeps (hash, head, accepted) =
        after_pull-Sound w msg on_noop change (g.pull w c) works keeps
          (laws.pull_head w c hash head accepted)

    pub push_loop-Sound :
        (left i : ℕ) (worlds : ℕ → g.World) (msg : String) (on_noop : A → A) (change : Change g A)
        (c : g.Clone)
        → ResetsWork
        → KeepsHead change
        → IsPublished c
        → Sound
            (push_loop g left i worlds msg on_noop change c).0
            (push_loop g left i worlds msg on_noop change c).1
    unfolding push_loop
    push_loop-Sound zero i worlds msg on_noop change c works keeps p = p
    push_loop-Sound (suc left) i worlds msg on_noop change c works keeps p =
        continued (attempt g (worlds i) msg on_noop change c)
          (attempt-Sound (worlds i) msg on_noop change c works keeps p)
          (λ d q. push_loop-Sound left (suc i) worlds msg on_noop change d works keeps q)
      where
        continued :
            (r : Attempt A × g.Clone)
            → SoundAttempt r.0 r.1
            → ((d : g.Clone)
                → IsPublished d
                → Sound
                    (push_loop g left (suc i) worlds msg on_noop change d).0
                    (push_loop g left (suc i) worlds msg on_noop change d).1)
            → Sound
                (continue_with g r (λ d. push_loop g left (suc i) worlds msg on_noop change d)).0
                (continue_with g r (λ d. push_loop g left (suc i) worlds msg on_noop change d)).1
        continued (finished outcome, d) s later = s
        continued (again, d) s later = later d s
