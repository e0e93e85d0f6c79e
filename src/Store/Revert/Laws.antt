-- ===== src/Store/Revert/Laws.antt =====
-- The plan of PrepareRevert in internal/store/store.go leads to the target's files.
use Prim.Native.String.{String, ◌++◌}
use aap_config_server.Base.{
  ◌≡◌, ◌≢◌, ◌↔◌, refl, ap, ◌∙◌, Bool, true, false, not, ◌&&◌, ◌||◌, Option, none, some, List, [],
  ◌∷◌, map, if◌then◌else◌, is_some, Bool-cases, inl, inr, arith, eq_iff,
}
use aap_config_server.Base.Eq.{HasEq, ◌==◌, text_has_eq}
use aap_config_server.Base.Map.{Map, lookup, insert, has, lookup-insert, HasDistinctKeys}
use aap_config_server.Base.Sort.{str_less, sort_by, insert_by}
use aap_config_server.Base.Text.{cut_prefix-append, cut_prefix_sound}
use aap_config_server.Store.Paths.{service_path}
use aap_config_server.Store.Listing.{contains}
use aap_config_server.Store.Revert.Equal.{same_files_sound, same_files_complete}
use aap_config_server.Store.Revert.{
  RevertRequest, sorted_map_keys, keys_missing, service_relative_path, joined, put_file, put_files,
  revert_plan, put_relative, relative_files, revert_plan_files_by_path,
}

contains-insert_by :
    (r x : String) (ys : List String)
    → contains r (insert_by str_less x ys) ≡ (x == r) || contains r ys
unfolding contains insert_by
contains-insert_by r x [] = refl
contains-insert_by r x (y ∷ ys) = elim (Bool-cases (str_less y x)) [
  | inl l ↦ rw l (ground (arith, contains-insert_by r x ys))
  | inr l ↦ rw l refl
]

pub contains-sort_by :
    (r : String) (xs : List String) → contains r (sort_by str_less xs) ≡ contains r xs
unfolding contains sort_by
contains-sort_by r [] = refl
contains-sort_by r (x ∷ xs) =
    contains-insert_by r x (sort_by str_less xs) ∙ ap (λ b. (x == r) || b) (contains-sort_by r xs)

module _ (svc_path : String) where
  relative-joined : (rel : String) → service_relative_path svc_path (joined svc_path rel) ≡ some rel
  relative-joined rel = cut_prefix-append (svc_path ++ "/") rel

  joined-ne :
      (path rel : String)
      → (path == joined svc_path rel) ≡ false
      → service_relative_path svc_path path ≢ some rel
  joined-ne path rel n e = absurd (
      ground (
        arith,
        n,
        eq_iff path (joined svc_path rel),
        cut_prefix_sound (svc_path ++ "/") path rel e,
      ))

module _ {Bytes : Type 0} where
  pub contains-keys : (r : String) (m : Map String Bytes) → contains r (map (λ e. e.0) m) ≡ has r m
  unfolding contains lookup
  contains-keys r [] = refl
  contains-keys r ((i, d) ∷ m) = ground (arith, contains-keys r m)

  contains-keys_missing :
      (r : String) (current target : Map String Bytes)
      → contains r (keys_missing current target) ≡ (has r current && not (has r target))
  unfolding contains keys_missing lookup
  contains-keys_missing r [] target = refl
  contains-keys_missing r ((i, d) ∷ current) target = elim (Bool-cases (i == r)) [
    | inl y ↦
        let same : has i target ≡ has r target =
          ap (λ t. has t target) ((text_has_eq.agree_iff i r).0 y) in
        ground (arith, y, same, contains-keys_missing r current target)
    | inr n ↦ ground (arith, n, contains-keys_missing r current target)
  ]

  module _ (svc_path : String) where
    lookup-relative_insert :
        (rel r : String) (d : Bytes) (files : Map String Bytes)
        → lookup r (relative_files svc_path (insert (joined svc_path rel) d files))
          ≡ (if rel == r then some d else lookup r (relative_files svc_path files))
    unfolding relative_files insert
    lookup-relative_insert rel r d [] = rw (relative-joined svc_path rel) (lookup-insert rel r d [])
    lookup-relative_insert rel r d ((p, w) ∷ files) = elim (Bool-cases (p == joined svc_path rel)) [
      | inl y ↦
          let found : service_relative_path svc_path p ≡ some rel =
            ap (service_relative_path svc_path)
              ((text_has_eq.agree_iff p (joined svc_path rel)).0 y)
            ∙ relative-joined svc_path rel in
          let rest = relative_files svc_path files in
          rw (y, relative-joined svc_path rel, found)
            (ground (arith, lookup-insert rel r d rest, lookup-insert rel r w rest))
      | inr n ↦ rw n (
          placed (service_relative_path svc_path p) (joined-ne svc_path p rel n)
            (relative_files svc_path (insert (joined svc_path rel) d files))
            (relative_files svc_path files) (lookup-relative_insert rel r d files))
    ]
      where
        placed :
            (o : Option String)
            → o ≢ some rel
            → (new old : Map String Bytes)
            → lookup r new ≡ (if rel == r then some d else lookup r old)
            → lookup r (put_relative o w new)
              ≡ (if rel == r then some d else lookup r (put_relative o w old))
        placed none other new old h = h
        placed (some x) other new old h =
            let differ : x ≢ rel = λ e. other (ap (λ t. some t) e) in
            ground (
              arith,
              h,
              lookup-insert x r w new,
              lookup-insert x r w old,
              eq_iff x r,
              eq_iff rel r,
              differ,
            )

    lookup-put_file :
        (rel r : String) (o : Option Bytes) (files : Map String Bytes)
        → lookup r (relative_files svc_path (put_file (joined svc_path rel) o files))
          ≡ (if rel == r && is_some o then o else lookup r (relative_files svc_path files))
    lookup-put_file rel r none files = ground arith
    lookup-put_file rel r (some d) files = lookup-relative_insert rel r d files ∙ ground arith

    lookup-put_files :
        (target : Map String Bytes) (r : String) (rels : List String) (files : Map String Bytes)
        → lookup r (relative_files svc_path (put_files svc_path target rels files)) ≡ (
            if contains r rels && has r target
            then lookup r target
            else lookup r (relative_files svc_path files))
    unfolding put_files contains
    lookup-put_files target r [] files = refl
    lookup-put_files target r (rel ∷ rels) files =
        lookup-put_files target r rels (put_file (joined svc_path rel) (lookup rel target) files)
        ∙ elim (Bool-cases (rel == r)) [
          | inl y ↦
              let same : lookup rel target ≡ lookup r target =
                ap (λ t. lookup t target) ((text_has_eq.agree_iff rel r).0 y) in
              ground (arith, y, same, lookup-put_file rel r (lookup rel target) files)
          | inr n ↦ ground (arith, n, lookup-put_file rel r (lookup rel target) files)
        ]

all_listed :
    {Bytes : Type 0} (listed : Bool) (o rest : Option Bytes)
    → listed ≡ is_some o
    → rest ≡ none
    → (if listed && is_some o then o else rest) ≡ o
all_listed listed none rest h n = ground arith
all_listed listed (some d) rest h n = ground arith

nothing_relative :
    {Bytes : Type 0} (svc_path r : String)
    → lookup r (relative_files {Bytes = Bytes} svc_path []) ≡ none
unfolding relative_files lookup
nothing_relative svc_path r = refl

-- The plan of a revert leads to the target: its files, taken below the service's directory, are
-- those of the target commit; it deletes exactly the files that only the current commit has; and it
-- says that nothing is to be done exactly if the two commits have the same files with the same
-- contents. Each commit's files have distinct paths.
pub revert_plan_restores :
    {Bytes : Type 0} ⦃e : HasEq Bytes⦄ (trim_space : String → String) (req : RevertRequest)
    (target current : Map String Bytes)
    → HasDistinctKeys target
    → HasDistinctKeys current
    → ((r : String)
        → (lookup r (revert_plan_files_by_path (revert_plan trim_space req target current))
            ≡ lookup r target)
          × (contains r (revert_plan trim_space req target current).deleted_files
              ≡ (has r current && not (has r target))))
      × (((revert_plan trim_space req target current).noop ≡ true)
          ↔ ((r : String) → lookup r current ≡ lookup r target))
unfolding revert_plan
revert_plan_restores trim_space req target current t c =
    let svc_path = service_path req.org req.project req.service in
    (
      λ r. (
        lookup-put_files svc_path target r (sorted_map_keys target) []
            ∙ all_listed (contains r (sorted_map_keys target)) (lookup r target)
                (lookup r (relative_files svc_path []))
                (contains-sort_by r (map (λ f. f.0) target) ∙ contains-keys r target)
                (nothing_relative svc_path r),
        contains-sort_by r (keys_missing current target) ∙ contains-keys_missing r current target,
      ),
      (same_files_sound current target t, same_files_complete current target c t),
    )
