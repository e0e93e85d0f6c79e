-- ===== src/Store/SecretIds/Owned.antt =====
-- mergeSecretEntries of internal/store/store.go keeps its two maps in step: ids stay unique, and an
-- entry that exists is never replaced.
use aap_config_server.Base.{
  String, ◌≡◌, ◌≢◌, refl, sym, ap, ◌∙◌, true, false, Option, none, some, List, [], ◌∷◌, is_some,
  Bool-cases, inl, inr, arith, map,
}
use mathlib.Core.Option.{some_inj}
use aap_config_server.Base.Eq.{agree_refl, ◌==◌, text_has_eq}
use aap_config_server.Base.Map.{Map, lookup, has, lookup-insert}
use aap_config_server.Base.Sort.{str_less, sort_by}
use aap_config_server.Store.Types.{SecretEntry}
use aap_config_server.Store.SecretIds.{
  SecretPointer, pointer_has_eq, SecretWrite, Merging, pointer_of, new_entry, with_id, add_pointer,
  add_keys, add_writes, add_write,
}
use aap_config_server.Store.SecretIds.Fresh.{unique_secret_id_unused}

-- every entry stands under its own pointer, and its id, if it has one, is taken by that pointer
pub record IsOwned (m : Merging) : Type 0 where
  pub placed :
      (ptr : SecretPointer) (e : SecretEntry)
      → lookup ptr m.by_pointer ≡ some e
      → pointer_of e ≡ ptr
  pub taken :
      (ptr : SecretPointer) (e : SecretEntry)
      → lookup ptr m.by_pointer ≡ some e
      → e.id ≢ ""
      → lookup e.id m.id_in_use ≡ some ptr

module _ (ptr : SecretPointer) (id : String) (m : Merging) where
  lookup_new :
      (q : SecretPointer) (e : SecretEntry)
      → (ptr == q) ≡ true
      → lookup q (with_id ptr (some id) m).by_pointer ≡ some e
      → new_entry ptr id ≡ e
  lookup_new q e y at =
      some_inj.0 (sym (lookup-insert ptr q (new_entry ptr id) m.by_pointer ∙ rw y refl) ∙ at)

  lookup_old :
      (q : SecretPointer) (e : SecretEntry)
      → (ptr == q) ≡ false
      → lookup q (with_id ptr (some id) m).by_pointer ≡ some e
      → lookup q m.by_pointer ≡ some e
  lookup_old q e n at = sym (lookup-insert ptr q (new_entry ptr id) m.by_pointer ∙ rw n refl) ∙ at

  lookup_taken : lookup id (with_id ptr (some id) m).id_in_use ≡ some ptr
  lookup_taken = lookup-insert id id ptr m.id_in_use ∙ rw (agree_refl id) refl

  pub lookup_still_taken :
      (j : String) (q : SecretPointer)
      → has id m.id_in_use ≡ false
      → lookup j m.id_in_use ≡ some q
      → lookup j (with_id ptr (some id) m).id_in_use ≡ some q
  lookup_still_taken j q free at = elim (Bool-cases (id == j)) [
    | inl y ↦
        let same : id ≡ j = (text_has_eq.agree_iff id j).0 y in
        absurd (ground (arith, free, ap (λ t. has t m.id_in_use) same, ap is_some at))
    | inr n ↦ lookup-insert id j ptr m.id_in_use ∙ rw n at
  ]

  with_id-IsOwned : has id m.id_in_use ≡ false → IsOwned m → IsOwned (with_id ptr (some id) m)
  with_id-IsOwned free h = record {
    placed = λ q e at. elim (Bool-cases (ptr == q)) [
      | inl y ↦ ap pointer_of (sym (lookup_new q e y at)) ∙ (pointer_has_eq.agree_iff ptr q).0 y
      | inr n ↦ h.placed q e (lookup_old q e n at)
    ];
    taken = λ q e at filled. elim (Bool-cases (ptr == q)) [
      | inl y ↦
          ap (λ x. lookup x.id (with_id ptr (some id) m).id_in_use) (sym (lookup_new q e y at))
          ∙ (lookup_taken ∙ ap (λ x. some x) ((pointer_has_eq.agree_iff ptr q).0 y))
      | inr n ↦ lookup_still_taken e.id q free (h.taken q e (lookup_old q e n at) filled)
    ];
  }

-- the entries of `m` are entries of `n`
abbrev pub Extends : Merging → Merging → Type 0
Extends m n =
    (q : SecretPointer) (e : SecretEntry)
    → lookup q m.by_pointer ≡ some e
    → lookup q n.by_pointer ≡ some e

-- what a step of the merge keeps
abbrev pub IsStep : Merging → Merging → Type 0
IsStep m n = (IsOwned m → IsOwned n) × Extends m n

IsStep-trans : (l m n : Merging) → IsStep l m → IsStep m n → IsStep l n
IsStep-trans l m n (o, e) (p, f) = (λ h. p (o h), λ q x at. f q x (e q x at))

with_id-Extends :
    (ptr : SecretPointer) (id : String) (m : Merging)
    → has ptr m.by_pointer ≡ false
    → Extends m (with_id ptr (some id) m)
with_id-Extends ptr id m absent q e at = elim (Bool-cases (ptr == q)) [
  | inl y ↦
      let same : ptr ≡ q = (pointer_has_eq.agree_iff ptr q).0 y in
      absurd (ground (arith, absent, ap (λ t. has t m.by_pointer) same, ap is_some at))
  | inr n ↦ lookup-insert ptr q (new_entry ptr id) m.by_pointer ∙ rw n at
]

add_pointer-IsStep : (ptr : SecretPointer) (m : Merging) → IsStep m (add_pointer ptr m)
unfolding add_pointer
add_pointer-IsStep ptr m = elim (Bool-cases (has ptr m.by_pointer)) [
  | inl y ↦ rw y (λ h. h, λ q e at. at)
  | inr n ↦
      let (id, found, free) = unique_secret_id_unused ptr.namespace ptr.name ptr.key m.id_in_use in
      rw (n, found) (with_id-IsOwned ptr id m free, with_id-Extends ptr id m n)
]

add_keys-IsStep :
    (namespace name : String) (keys : List String) (m : Merging)
    → IsStep m (add_keys namespace name keys m)
unfolding add_keys
add_keys-IsStep namespace name [] m = (λ h. h, λ q e at. at)
add_keys-IsStep namespace name (key ∷ keys) m =
    let ptr : SecretPointer = record { namespace = namespace; name = name; key = key } in
    IsStep-trans m (add_pointer ptr m) (add_keys namespace name keys (add_pointer ptr m))
      (add_pointer-IsStep ptr m) (add_keys-IsStep namespace name keys (add_pointer ptr m))

add_write-IsStep :
    {Value : Type 0} (name : String) (write : Option (SecretWrite Value)) (m : Merging)
    → IsStep m (add_write name write m)
add_write-IsStep name none m = (λ h. h, λ q e at. at)
add_write-IsStep name (some write) m =
    add_keys-IsStep write.namespace name (sort_by str_less (map (λ e. e.0) write.secret_data)) m

pub add_writes-IsStep :
    {Value : Type 0} (writes : Map String (SecretWrite Value)) (names : List String) (m : Merging)
    → IsStep m (add_writes writes names m)
unfolding add_writes
add_writes-IsStep writes [] m = (λ h. h, λ q e at. at)
add_writes-IsStep writes (name ∷ names) m =
    IsStep-trans m (add_write name (lookup name writes) m)
      (add_writes writes names (add_write name (lookup name writes) m))
      (add_write-IsStep name (lookup name writes) m)
      (add_writes-IsStep writes names (add_write name (lookup name writes) m))
