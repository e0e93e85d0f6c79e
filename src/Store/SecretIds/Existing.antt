-- ===== src/Store/SecretIds/Existing.antt =====
-- mergeSecretEntries of internal/store/store.go from the entries of the existing file.
use aap_config_server.Base.{
  String, ◌≡◌, ◌≢◌, refl, sym, ap, ◌∙◌, true, false, Option, some, List, [], ◌∷◌, Bool-cases, inl,
  inr, map,
}
use mathlib.Core.Option.{some_inj}
use aap_config_server.Base.Eq.{agree_refl, agree-ne, ◌==◌, text_has_eq}
use aap_config_server.Base.Map.{Map, lookup, has, lookup-insert}
use aap_config_server.Base.Sort.{str_less, sort_by}
use aap_config_server.Store.Types.{SecretEntry, SecretsConfig}
use aap_config_server.Store.SecretIds.{
  SecretPointer, pointer_has_eq, SecretWrite, Merging, pointer_of, index_entry, existing_entries,
  merged_secrets, nothing_merged, index_existing,
}
use aap_config_server.Store.SecretIds.Owned.{IsOwned, lookup_still_taken, add_writes-IsStep}

-- the ids of the existing file are distinct, as its parser asks
abbrev pub AreFresh : List SecretEntry → Merging → Type 0
AreFresh [] m = Unit
AreFresh (entry ∷ entries) m =
    (has entry.id m.id_in_use ≡ false) × AreFresh entries (index_entry entry m)

index_taken :
    (entry : SecretEntry) (m : Merging)
    → entry.id ≢ ""
    → lookup entry.id (index_entry entry m).id_in_use ≡ some (pointer_of entry)
index_taken entry m filled =
    rw (agree-ne entry.id "" filled) (
      lookup-insert entry.id entry.id (pointer_of entry) m.id_in_use
      ∙ rw (agree_refl entry.id) refl)

index_still_taken :
    (entry : SecretEntry) (m : Merging) (j : String) (q : SecretPointer)
    → has entry.id m.id_in_use ≡ false
    → lookup j m.id_in_use ≡ some q
    → lookup j (index_entry entry m).id_in_use ≡ some q
index_still_taken entry m j q free at = elim (Bool-cases (entry.id == "")) [
  | inl y ↦ rw y at
  | inr n ↦ rw n (lookup_still_taken (pointer_of entry) entry.id m j q free at)
]

index_entry-IsOwned :
    (entry : SecretEntry) (m : Merging)
    → has entry.id m.id_in_use ≡ false
    → IsOwned m
    → IsOwned (index_entry entry m)
index_entry-IsOwned entry m free h = record {
  placed = λ q e at. elim (Bool-cases (pointer_of entry == q)) [
    | inl y ↦
        ap pointer_of (sym (here q e y at)) ∙ (pointer_has_eq.agree_iff (pointer_of entry) q).0 y
    | inr n ↦ h.placed q e (there q e n at)
  ];
  taken = λ q e at filled. elim (Bool-cases (pointer_of entry == q)) [
    | inl y ↦
        ap (λ x. lookup x.id (index_entry entry m).id_in_use) (sym (here q e y at))
        ∙ (index_taken entry m (λ z. filled (ap (λ x. x.id) (sym (here q e y at)) ∙ z))
            ∙ ap (λ x. some x) ((pointer_has_eq.agree_iff (pointer_of entry) q).0 y))
    | inr n ↦ index_still_taken entry m e.id q free (h.taken q e (there q e n at) filled)
  ];
}
  where
    here :
        (q : SecretPointer) (e : SecretEntry)
        → (pointer_of entry == q) ≡ true
        → lookup q (index_entry entry m).by_pointer ≡ some e
        → entry ≡ e
    here q e y at =
        some_inj.0 (sym (lookup-insert (pointer_of entry) q entry m.by_pointer ∙ rw y refl) ∙ at)

    there :
        (q : SecretPointer) (e : SecretEntry)
        → (pointer_of entry == q) ≡ false
        → lookup q (index_entry entry m).by_pointer ≡ some e
        → lookup q m.by_pointer ≡ some e
    there q e n at = sym (lookup-insert (pointer_of entry) q entry m.by_pointer ∙ rw n refl) ∙ at

index_existing-IsOwned :
    (entries : List SecretEntry) (m : Merging)
    → AreFresh entries m
    → IsOwned m
    → IsOwned (index_existing entries m)
unfolding index_existing
index_existing-IsOwned [] m fresh h = h
index_existing-IsOwned (entry ∷ entries) m fresh h =
    index_existing-IsOwned entries (index_entry entry m) fresh.1
      (index_entry-IsOwned entry m fresh.0 h)

nothing_merged-IsOwned : IsOwned nothing_merged
unfolding lookup
nothing_merged-IsOwned = record {
  placed = λ q e at. absurd (cc at);
  taken = λ q e at filled. absurd (cc at);
}

-- one id, one pointer
merged_secrets_same :
    {Value : Type 0} (existing : Option SecretsConfig) (writes : Map String (SecretWrite Value))
    (p q : SecretPointer) (e f : SecretEntry)
    → AreFresh (existing_entries existing) nothing_merged
    → lookup p (merged_secrets existing writes).by_pointer ≡ some e
    → lookup q (merged_secrets existing writes).by_pointer ≡ some f
    → e.id ≡ f.id
    → e.id ≢ ""
    → p ≡ q
unfolding merged_secrets
merged_secrets_same existing writes p q e f fresh at_p at_q same filled =
    let indexed = index_existing (existing_entries existing) nothing_merged in
    let owned = (add_writes-IsStep writes (sort_by str_less (map (λ w. w.0) writes)) indexed).0 (
      index_existing-IsOwned (existing_entries existing) nothing_merged fresh
        nothing_merged-IsOwned) in
    some_inj.0 (
      sym (owned.taken p e at_p filled)
      ∙ (ap (λ id. lookup id (merged_secrets existing writes).id_in_use) same
          ∙ owned.taken q f at_q (λ z. filled (same ∙ z))))

-- After a merge no two keys of Secrets share an id: entries under different pointers have different
-- ids, unless these are empty. The ids of the existing file are distinct.
pub merged_secrets_unique :
    {Value : Type 0} (existing : Option SecretsConfig) (writes : Map String (SecretWrite Value))
    (p q : SecretPointer) (e f : SecretEntry)
    → AreFresh (existing_entries existing) nothing_merged
    → lookup p (merged_secrets existing writes).by_pointer ≡ some e
    → lookup q (merged_secrets existing writes).by_pointer ≡ some f
    → p ≢ q
    → e.id ≢ ""
    → e.id ≢ f.id
merged_secrets_unique existing writes p q e f fresh at_p at_q differ filled same =
    differ (merged_secrets_same existing writes p q e f fresh at_p at_q same filled)

-- A merge never replaces an entry of the existing file: what the file had for a key of a Secret, its
-- id and its description, is there afterwards.
pub merged_secrets_kept :
    {Value : Type 0} (existing : Option SecretsConfig) (writes : Map String (SecretWrite Value))
    (p : SecretPointer) (e : SecretEntry)
    → lookup p (index_existing (existing_entries existing) nothing_merged).by_pointer ≡ some e
    → lookup p (merged_secrets existing writes).by_pointer ≡ some e
unfolding merged_secrets
merged_secrets_kept existing writes p e at =
    (add_writes-IsStep writes (sort_by str_less (map (λ w. w.0) writes))
        (index_existing (existing_entries existing) nothing_merged)).1
      p e at
