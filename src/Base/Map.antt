-- ===== src/Base/Map.antt =====
-- Go maps as association lists: a write replaces the entry of its key, a delete drops it, and a
-- read of a missing key gives nothing. Iteration goes in the order of the list; the code's maps
-- promise no order.
pub mod Lengths
use mathlib.Core.Path.{◌≡◌, refl, subst}
use mathlib.Core.Logic.{◌≢◌, inl, inr}
use mathlib.Core.Bool.{Bool}
use mathlib.Core.Option.{Option, none, some}
use mathlib.Core.List.{List, [], ◌∷◌, map}
use native.Mathlib.Omega.{arith}
use aap_config_server.Base.Tests.{if◌then◌else◌, is_some, Bool-cases}
use aap_config_server.Base.Lists.{All, Distinct}
use aap_config_server.Base.Eq.{HasEq, ◌==◌}

abbrev pub Map {ℓ κ} : Type ℓ → Type κ → Type (ℓ ⊔ κ)
Map K V = List (K × V)

module _ {ℓ κ} {K : Type ℓ} {V : Type κ} where
  -- `keep` says which entries stay, as a loop that deletes from the map it ranges over does.
  unfoldable pub retain : (K → V → Bool) → Map K V → Map K V
  retain keep [] = []
  retain keep ((j, w) ∷ m) = let rest = retain keep m in if keep j w then (j, w) ∷ rest else rest

  abbrev pub HasDistinctKeys : Map K V → Type ℓ
  HasDistinctKeys m = Distinct (map (λ p. p.0) m)

module _ {ℓ κ} {K : Type ℓ} {V : Type κ} ⦃e : HasEq K⦄ where
  unfoldable pub remove : K → Map K V → Map K V
  remove k [] = []
  remove k ((j, w) ∷ m) = let rest = remove k m in if j == k then rest else (j, w) ∷ rest

  unfoldable pub insert : K → V → Map K V → Map K V
  insert k new [] = (k, new) ∷ []
  insert k new ((i, old) ∷ es) = if i == k then (k, new) ∷ es else (i, old) ∷ insert k new es

  unfoldable pub lookup : K → Map K V → Option V
  lookup k [] = none
  lookup k ((i, found) ∷ es) = if i == k then some found else lookup k es

  abbrev pub has : K → Map K V → Bool
  has k m = is_some (lookup k m)

  pub lookup-insert :
      (put get : K) (new : V) (es : Map K V)
      → lookup get (insert put new es) ≡ (if put == get then some new else lookup get es)
  unfolding insert lookup
  lookup-insert put get new [] = refl
  lookup-insert put get new ((i, old) ∷ es) = ground (
    arith,
    lookup-insert put get new es,
    e.agree_iff i put,
    e.agree_iff i get,
    e.agree_iff put get,
  )

  pub lookup-remove :
      (k j : K) (m : Map K V) → lookup j (remove k m) ≡ (if k == j then none else lookup j m)
  unfolding lookup remove
  lookup-remove k j [] = ground arith
  lookup-remove k j ((i, w) ∷ m) =
      ground (arith, lookup-remove k j m, e.agree_iff i k, e.agree_iff i j, e.agree_iff k j)

-- What filtering by the entry does to a read.
abbrev pub kept {ℓ κ} : {K : Type ℓ} {V : Type κ} → (K → V → Bool) → K → Option V → Option V
kept keep k none = none
kept keep k (some v) = if keep k v then some v else none

module _ {ℓ κ} {K : Type ℓ} {V : Type κ} where
  All-retain :
      (P : K → Type ℓ) (keep : K → V → Bool) (m : Map K V)
      → All P (map (λ p. p.0) m)
      → All P (map (λ p. p.0) (retain keep m))
  unfolding retain
  All-retain P keep [] h = tt
  All-retain P keep ((j, w) ∷ m) h = elim (Bool-cases (keep j w)) [
    | inl y ↦ rw y (h.0, All-retain P keep m h.1)
    | inr n ↦ rw n (All-retain P keep m h.1)
  ]

  pub HasDistinctKeys-retain :
      (keep : K → V → Bool) (m : Map K V) → HasDistinctKeys m → HasDistinctKeys (retain keep m)
  unfolding retain
  HasDistinctKeys-retain keep [] h = tt
  HasDistinctKeys-retain keep ((j, w) ∷ m) h = elim (Bool-cases (keep j w)) [
    | inl y ↦ rw y (All-retain (λ i. j ≢ i) keep m h.0, HasDistinctKeys-retain keep m h.1)
    | inr n ↦ rw n (HasDistinctKeys-retain keep m h.1)
  ]

module _ {ℓ κ} {K : Type ℓ} {V : Type κ} ⦃e : HasEq K⦄ where
  pub lookup_absent :
      (j k : K) (m : Map K V) → j ≡ k → All (λ i. j ≢ i) (map (λ p. p.0) m) → lookup k m ≡ none
  unfolding lookup
  lookup_absent j k [] p h = refl
  lookup_absent j k ((i, w) ∷ m) p h =
      ground (arith, e.agree_iff i k, h.0, lookup_absent j k m p h.1)

  pub lookup-retain :
      (keep : K → V → Bool) (k : K) (m : Map K V)
      → HasDistinctKeys m
      → lookup k (retain keep m) ≡ kept keep k (lookup k m)
  unfolding lookup retain
  lookup-retain keep k [] h = refl
  lookup-retain keep k ((j, w) ∷ m) h =
      ground (
        arith,
        e.agree_iff j k,
        lookup-retain keep k m h.1,
        λ (p : j ≡ k). lookup_absent j k m p h.0,
      )

  All-insert :
      (P : K → Type ℓ) (k : K) (v : V) (m : Map K V)
      → P k
      → All P (map (λ p. p.0) m)
      → All P (map (λ p. p.0) (insert k v m))
  unfolding insert
  All-insert P k v [] p h = (p, tt)
  All-insert P k v ((j, w) ∷ m) p h = elim (Bool-cases (j == k)) [
    | inl y ↦ rw y (p, h.1)
    | inr n ↦ rw n (h.0, All-insert P k v m p h.1)
  ]

  pub HasDistinctKeys-insert :
      (k : K) (v : V) (m : Map K V) → HasDistinctKeys m → HasDistinctKeys (insert k v m)
  unfolding insert
  HasDistinctKeys-insert k v [] h = (tt, tt)
  HasDistinctKeys-insert k v ((j, w) ∷ m) h = elim (Bool-cases (j == k)) [
    | inl y ↦
        rw y (subst (λ i. All (λ x. i ≢ x) (map (λ p. p.0) m)) ((e.agree_iff j k).0 y) h.0, h.1)
    | inr n ↦ rw n (
      All-insert (λ i. j ≢ i) k v m (λ p. cc ((e.agree_iff j k).1 p, n)) h.0,
      HasDistinctKeys-insert k v m h.1,
    )
  ]
