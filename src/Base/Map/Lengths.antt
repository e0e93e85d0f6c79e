-- ===== src/Base/Map/Lengths.antt =====
-- How many entries a Go map has: what a delete leaves, and maps with the same keys.
use mathlib.Core.Path.{◌≡◌, refl, ap, ◌∙◌}
use mathlib.Core.Logic.{inl, inr}
use mathlib.Core.Bool.{true, false}
use mathlib.Core.List.{[], ◌∷◌}
use Prim.Native.Nat.{◌≤◌, ◌<◌}
use native.Mathlib.Omega.{arith}
use aap_config_server.Base.Tests.{is_some, Bool-cases}
use aap_config_server.Base.Lists.{length}
use aap_config_server.Base.Eq.{HasEq, ◌==◌}
use aap_config_server.Base.Map.{
  Map, HasDistinctKeys, remove, lookup, has, lookup-remove, lookup_absent,
}

module _ {K V : Type 0} ⦃e : HasEq K⦄ where
  pub has-remove_other : (k j : K) (m : Map K V) → (k == j) ≡ false → has j (remove k m) ≡ has j m
  has-remove_other k j m n = ap is_some (lookup-remove k j m ∙ rw n refl)

  length-remove_le : (k : K) (m : Map K V) → length (remove k m) ≤ length m
  unfolding remove
  length-remove_le k [] = omega arith
  length-remove_le k ((i, v) ∷ m) = ground (arith, length-remove_le k m)

  pub length-remove_lt : (k : K) (m : Map K V) → has k m ≡ true → length (remove k m) < length m
  unfolding remove lookup
  length-remove_lt k [] h = ground arith
  length-remove_lt k ((i, v) ∷ m) h =
      ground (arith, length-remove_le k m, λ (p : has k m ≡ true). length-remove_lt k m p)

  -- what lies behind an entry with another key than every later one
  pub has_behind :
      (i r : K) (v : V) (m : Map K V)
      → HasDistinctKeys ((i, v) ∷ m)
      → has r m ≡ true
      → ((i == r) ≡ false) × (has r ((i, v) ∷ m) ≡ true)
  unfolding lookup
  has_behind i r v m h there = elim (Bool-cases (i == r)) [
    | inl y ↦ absurd (ground (arith, there, lookup_absent i r m ((e.agree_iff i r).0 y) h.0))
    | inr n ↦ (n, ground (arith, n, there))
  ]

  pub has_first : (i : K) (v : V) (m : Map K V) → has i ((i, v) ∷ m) ≡ true
  unfolding lookup
  has_first i v m = let same : (i == i) ≡ true = (e.agree_iff i i).1 refl in rw same refl

  -- the keys of the tail are keys of the other map without the first key
  tail_below :
      (i r : K) (v : V) (m other : Map K V)
      → HasDistinctKeys ((i, v) ∷ m)
      → ((r : K) → has r ((i, v) ∷ m) ≡ true → has r other ≡ true)
      → has r m ≡ true
      → has r (remove i other) ≡ true
  tail_below i r v m other h sub there =
      let (other_key, further) = has_behind i r v m h there in
      has-remove_other i r other other_key ∙ sub r further

  -- a map with distinct keys that are all in another one is not longer
  pub length_le :
      (m other : Map K V)
      → HasDistinctKeys m
      → ((r : K) → has r m ≡ true → has r other ≡ true)
      → length m ≤ length other
  length_le [] other h sub = omega arith
  length_le ((i, v) ∷ m) other h sub = omega (
    arith,
    length-remove_lt i other (sub i (has_first i v m)),
    length_le m (remove i other) h.1 (λ r there. tail_below i r v m other h sub there),
  )

  -- and is shorter if the other has a key more
  pub length_lt :
      (m other : Map K V) (x : K)
      → HasDistinctKeys m
      → ((r : K) → has r m ≡ true → has r other ≡ true)
      → has x other ≡ true
      → has x m ≡ false
      → length m < length other
  unfolding lookup
  length_lt [] [] x h sub there absent = ground arith
  length_lt [] (o ∷ other) x h sub there absent = omega arith
  length_lt ((i, v) ∷ m) other x h sub there absent =
      let differ : (i == x) ≡ false = ground (arith, absent) in
      let later : has x m ≡ false = ground (arith, absent, differ) in
      omega (
        arith,
        length-remove_lt i other (sub i (has_first i v m)),
        length_lt m (remove i other) x h.1 (λ r there. tail_below i r v m other h sub there)
            (has-remove_other i x other differ ∙ there) later,
      )
