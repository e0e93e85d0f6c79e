-- ===== src/Store/SecretIds/Fresh.antt =====
-- uniqueSecretID of internal/store/store.go: its search ends, and the id that it finds is free.
use mathlib.Core.Option.{some_inj}
use Prim.Native.String.{String, ◌++◌}
use text.Mathlib.TextLemmas.{append_cancel_left}
use aap_config_server.Base.{
  ℕ, zero, suc, ◌<◌, ◌≤◌, ◌≡◌, refl, sym, ap, ◌∙◌, true, false, none, some, length, Bool-cases,
  Option-cases, inl, inr, arith, eq_iff,
}
use aap_config_server.Base.Eq.{◌==◌, text_has_eq}
use aap_config_server.Base.Map.{Map, remove, has}
use aap_config_server.Base.Map.Lengths.{has-remove_other, length-remove_lt}
use aap_config_server.Base.Decimal.{decimal, decimal_injective}
use aap_config_server.Store.SecretIds.{
  SecretPointer, numbered, find_free, first_free, candidates, unique_secret_id,
}

numbered_other : (base : String) (k i : ℕ) → k < i → (numbered base k == numbered base i) ≡ false
numbered_other base k i h = ground (
  arith,
  eq_iff (numbered base k) (numbered base i),
  λ (e : numbered base k ≡ numbered base i). decimal_injective k i (
      append_cancel_left "-" (decimal k) (decimal i)
        (append_cancel_left base ("-" ++ decimal k) ("-" ++ decimal i) e)),
)

-- an earlier numbered id does not matter to the search
find_free-remove :
    (fuel : ℕ) (base : String) (k i : ℕ) (m : Map String SecretPointer)
    → k < i
    → find_free fuel base i (remove (numbered base k) m) ≡ find_free fuel base i m
unfolding find_free
find_free-remove zero base k i m h = refl
find_free-remove (suc fuel) base k i m h =
    rw
      (
        has-remove_other (numbered base k) (numbered base i) m (numbered_other base k i h),
        find_free-remove fuel base k (suc i) m (omega (arith, h)),
      )
      refl

find_free_bound :
    (fuel : ℕ) (base : String) (i : ℕ) (m : Map String SecretPointer)
    → find_free fuel base i m ≡ none
    → fuel ≤ length m
unfolding find_free
find_free_bound zero base i m h = omega arith
find_free_bound (suc fuel) base i m h = elim (Bool-cases (has (numbered base i) m)) [
  | inl y ↦
      let later : find_free fuel base (suc i) m ≡ none = ground (arith, y, h) in
      omega (
        arith,
        length-remove_lt (numbered base i) m y,
        find_free_bound fuel base (suc i) (remove (numbered base i) m)
            (find_free-remove fuel base i (suc i) m (omega arith) ∙ later),
      )
  | inr n ↦ absurd (ground (arith, n, h))
]

module _ (namespace name key : String) (in_use : Map String SecretPointer) where
  -- the ids in the order in which they are tried: the key, the key behind the Secret's name, and
  -- behind its namespace and name, and this one with the numbers from 2 on
  abbrev pub form : ℕ → String
  form zero = key
  form (suc zero) = name ++ ("-" ++ key)
  form (suc (suc zero)) = namespace ++ ("-" ++ (name ++ ("-" ++ key)))
  form (suc (suc (suc k))) =
      (namespace ++ ("-" ++ (name ++ ("-" ++ key)))) ++ ("-" ++ decimal (suc (suc k)))

  -- every form before this one is in use
  abbrev pub AreUsedBelow : ℕ → Type 0
  AreUsedBelow zero = Unit
  AreUsedBelow (suc n) = AreUsedBelow n × (has (form n) in_use ≡ true)

  -- an id is the first form that is not in use
  abbrev pub IsFirstFree : String → Type 0
  IsFirstFree id = (n : ℕ) × (id ≡ form n) × (has (form n) in_use ≡ false) × AreUsedBelow n

  find_free_first :
      (fuel k : ℕ) (id : String)
      → AreUsedBelow (suc (suc (suc k)))
      → find_free fuel (namespace ++ ("-" ++ (name ++ ("-" ++ key)))) (suc (suc k)) in_use ≡ some id
      → IsFirstFree id
  unfolding find_free
  find_free_first zero k id used h = ground arith
  find_free_first (suc fuel) k id used h =
      elim (Bool-cases (has (form (suc (suc (suc k)))) in_use)) [
        | inl y ↦ find_free_first fuel (suc k) id (used, y) (rw y at h)
        | inr n ↦ (suc (suc (suc k)), some_inj.0 (sym (rw n at h)), n, used)
      ]

  first_free_first :
      (id : String) → first_free (candidates namespace name key) in_use ≡ some id → IsFirstFree id
  unfolding first_free
  first_free_first id h = elim (Bool-cases (has (form zero) in_use)) [
    | inr n ↦ (zero, some_inj.0 (sym (rw n at h)), n, tt)
    | inl y ↦ elim (Bool-cases (has (form (suc zero)) in_use)) [
      | inr n ↦ (suc zero, some_inj.0 (sym (rw (y, n) at h)), n, (tt, y))
      | inl z ↦ elim (Bool-cases (has (form (suc (suc zero))) in_use)) [
        | inr n ↦ (suc (suc zero), some_inj.0 (sym (rw (y, z, n) at h)), n, ((tt, y), z))
        | inl w ↦ absurd (cc (rw (y, z, w) at h))
      ]
    ]
  ]

  all_candidates_used :
      first_free (candidates namespace name key) in_use ≡ none → AreUsedBelow (suc (suc (suc zero)))
  unfolding first_free
  all_candidates_used h = (((tt, ground (arith, h)), ground (arith, h)), ground (arith, h))

  -- The search for an id always ends, with the first id that is not in use in this order: the key,
  -- the key behind the Secret's name, the key behind the namespace and the name, and then this
  -- longest form with the numbers from 2 on. Every id before it in that order is in use.
  pub unique_secret_id_free :
      (id : String) × (unique_secret_id namespace name key in_use ≡ some id) × IsFirstFree id
  unfolding unique_secret_id
  unique_secret_id_free =
      let base = namespace ++ ("-" ++ (name ++ ("-" ++ key))) in
      elim (Option-cases (first_free (candidates namespace name key) in_use)) [
        | inr (id, h) ↦ (id, rw h refl, first_free_first id h)
        | inl n ↦ elim (Option-cases (find_free (suc (length in_use)) base 2 in_use)) [
          | inr (id, h) ↦ (
            id,
            rw (n, h) refl,
            find_free_first (suc (length in_use)) 0 id (all_candidates_used n) h,
          )
          | inl none_free ↦
              absurd (omega (arith, find_free_bound (suc (length in_use)) base 2 in_use none_free))
        ]
      ]

  pub unique_secret_id_unused :
      (id : String) × (unique_secret_id namespace name key in_use ≡ some id)
      × (has id in_use ≡ false)
  unique_secret_id_unused =
      let (id, found, (n, same, free, used)) = unique_secret_id_free in
      (id, found, ap (λ t. has t in_use) same ∙ free)
