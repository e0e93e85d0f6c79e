-- ===== src/Base/Tests.antt =====
-- Boolean tests on the native numbers, the conditional, and case splits that keep an equation.
use Prim.Native.Nat.{ℕ, compare, Ordering}
use mathlib.Core.Path.{◌≡◌, refl}
use mathlib.Core.Logic.{◌↔◌, ◌⊎◌, inl, inr}
use mathlib.Core.Bool.{Bool, true, false, ◌&&◌}
use mathlib.Core.Option.{Option, none, some}
use mathlib.Core.List.{List, [], ◌∷◌}
use native.Mathlib.Omega.{arith}

-- These compute to `compare`, which `ground` and `grind` read with no lemma listed.
abbrev pub ltb : ℕ → ℕ → Bool
ltb a b = elim (compare a b) [ Ordering.lt ↦ true | _ ↦ false ]

abbrev pub leb : ℕ → ℕ → Bool
leb a b = elim (compare a b) [ Ordering.gt ↦ false | _ ↦ true ]

abbrev pub nat_beq : ℕ → ℕ → Bool
nat_beq a b = elim (compare a b) [ Ordering.eq ↦ true | _ ↦ false ]

infix 1 if◌then◌else◌
abbrev pub if◌then◌else◌ {ℓ} : {A : Type ℓ} → Bool → A → A → A
if true then x else y = x
if false then x else y = y

pub nat_beq_iff : (a b : ℕ) → (nat_beq a b ≡ true) ↔ (a ≡ b)
nat_beq_iff a b = ground arith

pub Bool-cases : (b : Bool) → (b ≡ true) ⊎ (b ≡ false)
Bool-cases true = inl refl
Bool-cases false = inr refl

pub Option-cases {ℓ} : {A : Type ℓ} (o : Option A) → (o ≡ none) ⊎ ((a : A) × (o ≡ some a))
Option-cases none = inl refl
Option-cases (some a) = inr (a, refl)

abbrev pub is_some {ℓ} : {A : Type ℓ} → Option A → Bool
is_some none = false
is_some (some a) = true

-- The first error of a chain of checks, where none is success.
abbrev pub or_then {ℓ} : {E : Type ℓ} → Option E → Option E → Option E
or_then (some why) later = some why
or_then none later = later

abbrev pub is_ok {ℓ} : {E : Type ℓ} → Option E → Bool
is_ok none = true
is_ok (some why) = false

pub is_ok-or_then {ℓ} :
    {E : Type ℓ} (early later : Option E) → is_ok (or_then early later) ≡ is_ok early && is_ok later
is_ok-or_then none later = refl
is_ok-or_then (some why) later = refl

pub or_then-none {ℓ} :
    {E : Type ℓ} (early later : Option E)
    → or_then early later ≡ none
    → (early ≡ none) × (later ≡ none)
or_then-none none later h = (refl, h)
or_then-none (some why) later h = absurd (cc h)

-- A chain of guards, each with what a passed guard answers, of which the first one that holds ends it.
abbrev pub first_error {ℓ} : {E : Type ℓ} → List (Bool × E) → Option E
first_error [] = none
first_error ((failing, why) ∷ guards) =
    let rest = first_error guards in if failing then some why else rest

abbrev pub NoneFails {ℓ} : {E : Type ℓ} → List (Bool × E) → Type ℓ
NoneFails [] = Unit
NoneFails ((failing, why) ∷ guards) = (failing ≡ false) × NoneFails guards

guard_step {ℓ} :
    {E : Type ℓ} (failing : Bool) (why : E) (rest : Option E)
    → (if failing then some why else rest) ≡ none
    → (failing ≡ false) × (rest ≡ none)
guard_step true why rest h = absurd (cc h)
guard_step false why rest h = (refl, h)

pub first_error-NoneFails {ℓ} :
    {E : Type ℓ} (guards : List (Bool × E)) → first_error guards ≡ none → NoneFails guards
first_error-NoneFails [] h = tt
first_error-NoneFails ((failing, why) ∷ guards) h =
    let both = guard_step failing why (first_error guards) h in
    (both.0, first_error-NoneFails guards both.1)
