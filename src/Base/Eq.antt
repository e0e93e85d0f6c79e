-- ===== src/Base/Eq.antt =====
-- Keys that can be compared: the interface that maps and counters over a key take, with its
-- instances for texts and numbers.
use Prim.Native.Nat.{ℕ}
use Prim.Native.String.{String}
use text.Mathlib.Text.{◌==◌ as str_eq}
use text.Mathlib.TextEquality.{eq_iff}
use mathlib.Core.Path.{◌≡◌, refl}
use mathlib.Core.Logic.{◌↔◌, ◌≢◌}
use mathlib.Core.Bool.{Bool, true, false}
use native.Mathlib.Omega.{arith}
use aap_config_server.Base.Tests.{nat_beq, nat_beq_iff}

pub record HasEq {ℓ} (Key : Type ℓ) : Type ℓ where
  pub agree : Key → Key → Bool
  pub agree_iff : (x y : Key) → (agree x y ≡ true) ↔ (x ≡ y)

instance abbrev pub text_has_eq : HasEq String
text_has_eq = record { agree = str_eq; agree_iff = eq_iff }

instance abbrev pub number_has_eq : HasEq ℕ
number_has_eq = record { agree = nat_beq; agree_iff = nat_beq_iff }

-- The comparison of whichever type is at hand.
infix 50 ◌==◌
abbrev pub ◌==◌ {ℓ} : {Key : Type ℓ} ⦃keys : HasEq Key⦄ (x y : Key) → Bool
◌==◌ ⦃keys⦄ x y = keys.agree x y

module _ {ℓ} {Key : Type ℓ} ⦃e : HasEq Key⦄ where
  pub agree_refl : (x : Key) → (x == x) ≡ true
  agree_refl x = (e.agree_iff x x).1 refl

  pub agree-ne : (x y : Key) → x ≢ y → (x == y) ≡ false
  agree-ne x y h = ground (arith, e.agree_iff x y)
