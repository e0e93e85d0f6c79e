-- ===== src/Base/Decimal.antt =====
-- `fmt.Sprintf("%d", n)` for natural numbers, and reading it back.
use Prim.Native.Char.{Char, code}
use Prim.Native.String.{String, ◌++◌}
use Prim.Native.String.append
use Prim.Native.Nat.{ℕ, zero, suc, ◌+◌, ◌-◌, ◌*◌, ◌/◌, ◌%◌, ◌<◌}
use mathlib.Core.Path.{◌≡◌, refl, sym, ap, ◌∙◌}
use mathlib.Core.Logic.{inl, inr}
use native.Mathlib.Omega.{arith}
use aap_config_server.Base.Tests.{ltb, if◌then◌else◌, Bool-cases}

abbrev digit : ℕ → Char
digit zero = "0"
digit (suc zero) = "1"
digit (suc (suc zero)) = "2"
digit (suc (suc (suc zero))) = "3"
digit (suc (suc (suc (suc zero)))) = "4"
digit (suc (suc (suc (suc (suc zero))))) = "5"
digit (suc (suc (suc (suc (suc (suc zero)))))) = "6"
digit (suc (suc (suc (suc (suc (suc (suc zero))))))) = "7"
digit (suc (suc (suc (suc (suc (suc (suc (suc zero)))))))) = "8"
digit n = "9"

-- `fuel` bounds the number of digits.
unfoldable digits : ℕ → ℕ → String
digits zero n = String.[]
digits (suc fuel) n =
    let front = digits fuel (n / 10) in
    if ltb n 10
    then String.◌∷◌ (digit n) String.[]
    else front ++ String.◌∷◌ (digit (n % 10)) String.[]

unfoldable pub decimal : ℕ → String
unfolding digits
decimal n = digits (suc n) n

unfoldable value : ℕ → String → ℕ
value acc String.[] = acc
value acc (String.◌∷◌ c s) = value (acc * 10 + (code c - 48)) s

value-append :
    (acc : ℕ) (s : String) (c : Char)
    → value acc (s ++ String.◌∷◌ c String.[]) ≡ value acc s * 10 + (code c - 48)
unfolding value
value-append acc String.[] c = rw (append.nil (String.◌∷◌ c String.[])) refl
value-append acc (String.◌∷◌ d s) c =
    rw (append.cons d s (String.◌∷◌ c String.[])) (value-append (acc * 10 + (code d - 48)) s c)

code-digit : (d : ℕ) → d < 10 → code (digit d) - 48 ≡ d
code-digit zero h = refl
code-digit (suc zero) h = refl
code-digit (suc (suc zero)) h = refl
code-digit (suc (suc (suc zero))) h = refl
code-digit (suc (suc (suc (suc zero)))) h = refl
code-digit (suc (suc (suc (suc (suc zero))))) h = refl
code-digit (suc (suc (suc (suc (suc (suc zero)))))) h = refl
code-digit (suc (suc (suc (suc (suc (suc (suc zero))))))) h = refl
code-digit (suc (suc (suc (suc (suc (suc (suc (suc zero)))))))) h = refl
code-digit (suc (suc (suc (suc (suc (suc (suc (suc (suc zero))))))))) h = refl
code-digit (suc (suc (suc (suc (suc (suc (suc (suc (suc (suc n)))))))))) h =
    absurd (omega (arith, h))

value-digits : (fuel n : ℕ) → n < fuel → value 0 (digits fuel n) ≡ n
unfolding digits value
value-digits zero n h = absurd (omega (arith, h))
value-digits (suc fuel) n h = elim (Bool-cases (ltb n 10)) [
  | inl y ↦ rw y (omega (arith, code-digit n (ground (arith, y))))
  | inr k ↦ rw k (
      value-append 0 (digits fuel (n / 10)) (digit (n % 10))
      ∙ omega (
        arith,
        value-digits fuel (n / 10) (ground (arith, k, h)),
        code-digit (n % 10) (omega arith),
      ))
]

pub decimal_injective : (i j : ℕ) → decimal i ≡ decimal j → i ≡ j
unfolding decimal
decimal_injective i j h =
    sym (value-digits (suc i) i (omega arith))
    ∙ (ap (value 0) h ∙ value-digits (suc j) j (omega arith))
