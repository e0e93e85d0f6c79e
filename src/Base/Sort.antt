-- ===== src/Base/Sort.antt =====
-- Go's `sort.Slice` and `sort.Strings`: insertion sort by the code's `less`.
use Prim.Native.String.{String, compare}
use text.Mathlib.Text.{is_lt}
use mathlib.Core.Bool.{Bool, true, false}
use mathlib.Core.List.{List, [], ◌∷◌, Perm}
use mathlib.Core.List.Perm
use aap_config_server.Base.Tests.{if◌then◌else◌}

-- `s < t` on Go strings, in the order of their bytes
abbrev pub str_less : String → String → Bool
str_less s t = is_lt (compare s t)

module _ {ℓ} {A : Type ℓ} (less : A → A → Bool) where
  unfoldable pub insert_by : A → List A → List A
  insert_by x [] = x ∷ []
  insert_by x (y ∷ ys) = if less y x then y ∷ insert_by x ys else x ∷ y ∷ ys

  unfoldable pub sort_by : List A → List A
  unfolding insert_by
  sort_by [] = []
  sort_by (x ∷ xs) = insert_by x (sort_by xs)

  insert_by-Perm : (x : A) (ys : List A) → Perm (insert_by x ys) (x ∷ ys)
  unfolding insert_by
  insert_by-Perm x [] = Perm.refl (x ∷ [])
  insert_by-Perm x (y ∷ ys) = pick (less y x) (insert_by-Perm x ys)
    where
      pick :
          (b : Bool)
          → Perm (insert_by x ys) (x ∷ ys)
          → Perm (if b then y ∷ insert_by x ys else x ∷ y ∷ ys) (x ∷ y ∷ ys)
      pick true ih = Perm.trans (Perm.cons y ih) (Perm.swap x y ys)
      pick false ih = Perm.refl (x ∷ y ∷ ys)

  -- Sorting loses and adds nothing.
  pub sort_by-Perm : (xs : List A) → Perm (sort_by xs) xs
  unfolding sort_by
  sort_by-Perm [] = Perm.refl []
  sort_by-Perm (x ∷ xs) = Perm.trans (insert_by-Perm x (sort_by xs)) (Perm.cons x (sort_by-Perm xs))
