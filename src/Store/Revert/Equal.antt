-- ===== src/Store/Revert/Equal.antt =====
-- internal/store/store.go, serviceFilesEqual: when it takes two commits' files for the same.
use mathlib.Core.Option.{some_inj}
use aap_config_server.Base.{
  String, ◌≡◌, refl, sym, ap, ◌∙◌, true, false, Option, none, some, [], ◌∷◌, is_some, Bool-cases,
  inl, inr, arith,
}
use aap_config_server.Base.Eq.{HasEq, ◌==◌, text_has_eq}
use aap_config_server.Base.Map.{Map, lookup, has, HasDistinctKeys}
use aap_config_server.Base.Map.Lengths.{has_behind, has_first, length_le, length_lt}
use aap_config_server.Store.Revert.{agrees_with, all_agree, service_files_equal}

all_agree_sound :
    {Bytes : Type 0} ⦃e : HasEq Bytes⦄ (r : String) (current target : Map String Bytes)
    → all_agree current target ≡ true
    → has r target ≡ true
    → lookup r current ≡ lookup r target
unfolding all_agree lookup
all_agree_sound r current [] h there = ground arith
all_agree_sound {Bytes = Bytes} ⦃e⦄ r current ((i, d) ∷ target) h there =
    elim (Bool-cases (i == r)) [
      | inl y ↦ rw y (
          ap (λ t. lookup t current) (sym ((text_has_eq.agree_iff i r).0 y))
          ∙ agreed (lookup i current) (ground (arith, h)))
      | inr n ↦
          rw n (all_agree_sound r current target (ground (arith, h)) (ground (arith, n, there)))
    ]
  where
    agreed : (o : Option Bytes) → agrees_with o d ≡ true → o ≡ some d
    agreed none k = ground arith
    agreed (some c) k = ap (λ x. some x) ((e.agree_iff c d).0 k)

module _ {Bytes : Type 0} ⦃e : HasEq Bytes⦄ where
  both_absent : (o p : Option Bytes) → is_some o ≡ false → is_some p ≡ false → o ≡ p
  both_absent none none h k = refl
  both_absent (some c) p h k = ground arith
  both_absent none (some d) h k = ground arith

  pub same_files_sound :
      (current target : Map String Bytes)
      → HasDistinctKeys target
      → service_files_equal current target ≡ true
      → (r : String) → lookup r current ≡ lookup r target
  same_files_sound current target t h r = elim (Bool-cases (has r target)) [
    | inl there ↦ all_agree_sound r current target (ground (arith, h)) there
    | inr absent ↦ elim (Bool-cases (has r current)) [
      | inr gone ↦ both_absent (lookup r current) (lookup r target) gone absent
      | inl more ↦
          let agree : all_agree current target ≡ true = ground (arith, h) in
          let longer =
            length_lt target current r t
              (λ x there. ap is_some (all_agree_sound x current target agree there) ∙ there) more
              absent in
          absurd (ground (arith, h, longer))
    ]
  ]

  agrees_here : (o : Option Bytes) (d : Bytes) → o ≡ some d → agrees_with o d ≡ true
  agrees_here none d h = ground arith
  agrees_here (some c) d h = (e.agree_iff c d).1 (some_inj.0 h)

  all_agree_complete :
      (current target : Map String Bytes)
      → HasDistinctKeys target
      → ((r : String) → has r target ≡ true → lookup r current ≡ lookup r target)
      → all_agree current target ≡ true
  unfolding all_agree lookup
  all_agree_complete current [] t same = refl
  all_agree_complete current ((i, d) ∷ target) t same =
      let first : (i == i) ≡ true = (text_has_eq.agree_iff i i).1 refl in
      let here : lookup i current ≡ some d = same i (has_first i d target) ∙ rw first refl in
      let behind = all_agree_complete current target t.1 (λ r there.
        let (other, further) = has_behind i r d target t there in same r further ∙ rw other refl) in
      rw behind (ground (arith, agrees_here (lookup i current) d here))

  pub same_files_complete :
      (current target : Map String Bytes)
      → HasDistinctKeys current
      → HasDistinctKeys target
      → ((r : String) → lookup r current ≡ lookup r target)
      → service_files_equal current target ≡ true
  same_files_complete current target c t same =
      let agree = all_agree_complete current target t (λ r there. same r) in
      let forth = length_le current target c (λ r there. sym (ap is_some (same r)) ∙ there) in
      let back = length_le target current t (λ r there. ap is_some (same r) ∙ there) in
      ground (arith, agree, forth, back)
