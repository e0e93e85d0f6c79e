-- ===== src/Base/Text.antt =====
-- Go's strings.Split, strings.Join and strings.CutPrefix on native texts, character by character.
use Prim.Native.Char.{Char, code}
use Prim.Native.String.{String, ◌++◌}
use Prim.Native.String.append
use Prim.Native.Nat.{ℕ}
use text.Mathlib.TextEquality.{Char-path}
use mathlib.Core.Path.{◌≡◌, refl, sym, ap, ◌∙◌}
use mathlib.Core.Logic.{inl, inr, ◌≢◌}
use mathlib.Core.Bool.{Bool, true, false, not, ◌&&◌}
use mathlib.Core.Option.{Option, none, some}
use mathlib.Core.Option.{some_inj}
use mathlib.Core.List.{List, [], ◌∷◌}
use native.Mathlib.Omega.{arith}
use aap_config_server.Base.Tests.{nat_beq, nat_beq_iff, if◌then◌else◌, Bool-cases}

-- a character in front of the first part
abbrev grow : Char → List String → List String
grow c [] = (String.◌∷◌ c String.[]) ∷ []
grow c (part ∷ parts) = (String.◌∷◌ c part) ∷ parts

-- `strings.Split(s, sep)` for a separator of one character, given by its number
unfoldable pub split_on : ℕ → String → List String
split_on sep String.[] = String.[] ∷ []
split_on sep (String.◌∷◌ c s) =
    let parts = split_on sep s in if nat_beq (code c) sep then String.[] ∷ parts else grow c parts

unfoldable pub lacks : ℕ → String → Bool
lacks sep String.[] = true
lacks sep (String.◌∷◌ c s) = not (nat_beq (code c) sep) && lacks sep s

-- `strings.HasPrefix(s, prefix)` with the rest `s[len(prefix):]`
unfoldable pub cut_prefix : String → String → Option String
cut_prefix String.[] s = some s
cut_prefix (String.◌∷◌ c p) String.[] = none
cut_prefix (String.◌∷◌ c p) (String.◌∷◌ d s) =
    if nat_beq (code c) (code d) then cut_prefix p s else none

-- every character passes the test
unfoldable pub all_chars : (ℕ → Bool) → String → Bool
all_chars ok String.[] = true
all_chars ok (String.◌∷◌ c s) = ok (code c) && all_chars ok s

pub split_on-lacks : (sep : ℕ) (s : String) → lacks sep s ≡ true → split_on sep s ≡ s ∷ []
unfolding split_on lacks
split_on-lacks sep String.[] h = refl
split_on-lacks sep (String.◌∷◌ c s) h =
    let other : nat_beq (code c) sep ≡ false = ground arith in
    rw (other, split_on-lacks sep s (ground arith)) refl

-- A part that lacks the separator is split off before it.
pub split_on-append :
    (sep : ℕ) (s : String) (c : Char) (t : String)
    → lacks sep s ≡ true
    → code c ≡ sep
    → split_on sep (s ++ String.◌∷◌ c t) ≡ s ∷ split_on sep t
unfolding split_on lacks
split_on-append sep String.[] c t h e =
    let same : nat_beq (code c) sep ≡ true = ground arith in
    rw (append.nil (String.◌∷◌ c t), same) refl
split_on-append sep (String.◌∷◌ d s) c t h e =
    let other : nat_beq (code d) sep ≡ false = ground arith in
    rw (append.cons d s (String.◌∷◌ c t), other, split_on-append sep s c t (ground arith) e) refl

pub cut_prefix-append : (p s : String) → cut_prefix p (p ++ s) ≡ some s
unfolding cut_prefix
cut_prefix-append String.[] s = ap (λ t. some t) (append.nil s)
cut_prefix-append (String.◌∷◌ c p) s =
    let same : nat_beq (code c) (code c) ≡ true = ground arith in
    rw (append.cons c p s, same) (cut_prefix-append p s)

pub cut_prefix_sound : (p s rest : String) → cut_prefix p s ≡ some rest → s ≡ p ++ rest
unfolding cut_prefix
cut_prefix_sound String.[] s rest h = some_inj.0 h ∙ sym (append.nil rest)
cut_prefix_sound (String.◌∷◌ c p) String.[] rest h = ground arith
cut_prefix_sound (String.◌∷◌ c p) (String.◌∷◌ d s) rest h =
    elim (Bool-cases (nat_beq (code c) (code d))) [
      | inl y ↦
          ap (λ e. String.◌∷◌ e s) (sym (Char-path c d ((nat_beq_iff (code c) (code d)).0 y)))
          ∙ (ap (String.◌∷◌ c) (cut_prefix_sound p s rest (ground arith))
              ∙ sym (append.cons c p rest))
      | inr n ↦ ground arith
    ]

-- A text that passes a test which its separator fails lacks the separator.
pub lacks-all_chars :
    (sep : ℕ) (ok : ℕ → Bool) (s : String)
    → ok sep ≡ false
    → all_chars ok s ≡ true
    → lacks sep s ≡ true
unfolding lacks all_chars
lacks-all_chars sep ok String.[] n h = refl
lacks-all_chars sep ok (String.◌∷◌ c s) n h = elim (Bool-cases (nat_beq (code c) sep)) [
  | inl y ↦ ground (arith, ap ok ((nat_beq_iff (code c) sep).0 y))
  | inr k ↦ rw k (lacks-all_chars sep ok s n (ground arith))
]

-- `strings.Join(parts, sep)`
unfoldable pub join : String → List String → String
join sep [] = String.[]
join sep (part ∷ []) = part
join sep (part ∷ next ∷ parts) = part ++ (sep ++ join sep (next ∷ parts))

pub singleton-append : (c : Char) (t : String) → String.◌∷◌ c String.[] ++ t ≡ String.◌∷◌ c t
singleton-append c t = append.cons c String.[] t ∙ ap (String.◌∷◌ c) (append.nil t)

abbrev pub AllLack : ℕ → List String → Type 0
AllLack sep [] = Unit
AllLack sep (part ∷ parts) = (lacks sep part ≡ true) × AllLack sep parts

pub split_on-join :
    (sep : ℕ) (c : Char) (part : String) (parts : List String)
    → code c ≡ sep
    → AllLack sep (part ∷ parts)
    → split_on sep (join (String.◌∷◌ c String.[]) (part ∷ parts)) ≡ part ∷ parts
unfolding join
split_on-join sep c part [] e h = split_on-lacks sep part h.0
split_on-join sep c part (next ∷ parts) e h =
    rw (singleton-append c (join (String.◌∷◌ c String.[]) (next ∷ parts))) (
      split_on-append sep part c (join (String.◌∷◌ c String.[]) (next ∷ parts)) h.0 e
      ∙ ap (λ ps. part ∷ ps) (split_on-join sep c next parts e h.1))

join-grow :
    (sep : String) (c : Char) (parts : List String)
    → join sep (grow c parts) ≡ String.◌∷◌ c (join sep parts)
unfolding join
join-grow sep c [] = refl
join-grow sep c (part ∷ []) = refl
join-grow sep c (part ∷ next ∷ parts) = append.cons c part (sep ++ join sep (next ∷ parts))

grow_filled : (c : Char) (parts : List String) → grow c parts ≢ []
grow_filled c [] = ground arith
grow_filled c (part ∷ parts) = ground arith

split_on_filled : (sep : ℕ) (s : String) → split_on sep s ≢ []
unfolding split_on
split_on_filled sep String.[] = ground arith
split_on_filled sep (String.◌∷◌ c s) =
    ground (arith, Bool-cases (nat_beq (code c) sep), grow_filled c (split_on sep s))

join_empty_part :
    (sep s : String) (n : ℕ) → join sep (String.[] ∷ split_on n s) ≡ sep ++ join sep (split_on n s)
unfolding join split_on
join_empty_part sep s n = go (split_on n s) (split_on_filled n s)
  where
    go : (parts : List String) → parts ≢ [] → join sep (String.[] ∷ parts) ≡ sep ++ join sep parts
    go [] h = ground (arith, h)
    go (part ∷ parts) h = append.nil (sep ++ join sep (part ∷ parts))

pub join-split_on :
    (sep : ℕ) (c : Char) (s : String)
    → code c ≡ sep
    → join (String.◌∷◌ c String.[]) (split_on sep s) ≡ s
unfolding join split_on
join-split_on sep c String.[] e = refl
join-split_on sep c (String.◌∷◌ d s) e = elim (Bool-cases (nat_beq (code d) sep)) [
  | inl y ↦ rw y (
      join_empty_part (String.◌∷◌ c String.[]) s sep
      ∙ (singleton-append c (join (String.◌∷◌ c String.[]) (split_on sep s))
          ∙ cc (join-split_on sep c s e, Char-path c d (e ∙ sym ((nat_beq_iff (code d) sep).0 y)))))
  | inr n ↦ rw n (
      join-grow (String.◌∷◌ c String.[]) d (split_on sep s)
      ∙ ap (String.◌∷◌ d) (join-split_on sep c s e))
]

grow-AllLack :
    (sep : ℕ) (c : Char) (parts : List String)
    → nat_beq (code c) sep ≡ false
    → AllLack sep parts
    → AllLack sep (grow c parts)
unfolding lacks
grow-AllLack sep c [] n h = (ground arith, tt)
grow-AllLack sep c (part ∷ parts) n h = (ground (arith, h.0), h.1)

pub split_on-AllLack : (sep : ℕ) (s : String) → AllLack sep (split_on sep s)
unfolding split_on lacks
split_on-AllLack sep String.[] = (refl, tt)
split_on-AllLack sep (String.◌∷◌ c s) = elim (Bool-cases (nat_beq (code c) sep)) [
  | inl y ↦ rw y (refl, split_on-AllLack sep s)
  | inr n ↦ rw n (grow-AllLack sep c (split_on sep s) n (split_on-AllLack sep s))
]
