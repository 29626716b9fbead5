-- ===== src/Prelude/Ordered.antt =====
-- Python's order of texts, and `sorted(set(texts))`.
use Prim.Native.Char.{code}
use Prim.Native.Nat.{ℕ, zero, suc, Ordering, compare as compare_ℕ}
use Prim.Native.Nat.compare as compare_ℕ
use Prim.Native.String.{String, compare, then as or_else}
use Prim.Native.String.compare
use mathlib.Core.Bool.{Bool, true, false}
use mathlib.Core.List.{List, [], ◌∷◌}
use mathlib.Core.Path.{◌≡◌, refl, ap, ◌∙◌}
use mathlib.Core.Logic.{inl, inr}
use native.Mathlib.Omega.{arith}
use text.Mathlib.Text.{◌==◌ as str_eq, is_eq}
use claude_sessions.Prelude.Lists.{All}
use claude_sessions.Prelude.Tests.{Bool-cases, if◌then◌else◌}

abbrev is_lt : Ordering → Bool
is_lt Ordering.lt = true
is_lt Ordering.eq = false
is_lt Ordering.gt = false

-- `a < b`
abbrev pub precedes : String → String → Bool
precedes a b = is_lt (compare a b)

abbrev flip : Ordering → Ordering
flip Ordering.lt = Ordering.gt
flip Ordering.eq = Ordering.eq
flip Ordering.gt = Ordering.lt

compare_ℕ-flip : (m n : ℕ) → compare_ℕ n m ≡ flip (compare_ℕ m n)
compare_ℕ-flip zero zero = rw compare_ℕ.zero-zero refl
compare_ℕ-flip zero (suc n) = rw (compare_ℕ.zero-suc n, compare_ℕ.suc-zero n) refl
compare_ℕ-flip (suc m) zero = rw (compare_ℕ.zero-suc m, compare_ℕ.suc-zero m) refl
compare_ℕ-flip (suc m) (suc n) =
    rw (compare_ℕ.suc-suc m n, compare_ℕ.suc-suc n m) (compare_ℕ-flip m n)

or_else-flip : (a b : Ordering) → or_else (flip a) (flip b) ≡ flip (or_else a b)
or_else-flip Ordering.lt b = refl
or_else-flip Ordering.eq b = refl
or_else-flip Ordering.gt b = refl

compare-flip : (a b : String) → compare b a ≡ flip (compare a b)
compare-flip String.[] String.[] = rw compare.nil-nil refl
compare-flip String.[] (String.◌∷◌ d t) = rw (compare.nil-cons d t, compare.cons-nil d t) refl
compare-flip (String.◌∷◌ c s) String.[] = rw (compare.nil-cons c s, compare.cons-nil c s) refl
compare-flip (String.◌∷◌ c s) (String.◌∷◌ d t) =
    rw
      (
        compare.cons-cons c d s t,
        compare.cons-cons d c t s,
        compare_ℕ-flip (code c) (code d),
        compare-flip s t,
      )
      (or_else-flip (compare_ℕ (code c) (code d)) (compare s t))

is_lt-is_eq : (o : Ordering) → is_lt o ≡ true → is_eq o ≡ false
is_lt-is_eq Ordering.lt h = refl
is_lt-is_eq Ordering.eq h = absurd (ground (arith, h))
is_lt-is_eq Ordering.gt h = refl

is_gt-is_lt : (o p : Ordering) → p ≡ flip o → is_eq o ≡ false → is_lt o ≡ false → is_lt p ≡ true
is_gt-is_lt Ordering.lt p e apart behind = absurd (ground (arith, behind))
is_gt-is_lt Ordering.eq p e apart behind = absurd (ground (arith, apart))
is_gt-is_lt Ordering.gt p e apart behind = rw e refl

-- A text that is neither equal nor before comes behind.
pub precedes_total :
    (a b : String) → str_eq a b ≡ false → precedes a b ≡ false → precedes b a ≡ true
precedes_total a b apart behind =
    is_gt-is_lt (compare a b) (compare b a) (compare-flip a b) apart behind

pub precedes_apart : (a b : String) → precedes a b ≡ true → str_eq a b ≡ false
precedes_apart a b before = is_lt-is_eq (compare a b) before

unfoldable pub insert_text : String → List String → List String
insert_text a [] = a ∷ []
insert_text a (b ∷ texts) =
    let rest = insert_text a texts in
    if str_eq a b then b ∷ texts else if precedes a b then a ∷ b ∷ texts else b ∷ rest

-- `sorted(set(texts))`
unfoldable pub sorted_set : List String → List String
unfolding insert_text
sorted_set [] = []
sorted_set (a ∷ texts) = insert_text a (sorted_set texts)

-- A text stands before the first of these.
abbrev Starts : String → List String → Type 0
Starts a [] = Unit
Starts a (b ∷ texts) = precedes a b ≡ true

abbrev pub IsSorted : List String → Type 0
IsSorted [] = Unit
IsSorted (a ∷ texts) = Starts a texts × IsSorted texts

insert_text-Starts :
    (c a : String) (texts : List String)
    → precedes c a ≡ true
    → Starts c texts
    → Starts c (insert_text a texts)
unfolding insert_text
insert_text-Starts c a [] before starts = before
insert_text-Starts c a (b ∷ texts) before starts = elim (Bool-cases (str_eq a b)) [
  | inl same ↦ rw same starts
  | inr apart ↦ elim (Bool-cases (precedes a b)) [
    | inl first ↦ rw (apart, first) before
    | inr behind ↦ rw (apart, behind) starts
  ]
]

insert_text-IsSorted :
    (a : String) (texts : List String) → IsSorted texts → IsSorted (insert_text a texts)
unfolding insert_text
insert_text-IsSorted a [] sorted = (tt, tt)
insert_text-IsSorted a (b ∷ texts) sorted = elim (Bool-cases (str_eq a b)) [
  | inl same ↦ rw same sorted
  | inr apart ↦ elim (Bool-cases (precedes a b)) [
    | inl first ↦ rw (apart, first) (first, sorted)
    | inr behind ↦
        rw (apart, behind)
          (
            insert_text-Starts b a texts (precedes_total a b apart behind) sorted.0,
            insert_text-IsSorted a texts sorted.1,
          )
  ]
]

pub sorted_set-IsSorted : (texts : List String) → IsSorted (sorted_set texts)
unfolding sorted_set
sorted_set-IsSorted [] = tt
sorted_set-IsSorted (a ∷ texts) =
    insert_text-IsSorted a (sorted_set texts) (sorted_set-IsSorted texts)

insert_first : (a : String) (texts : List String) → Starts a texts → insert_text a texts ≡ a ∷ texts
unfolding insert_text
insert_first a [] starts = refl
insert_first a (b ∷ texts) starts = rw (precedes_apart a b starts, starts) refl

-- Texts that are sorted, none twice, stay as they are.
pub sorted_set_sorted : (texts : List String) → IsSorted texts → sorted_set texts ≡ texts
unfolding sorted_set
sorted_set_sorted [] sorted = refl
sorted_set_sorted (a ∷ texts) sorted =
    ap (insert_text a) (sorted_set_sorted texts sorted.1) ∙ insert_first a texts sorted.0

module _ (P : String → Type 0) where
  insert_text-All :
      (a : String) (texts : List String) → P a → All P texts → All P (insert_text a texts)
  unfolding insert_text
  insert_text-All a [] p all = (p, tt)
  insert_text-All a (b ∷ texts) p all = elim (Bool-cases (str_eq a b)) [
    | inl same ↦ rw same all
    | inr apart ↦ elim (Bool-cases (precedes a b)) [
      | inl first ↦ rw (apart, first) (p, all)
      | inr behind ↦ rw (apart, behind) (all.0, insert_text-All a texts p all.1)
    ]
  ]

  pub sorted_set-All : (texts : List String) → All P texts → All P (sorted_set texts)
  unfolding sorted_set
  sorted_set-All [] all = tt
  sorted_set-All (a ∷ texts) all =
      insert_text-All a (sorted_set texts) all.0 (sorted_set-All texts all.1)
