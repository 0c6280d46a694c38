-- ===== src/Base/Texts.antt =====
-- Texts: equality and the lexicographic order by code points, which is Python's `<` on `str` and
-- SQLite's on TEXT.
use Prim.Native.Nat.{ℕ, Ordering, compare as compare_nat}
use Prim.Native.Char.{code}
use Prim.Native.String.compare
use Prim.Native.String.{String, compare, then}
use mathlib.Core.Path.{◌≡◌, refl, sym, ◌∙◌}
use mathlib.Core.Logic.{◌⊎◌, inl, inr}
use mathlib.Core.Bool.{Bool, true, false, ◌||◌, ◌&&◌}
use redcloud_files.Base.Tests.{ltb, ◌==◌, Bool-cases}
use mathlib.Core.List.{List, [], ◌∷◌}
use native.Mathlib.Omega.{arith}
use text.Mathlib.TextEquality.{path_by_compare}
pub use text.Mathlib.Text.{◌==◌ as str_eq}
pub use text.Mathlib.TextEquality.{eq_iff}
pub use text.Mathlib.TextPositions.{eq_refl}

unfoldable pub str_lt : String → String → Bool
str_lt s t = elim (compare s t) [ Ordering.lt ↦ true | _ ↦ false ]

-- `x in xs`
unfoldable pub mem : String → List String → Bool
mem x [] = false
mem x (y ∷ ys) = str_eq x y || mem x ys

flip : Ordering → Ordering
flip Ordering.lt = Ordering.gt
flip Ordering.eq = Ordering.eq
flip Ordering.gt = Ordering.lt

compare_nat-flip : (m n : ℕ) → compare_nat m n ≡ flip (compare_nat n m)
unfolding flip
compare_nat-flip m n = ground arith

then-flip : (o p : Ordering) → then (flip o) (flip p) ≡ flip (then o p)
unfolding flip
then-flip Ordering.lt p = refl
then-flip Ordering.eq p = refl
then-flip Ordering.gt p = refl

compare-flip : (s t : String) → compare s t ≡ flip (compare t s)
unfolding flip
compare-flip String.[] String.[] = refl
compare-flip String.[] (String.◌∷◌ d t) = rw (compare.nil-cons, compare.cons-nil)
compare-flip (String.◌∷◌ c s) String.[] = rw (compare.nil-cons, compare.cons-nil)
compare-flip (String.◌∷◌ c s) (String.◌∷◌ d t) =
    rw
      (
        compare.cons-cons c d s t,
        compare.cons-cons d c t s,
        compare-flip s t,
        compare_nat-flip (code c) (code d),
      )
      (then-flip _ _)

then_lt :
    (o p : Ordering)
    → then o p ≡ Ordering.lt
    → (o ≡ Ordering.lt) ⊎ ((o ≡ Ordering.eq) × (p ≡ Ordering.lt))
then_lt Ordering.lt p h = inl refl
then_lt Ordering.eq p h = inr (refl, h)
then_lt Ordering.gt p h = cc

then_trans :
    (a b c : ℕ) (o p q : Ordering)
    → (o ≡ Ordering.lt → p ≡ Ordering.lt → q ≡ Ordering.lt)
    → then (compare_nat a b) o ≡ Ordering.lt
    → then (compare_nat b c) p ≡ Ordering.lt
    → then (compare_nat a c) q ≡ Ordering.lt
then_trans a b c o p q k g h = ground arith

compare_trans :
    (s t u : String)
    → compare s t ≡ Ordering.lt
    → compare t u ≡ Ordering.lt
    → compare s u ≡ Ordering.lt
compare_trans s String.[] String.[] g h = cc
compare_trans String.[] String.[] (String.◌∷◌ e u) g h = compare.nil-cons e u
compare_trans (String.◌∷◌ c s) String.[] u g h = cc (compare.cons-nil c s, g)
compare_trans s (String.◌∷◌ d t) String.[] g h = cc (compare.cons-nil d t, h)
compare_trans String.[] (String.◌∷◌ d t) (String.◌∷◌ e u) g h = compare.nil-cons e u
compare_trans (String.◌∷◌ c s) (String.◌∷◌ d t) (String.◌∷◌ e u) g h =
    compare.cons-cons c e s u
    ∙ then_trans (code c) (code d) (code e) _ _ _ (compare_trans s t u)
        (sym (compare.cons-cons c d s t) ∙ g) (sym (compare.cons-cons d e t u) ∙ h)

pub str_lt_trans : (s t u : String) → str_lt s t ≡ true → str_lt t u ≡ true → str_lt s u ≡ true
unfolding str_lt
str_lt_trans s t u g h = ground (arith, compare_trans s t u)

pub str_lt_asymm : (s t : String) → str_lt s t ≡ true → str_lt t s ≡ false
unfolding str_lt flip
str_lt_asymm s t h = ground (arith, compare-flip s t)

-- texts that neither way compare as smaller are equal
pub eq_of_not-str_lt : (s t : String) → str_lt s t ≡ false → str_lt t s ≡ false → s ≡ t
unfolding str_lt flip
eq_of_not-str_lt s t g h = path_by_compare s t (ground (arith, compare-flip s t))

pub str_lt_irrefl : (s : String) → str_lt s s ≡ false
unfolding str_lt flip
str_lt_irrefl s = ground (arith, compare-flip s s)

pub eq_comm : (s t : String) → str_eq s t ≡ str_eq t s
eq_comm s t = ground (arith, eq_iff s t, eq_iff t s)

-- the order of tuples of a number and a text
abbrev pub pair_lt : ℕ → String → ℕ → String → Bool
pair_lt m s n t = ltb m n || m == n && str_lt s t

pub pair_lt-tied :
    (m : ℕ) (s : String) (n : ℕ) (t : String)
    → pair_lt m s n t ≡ false
    → pair_lt n t m s ≡ false
    → (m ≡ n) × (s ≡ t)
pair_lt-tied m s n t g h = (ground arith, eq_of_not-str_lt s t (ground arith) (ground arith))

pub str_lt_negtrans :
    (s t u : String) → str_lt t s ≡ false → str_lt u t ≡ false → str_lt u s ≡ false
str_lt_negtrans s t u g h = elim (Bool-cases (str_lt u s)) [
  | inr e ↦ e
  | inl e ↦ elim (Bool-cases (str_lt s t)) [
    | inl l ↦ cc (str_lt_trans u s t e l, h)
    | inr l ↦ cc (eq_of_not-str_lt s t l g, h)
  ]
]

pub pair_lt_negtrans :
    (m : ℕ) (s : String) (n : ℕ) (t : String) (o : ℕ) (u : String)
    → pair_lt n t m s ≡ false
    → pair_lt o u n t ≡ false
    → pair_lt o u m s ≡ false
pair_lt_negtrans m s n t o u g h = ground (arith, str_lt_negtrans s t u)
