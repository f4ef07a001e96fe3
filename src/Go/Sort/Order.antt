-- ===== src/Go/Sort/Order.antt =====
-- The order of texts.
use Prim.Native.Nat.{Ordering, compare as compare_nat}
use Prim.Native.Char.{code}
use Prim.Native.String.{compare, then, [], ◌∷◌}
use Prim.Native.String.compare
use text.Mathlib.TextEquality.{path_by_compare}
use goaxon.Prelude.{ℕ, String, Bool, true, false, ◌≡◌, refl, ap, sym, ◌∙◌, arith}
use goaxon.Go.Sort.{str_leb}

-- Not greater.
abbrev le : Ordering → Bool
le o = elim o [ Ordering.gt ↦ false | _ ↦ true ]

abbrev flip : Ordering → Ordering
flip Ordering.lt = Ordering.gt
flip Ordering.eq = Ordering.eq
flip Ordering.gt = Ordering.lt

then-le :
    (x y z : ℕ) (r s t : Ordering)
    → (le r ≡ true → le s ≡ true → le t ≡ true)
    → le (then (compare_nat x y) r) ≡ true
    → le (then (compare_nat y z) s) ≡ true
    → le (then (compare_nat x z) t) ≡ true
then-le x y z r s t h p q = ground (arith, h, p, q)

then-flip :
    (x y : ℕ) (r s : Ordering)
    → s ≡ flip r
    → then (compare_nat y x) s ≡ flip (then (compare_nat x y) r)
then-flip x y r s h = ground (arith, h)

pub le_trans : (s t u : String) → str_leb s t ≡ true → str_leb t u ≡ true → str_leb s u ≡ true
le_trans [] t [] p q = ap le compare.nil-nil
le_trans [] t (e ∷ u) p q = ap le (compare.nil-cons e u)
le_trans (c ∷ s) [] u p q = absurd (cc (sym p ∙ ap le (compare.cons-nil c s)))
le_trans (c ∷ s) (d ∷ t) [] p q = absurd (cc (sym q ∙ ap le (compare.cons-nil d t)))
le_trans (c ∷ s) (d ∷ t) (e ∷ u) p q =
    ap le (compare.cons-cons c e s u)
    ∙ then-le (code c) (code d) (code e) (compare s t) (compare t u) (compare s u) (le_trans s t u)
        (sym (ap le (compare.cons-cons c d s t)) ∙ p) (sym (ap le (compare.cons-cons d e t u)) ∙ q)

compare-flip : (s t : String) → compare t s ≡ flip (compare s t)
compare-flip [] [] = rw compare.nil-nil refl
compare-flip [] (d ∷ t) = compare.cons-nil d t ∙ ap flip (sym (compare.nil-cons d t))
compare-flip (c ∷ s) [] = compare.nil-cons c s ∙ ap flip (sym (compare.cons-nil c s))
compare-flip (c ∷ s) (d ∷ t) =
    compare.cons-cons d c t s
    ∙ then-flip (code c) (code d) (compare s t) (compare t s) (compare-flip s t)
    ∙ ap flip (sym (compare.cons-cons c d s t))

pub le_total : (s t : String) → str_leb s t ≡ false → str_leb t s ≡ true
le_total s t h = ap le (compare-flip s t) ∙ at (compare s t) h
  where
    at : (o : Ordering) → le o ≡ false → le (flip o) ≡ true
    at Ordering.lt h = absurd (cc h)
    at Ordering.eq h = refl
    at Ordering.gt h = refl

pub le_antisym : (s t : String) → str_leb s t ≡ true → str_leb t s ≡ true → s ≡ t
le_antisym s t p q = path_by_compare s t (at (compare s t) p (sym (ap le (compare-flip s t)) ∙ q))
  where
    at : (o : Ordering) → le o ≡ true → le (flip o) ≡ true → o ≡ Ordering.eq
    at Ordering.lt p q = absurd (cc q)
    at Ordering.eq p q = refl
    at Ordering.gt p q = absurd (cc p)
