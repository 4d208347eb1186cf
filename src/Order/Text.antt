-- ===== src/Order/Text.antt =====
-- The order of texts: Rust's `str::cmp`, lexicographic by code points.
use Prim.Native.String.{String, [], ◌∷◌, compare as compare_text}
use Prim.Native.String.compare
use Prim.Native.Char.{code}
use text.Mathlib.TextEquality.{path_by_compare}
use rusty_fleet.Order.Laws.{reverse, IsComparison, Ord, compare_nat-IsComparison}
use rusty_fleet.Prelude.{Ordering, ◌≡◌, ap, arith}

text_flip : (s t : String) → compare_text t s ≡ reverse (compare_text s t)
text_flip [] [] = rw compare.nil-nil
text_flip [] (d ∷ t) = rw (compare.nil-cons d t) (compare.cons-nil d t)
text_flip (c ∷ s) [] = rw (compare.cons-nil c s) (compare.nil-cons c s)
text_flip (c ∷ s) (d ∷ t) = rw (compare.cons-cons c d s t) (
    rw (compare.cons-cons d c t s)
      (ground (arith, compare_nat-IsComparison.flip (code c) (code d), text_flip s t)))

text_same : (s t u : String) → compare_text s t ≡ Ordering.eq → compare_text s u ≡ compare_text t u
text_same s t u h = ap (λ r. compare_text r u) (path_by_compare s t h)

text_trans :
    (s t u : String)
    → compare_text s t ≡ Ordering.lt
    → compare_text t u ≡ Ordering.lt
    → compare_text s u ≡ Ordering.lt
text_trans [] [] [] h k = h
text_trans [] (d ∷ t) [] h k = cc (compare.cons-nil d t)
text_trans [] t (e ∷ u) h k = compare.nil-cons e u
text_trans (c ∷ s) [] u h k = cc (compare.cons-nil c s)
text_trans (c ∷ s) (d ∷ t) [] h k = cc (compare.cons-nil d t)
text_trans (c ∷ s) (d ∷ t) (e ∷ u) h k = rw (compare.cons-cons c e s u) (
    ground (
      arith,
      compare.cons-cons c d s t,
      compare.cons-cons d e t u,
      compare_nat-IsComparison.trans (code c) (code d) (code e),
      text_trans s t u,
    ))

pub compare_text-IsComparison : IsComparison compare_text
compare_text-IsComparison = record { flip = text_flip; same = text_same; trans = text_trans }

instance abbrev pub text_ord : Ord String
text_ord = record {
  cmp = compare_text;
  lawful = compare_text-IsComparison;
  eq_of_cmp = path_by_compare;
}
