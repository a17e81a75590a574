-- ===== src/Compare/Values.antt =====
-- `operator==` of the `Value` of src/core/value.h: the same alternative with equal members.
use mediadiff.Base.{
  Bool, List, Text, [], eqb_ℤ, false, ltb, not, text_eq, true, ℕ, ℤ, ◌%◌, ◌&&◌, ◌*◌, ◌==◌, ◌^◌,
  ◌||◌, ◌∷◌,
}
use mediadiff.Core.Model.{
  HashChain, RationalValue, Span, Value, absent, hash_value, histogram_value, int64_value,
  rational_value, real_value, set_value, span_value, string_value,
}
use mediadiff.Core.Ticks.{Rational}

unfoldable pub texts_eq : List Text → List Text → Bool
texts_eq [] [] = true
texts_eq (s ∷ ss) (t ∷ ts) = text_eq s t && texts_eq ss ts
texts_eq _ _ = false

abbrev pub rational_eq : Rational → Rational → Bool
rational_eq a b = eqb_ℤ a.num b.num && eqb_ℤ a.den b.den

abbrev pub rational_value_eq : RationalValue → RationalValue → Bool
rational_value_eq a b = eqb_ℤ a.num b.num && (eqb_ℤ a.den b.den && rational_eq a.tb b.tb)

unfoldable pub bins_eq : List (Text × ℤ) → List (Text × ℤ) → Bool
bins_eq [] [] = true
bins_eq ((s, m) ∷ ss) ((t, n) ∷ ts) = (text_eq s t && eqb_ℤ m n) && bins_eq ss ts
bins_eq _ _ = false

unfoldable pub spans_eq : List Span → List Span → Bool
spans_eq [] [] = true
spans_eq (a ∷ rest) (b ∷ others) =
    (rational_value_eq a.start b.start && rational_value_eq a.finish b.finish)
    && spans_eq rest others
spans_eq _ _ = false

unfoldable pub hash_chain_eq : HashChain → HashChain → Bool
unfolding texts_eq
hash_chain_eq a b =
    text_eq a.algorithm b.algorithm
    && (text_eq a.digest b.digest
        && (eqb_ℤ a.element_count b.element_count
            && (texts_eq a.block_digests b.block_digests
                && eqb_ℤ a.element_stride b.element_stride)))

-- The 63 bits of a binary64 below its sign.
abbrev pub real_magnitude : ℕ → ℕ
real_magnitude bits = bits % 2 ^ 63

-- A binary64 that is no number: all exponent bits, and a fraction.
abbrev pub is_nan : ℕ → Bool
is_nan bits = ltb (2047 * 2 ^ 52) (real_magnitude bits)

-- `==` of two binary64: a NaN equals nothing, and the two zeros are equal.
unfoldable pub real_eq : ℕ → ℕ → Bool
real_eq a b =
    not (is_nan a || is_nan b) && (a == b || (real_magnitude a == 0 && real_magnitude b == 0))

unfoldable pub value_eq : Value → Value → Bool
unfolding texts_eq bins_eq spans_eq hash_chain_eq real_eq
value_eq absent absent = true
value_eq (int64_value a) (int64_value b) = eqb_ℤ a b
value_eq (rational_value a) (rational_value b) = rational_value_eq a b
value_eq (real_value a) (real_value b) = real_eq a b
value_eq (string_value a) (string_value b) = text_eq a b
value_eq (set_value a) (set_value b) = texts_eq a b
value_eq (histogram_value a) (histogram_value b) = bins_eq a.bins b.bins
value_eq (span_value a) (span_value b) = spans_eq a.spans b.spans
value_eq (hash_value a) (hash_value b) = hash_chain_eq a b
value_eq _ _ = false
