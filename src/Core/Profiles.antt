-- ===== src/Core/Profiles.antt =====
-- src/core/profiles.cpp: profile names and transform expectations.
pub mod Parse
use mediadiff.Base.{
  Bool, Expected, Option, Text, [], and_then, err, false, if◌then◌else◌, is_empty, is_some, ltb,
  none, not, ok, pos, some, suc, text, text_eq, true, usage, ℕ, ℤ, ◌&&◌, ◌++◌, ◌==◌, ◌||◌, ◌∷◌,
}
use mediadiff.Core.CheckedArith.{checked_add, checked_mul}
use mediadiff.Core.Registry.{ProfileId, hw_encoder, remux, strict_bitexact, sw_encoder, transform}
use mediadiff.Core.Tolerance.{decimal_den, is_digit, push_digit}

pub record Dimensions : Type 0 where
  pub width : ℤ
  pub height : ℤ

pub record ResolutionExpectation : Type 0 where
  pub is_scale_factor : Bool
  pub scale_num : ℤ
  pub scale_den : ℤ
  pub absolute : Dimensions

pub record TransformExpectation : Type 0 where
  pub resolution : Option Text

unfoldable pub profile_from_string : Text → Option ProfileId
profile_from_string s =
    if text_eq s (text "strict-bitexact")
    then some strict_bitexact
    else if text_eq s (text "sw-encoder")
    then some sw_encoder
    else if text_eq s (text "hw-encoder")
    then some hw_encoder
    else if text_eq s (text "remux")
    then some remux
    else if text_eq s (text "transform")
    then some transform
    else none

unfoldable pub profile_to_string : ProfileId → Text
profile_to_string strict_bitexact = text "strict-bitexact"
profile_to_string sw_encoder = text "sw-encoder"
profile_to_string hw_encoder = text "hw-encoder"
profile_to_string remux = text "remux"
profile_to_string transform = text "transform"

-- The value is meaningful only where nothing overflowed.
pub record ParsedInt : Type 0 where
  pub value : ℤ
  pub digit_count : ℕ
  pub trailing : Text
  pub overflowed : Bool

-- On overflow the digits are still consumed; `scaled` may have been assigned before the sum fails,
-- `value` keeps the last sum.
unfoldable pub leading_int_loop : ℤ → ℕ → Bool → Text → ParsedInt
unfolding push_digit
leading_int_loop value digits overflowed [] = record {
  value = value;
  digit_count = digits;
  trailing = [];
  overflowed = overflowed;
}
leading_int_loop value digits overflowed (c ∷ s) =
    let pushed : Option ℤ = if overflowed then none else push_digit value c in
    let next : ℤ = elim pushed [ none ↦ value | some v ↦ v ] in
    let over : Bool = elim pushed [ none ↦ true | some v ↦ false ] in
    if is_digit c
    then leading_int_loop next (suc digits) over s
    else record { value = value; digit_count = digits; trailing = c ∷ s; overflowed = overflowed }

unfoldable pub parse_leading_int : Text → ParsedInt
unfolding leading_int_loop
parse_leading_int s = leading_int_loop (pos 0) 0 false s

-- The text behind a leading 'x'.
abbrev pub after_x : Text → Option Text
after_x [] = none
after_x (c ∷ s) = if c == b'x' then some s else none

unfoldable pub parse_dimensions : Text → Option Dimensions
unfolding parse_leading_int
parse_dimensions s =
    let width = parse_leading_int s in
    if width.digit_count == 0 || width.overflowed
    then none
    else and_then (after_x width.trailing) (λ rest.
      let height = parse_leading_int rest in
      if height.digit_count == 0 || height.overflowed || not (is_empty height.trailing)
      then none
      else some (record { width = width.value; height = height.value }))

unfoldable pub expectation_error {ℓ} : {A : Type ℓ} → Text → Expected A
expectation_error raw = err (record {
  kind = usage;
  message =
      text "malformed transform expectation '"
      ++ raw
      ++ text "' (expected a scale factor like "
      ++ (b'"' ∷ text "2x")
      ++ (b'"' ∷ b'/' ∷ b'"' ∷ text "1.5x")
      ++ (b'"' ∷ text " or an absolute resolution like ")
      ++ (b'"' ∷ text "3840x2160")
      ++ (b'"' ∷ b')' ∷ []);
})

-- The fraction digits, if the text goes on with a dot.
abbrev pub fraction_part : Text → Option ParsedInt
fraction_part [] = none
fraction_part (c ∷ s) = if c == b'.' then some (leading_int_loop (pos 0) 0 false s) else none

abbrev pub no_fraction : Text → ParsedInt
no_fraction s = record { value = pos 0; digit_count = 0; trailing = s; overflowed = false }

-- The exact scale `int_value + frac_value / 10^frac_digits`.
unfoldable pub scale_factor : ℤ → ℤ → ℕ → Option ResolutionExpectation
unfolding decimal_den
scale_factor int_value frac_value frac_digits = and_then (decimal_den frac_digits (pos 1)) (λ den.
    and_then (checked_mul int_value den) (λ product.
      and_then (checked_add product frac_value) (λ num. some (record {
        is_scale_factor = true;
        scale_num = num;
        scale_den = den;
        absolute = record { width = pos 0; height = pos 0 };
      }))))

abbrev pub or_expectation_error {ℓ} : {A : Type ℓ} → Text → Option A → Expected A
or_expectation_error raw none = expectation_error raw
or_expectation_error raw (some a) = ok a

unfoldable pub absolute_expectation : Text → Expected ResolutionExpectation
unfolding parse_dimensions expectation_error
absolute_expectation raw = elim (parse_dimensions raw) [
  | none ↦ expectation_error raw
  | some dims ↦
      ok (record { is_scale_factor = false; scale_num = pos 0; scale_den = pos 1; absolute = dims })
]

unfoldable pub parse_resolution_expectation : Text → Expected ResolutionExpectation
unfolding parse_leading_int scale_factor absolute_expectation expectation_error
parse_resolution_expectation raw =
    let int_part = parse_leading_int raw in
    let dotted = fraction_part int_part.trailing in
    let frac : ParsedInt = elim dotted [ none ↦ no_fraction int_part.trailing | some f ↦ f ] in
    let has_magnitude = ltb 0 int_part.digit_count || ltb 0 frac.digit_count in
    let dot_with_no_digits = is_some dotted && frac.digit_count == 0 in
    if is_empty raw
    then expectation_error raw
    else if has_magnitude && not dot_with_no_digits && text_eq frac.trailing (b'x' ∷ [])
    then (if int_part.overflowed || frac.overflowed
        then expectation_error raw
        else or_expectation_error raw (scale_factor int_part.value frac.value frac.digit_count))
    else if not (is_some dotted)
    then absolute_expectation raw
    else expectation_error raw
