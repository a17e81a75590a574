-- ===== src/Core/Tolerance.antt =====
-- src/core/tolerance.cpp: the parser of tolerance texts such as "5ms", "±2%" or "1,2.5dB". A text
-- and a position in it are the rest of the text from that position on.
pub mod Bounds
pub mod WellFormed
pub mod Decimal
use mediadiff.Base.{
  Bool, Expected, Option, Text, [], and_then, err, false, if◌then◌else◌, is_empty, is_some, leb,
  leb_ℤ, ltb_ℤ, none, not, ok, pos, some, suc, text, text_eq, true, usage, zero, ℕ, ℤ, ◌&&◌, ◌++◌,
  ◌-◌, ◌==◌, ◌>>=◌, ◌||◌, ◌∷◌,
}
use mediadiff.Core.CheckedArith.{checked_add, checked_mul, trunc_div}
use mediadiff.Core.Registry.{CheckUnit, count, percent, unit_suffix}
use mathlib.Core.List.{reverse}

pub record Tolerance : Type 0 where
  pub unit : CheckUnit
  pub num : ℤ
  pub den : ℤ
  pub is_relative : Bool
  pub warn_num : Option ℤ

abbrev pub is_ascii_whitespace : ℕ → Bool
is_ascii_whitespace c = c == 0x20 || c == 0x09 || c == 0x0d || c == 0x0a

unfoldable pub skip_whitespace : Text → Text
skip_whitespace [] = []
skip_whitespace (c ∷ s) = if is_ascii_whitespace c then skip_whitespace s else c ∷ s

unfoldable pub trim_ascii_whitespace : Text → Text
unfolding skip_whitespace
trim_ascii_whitespace s = reverse (skip_whitespace (reverse (skip_whitespace s)))

-- The code point "±" in UTF-8, or "+-".
unfoldable pub strip_sign : Text → Text
strip_sign (a ∷ b ∷ s) =
    if a == 0xc2 && b == 0xb1 then s else if a == b'+' && b == b'-' then s else a ∷ b ∷ s
strip_sign s = s

unfoldable pub any_non_ascii : Text → Bool
any_non_ascii [] = false
any_non_ascii (c ∷ s) = leb 0x80 c || any_non_ascii s

-- What stands before and behind the first comma.
unfoldable pub split_comma : Text → Option (Text × Text)
split_comma [] = none
split_comma (c ∷ s) =
    if c == b','
    then some ([], s)
    else (elim (split_comma s) [ none ↦ none | some (before, after) ↦ some (c ∷ before, after) ])

abbrev pub is_digit : ℕ → Bool
is_digit c = leb b'0' c && leb c b'9'

-- `value * 10 + digit`, with both overflow checks.
unfoldable pub push_digit : ℤ → ℕ → Option ℤ
push_digit value c =
    and_then (checked_mul value (pos 10)) (λ scaled. checked_add scaled (pos (c - b'0')))

-- The value of the digits, their number, and what is left; `none` on overflow.
unfoldable pub scan_digits : ℤ → ℕ → Text → Option (ℤ × ℕ × Text)
unfolding push_digit
scan_digits value digits [] = some (value, digits, [])
scan_digits value digits (c ∷ s) =
    if is_digit c
    then and_then (push_digit value c) (λ next. scan_digits next (suc digits) s)
    else some (value, digits, c ∷ s)

-- `den *= 10`, once for each fraction digit.
unfoldable pub decimal_den : ℕ → ℤ → Option ℤ
decimal_den zero den = some den
decimal_den (suc k) den = and_then (checked_mul den (pos 10)) (decimal_den k)

pub record ParsedMagnitude : Type 0 where
  pub num : ℤ
  pub den : ℤ
  pub trailing : Text

unfoldable pub usage_error {ℓ} : {A : Type ℓ} → CheckUnit → Text → Expected A
unfolding unit_suffix
usage_error unit detail = err (record {
  kind = usage;
  message =
      detail
      ++ text " (expected a tolerance in '"
      ++ unit_suffix unit
      ++ text "', e.g. "
      ++ (b'"' ∷ b'5' ∷ unit_suffix unit)
      ++ (b'"' ∷ b')' ∷ []);
})

-- A value, or the usage error with this detail.
unfoldable pub or_usage {ℓ} : {A : Type ℓ} → CheckUnit → Text → Option A → Expected A
or_usage unit detail none = usage_error unit detail
or_usage unit detail (some a) = ok a

abbrev pub too_large : Text
too_large = text "tolerance magnitude is too large to represent exactly"

-- The fraction behind the integer digits: its value, its digits, and what is left.
unfoldable pub scan_fraction : CheckUnit → Text → Expected (ℤ × ℕ × Text)
unfolding scan_digits or_usage usage_error
scan_fraction unit [] = ok (pos 0, 0, [])
scan_fraction unit (c ∷ s) =
    if c == b'.'
    then (do
      (value, digits, rest) ← or_usage unit too_large (scan_digits (pos 0) 0 s)
      if digits == 0
          then usage_error unit
              (text "tolerance magnitude has a decimal point with no digits after it")
          else ok (value, digits, rest))
    else ok (pos 0, 0, c ∷ s)

unfoldable pub parse_magnitude : CheckUnit → Text → Expected ParsedMagnitude
unfolding scan_digits scan_fraction decimal_den or_usage usage_error
parse_magnitude unit component = do
  (int_value, int_digits, rest) ← or_usage unit too_large (scan_digits (pos 0) 0 component)
  (frac_value, frac_digits, trailing) ← scan_fraction unit rest
  if int_digits == 0 && frac_digits == 0
      then usage_error unit (text "tolerance magnitude has no digits")
      else do
        den ← or_usage unit too_large (decimal_den frac_digits (pos 1))
        product ← or_usage unit too_large (checked_mul int_value den)
        num ← or_usage unit too_large (checked_add product frac_value)
        ok (record { num = num; den = den; trailing = trailing })

abbrev pub unit_is_count : CheckUnit → Bool
unit_is_count count = true
unit_is_count _ = false

abbrev pub unit_is_percent : CheckUnit → Bool
unit_is_percent percent = true
unit_is_percent _ = false

abbrev pub suffix_ok : CheckUnit → Text → Bool
suffix_ok unit suffix =
    if unit_is_count unit
    then is_empty suffix || text_eq suffix (text "bytes")
    else text_eq suffix (unit_suffix unit)

-- Both thresholds over the larger of the two denominators.
unfoldable pub two_thresholds : CheckUnit → ParsedMagnitude → ParsedMagnitude → Expected Tolerance
unfolding or_usage usage_error
two_thresholds unit warn_parsed fail_parsed = do
  let common_den =
      if leb_ℤ warn_parsed.den fail_parsed.den then fail_parsed.den else warn_parsed.den
  fail_scaled ←
      or_usage unit too_large (checked_mul fail_parsed.num (trunc_div common_den fail_parsed.den))
  warn_scaled ←
      or_usage unit too_large (checked_mul warn_parsed.num (trunc_div common_den warn_parsed.den))
  if ltb_ℤ fail_scaled warn_scaled
      then usage_error unit
          (text "tolerance value's warn threshold must not exceed its fail threshold")
      else ok (record {
        unit = unit;
        num = fail_scaled;
        den = common_den;
        is_relative = unit_is_percent unit;
        warn_num = some warn_scaled;
      })

unfoldable pub parse_two : CheckUnit → Text → Text → Expected Tolerance
unfolding parse_magnitude two_thresholds usage_error
parse_two unit warn_text fail_text = do
  warn_parsed ← parse_magnitude unit warn_text
  fail_parsed ← parse_magnitude unit fail_text
  if not (suffix_ok unit fail_parsed.trailing)
      then usage_error unit
          (text "tolerance value's unit does not match this check's declared unit")
      else if not (is_empty warn_parsed.trailing)
          && not (text_eq warn_parsed.trailing fail_parsed.trailing)
      then usage_error unit (
          text
            "tolerance value's warn threshold suffix must match its fail threshold suffix (or be omitted)")
      else two_thresholds unit warn_parsed fail_parsed

unfoldable pub parse_one : CheckUnit → Text → Expected Tolerance
unfolding parse_magnitude usage_error
parse_one unit fail_text = do
  fail_parsed ← parse_magnitude unit fail_text
  if not (suffix_ok unit fail_parsed.trailing)
      then usage_error unit
          (text "tolerance value's unit does not match this check's declared unit")
      else ok (record {
        unit = unit;
        num = fail_parsed.num;
        den = fail_parsed.den;
        is_relative = unit_is_percent unit;
        warn_num = none;
      })

-- One or two thresholds, by the number of commas.
unfoldable pub parse_thresholds : CheckUnit → Text → Option (Text × Text) → Expected Tolerance
unfolding parse_one parse_two usage_error split_comma
parse_thresholds unit s none = parse_one unit s
parse_thresholds unit s (some (warn_text, fail_text)) =
    if is_some (split_comma fail_text)
    then usage_error unit (text "tolerance value has more than one comma")
    else parse_two unit warn_text fail_text

abbrev pub starts_negative : Text → Bool
starts_negative [] = false
starts_negative (c ∷ s) = c == b'-'

unfoldable pub parse_tolerance : Text → CheckUnit → Expected Tolerance
unfolding trim_ascii_whitespace strip_sign any_non_ascii split_comma parse_thresholds usage_error
parse_tolerance raw unit =
    let trimmed = trim_ascii_whitespace raw in
    let magnitude = strip_sign trimmed in
    if is_empty trimmed
    then usage_error unit (text "tolerance value is empty")
    else if is_empty magnitude
    then usage_error unit (text "tolerance value has a sign but no magnitude")
    else if any_non_ascii magnitude
    then usage_error unit
        (text "tolerance value contains a non-ASCII character outside the leading sign")
    else if starts_negative magnitude
    then usage_error unit (text "tolerance value must not be negative")
    else parse_thresholds unit magnitude (split_comma magnitude)
