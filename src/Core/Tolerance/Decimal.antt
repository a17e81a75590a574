-- ===== src/Core/Tolerance/Decimal.antt =====
-- The parser of src/core/tolerance.cpp reads decimal texts as the numbers that they stand for.
use mediadiff.Base.{
  All, Bool, Text, [], arith, false, length, none, not, ok, pos, refl, some, suc, text, text_eq,
  text_eq_refl, true, ℕ, ◌*ℤ◌, ◌*◌, ◌++◌, ◌+ℤ◌, ◌+◌, ◌-ℤ◌, ◌-◌, ◌<◌, ◌==◌, ◌^◌, ◌∷◌, ◌≡◌, ◌≤◌,
}
use mediadiff.Core.CheckedArith.{checked_add, checked_mul}
use mediadiff.Core.Registry.{
  CheckUnit, count, db, frames, lu, ms, ms_per_min, no_unit, percent, samples, ticks, unit_suffix,
}
use mediadiff.Core.Tolerance.{
  any_non_ascii, decimal_den, is_ascii_whitespace, is_digit, or_usage, parse_magnitude, parse_one,
  parse_thresholds, parse_tolerance, push_digit, scan_digits, scan_fraction, skip_whitespace,
  split_comma, strip_sign, suffix_ok, trim_ascii_whitespace, unit_is_percent,
}
use mathlib.Core.List.{reverse, reverse-append, reverse-reverse}
use native.Mathlib.Nat.{add-zero}

-- The number that decimal digits stand for, most significant first, behind those read before.
unfoldable pub decimal_value : ℕ → Text → ℕ
decimal_value value [] = value
decimal_value value (c ∷ s) = decimal_value (value * 10 + (c - b'0')) s

abbrev pub AreDigits : Text → Type 0
AreDigits s = All (λ c. (b'0' ≤ c) × (c ≤ b'9')) s

abbrev starts_with_digit : Text → Bool
starts_with_digit [] = false
starts_with_digit (c ∷ s) = is_digit c

decimal_value-ge : (value : ℕ) (s : Text) → value ≤ decimal_value value s
unfolding decimal_value
decimal_value-ge value [] = omega arith
decimal_value-ge value (c ∷ s) = omega (arith, decimal_value-ge (value * 10 + (c - b'0')) s)

push_digit-exact :
    (value c : ℕ)
    → value * 10 + (c - b'0') < 2 ^ 63
    → push_digit (pos value) c ≡ some (pos (value * 10 + (c - b'0')))
unfolding push_digit checked_mul checked_add ◌*ℤ◌ ◌+ℤ◌ ◌-ℤ◌
push_digit-exact value c h = ground arith

pub scan_digits-exact :
    (value digits : ℕ) (s rest : Text)
    → AreDigits s
    → starts_with_digit rest ≡ false
    → decimal_value value s < 2 ^ 63
    → scan_digits (pos value) digits (s ++ rest)
      ≡ some (pos (decimal_value value s), digits + length s, rest)
unfolding scan_digits decimal_value
scan_digits-exact value digits [] [] hs hr h = rw add-zero
scan_digits-exact value digits [] (c ∷ rest) hs hr h = rw (hr, add-zero)
scan_digits-exact value digits (c ∷ s) rest hs hr h =
    let is : is_digit c ≡ true = ground arith in
    let fits : value * 10 + (c - b'0') < 2 ^ 63 =
      omega (arith, decimal_value-ge (value * 10 + (c - b'0')) s) in
    let count : suc digits + length s ≡ digits + suc (length s) = omega arith in
    rw (
      is,
      push_digit-exact value c fits,
      scan_digits-exact (value * 10 + (c - b'0')) (suc digits) s rest hs.1 hr h,
      count,
    )

abbrev starts_solid : Text → Bool
starts_solid [] = false
starts_solid (c ∷ s) = not (is_ascii_whitespace c)

skip_whitespace-solid : (s : Text) → starts_solid s ≡ true → skip_whitespace s ≡ s
unfolding skip_whitespace
skip_whitespace-solid [] h = cc
skip_whitespace-solid (c ∷ s) h = ground arith

trim-solid :
    (s : Text)
    → starts_solid s ≡ true
    → starts_solid (reverse s) ≡ true
    → trim_ascii_whitespace s ≡ s
unfolding trim_ascii_whitespace
trim-solid s h k =
    rw (skip_whitespace-solid s h, skip_whitespace-solid (reverse s) k, reverse-reverse s)

any_non_ascii-append :
    (s t : Text) → AreDigits s → any_non_ascii t ≡ false → any_non_ascii (s ++ t) ≡ false
unfolding any_non_ascii
any_non_ascii-append [] t hs ht = ht
any_non_ascii-append (c ∷ s) t hs ht = ground (arith, any_non_ascii-append s t hs.1 ht)

split_comma-append : (s t : Text) → AreDigits s → split_comma t ≡ none → split_comma (s ++ t) ≡ none
unfolding split_comma
split_comma-append [] t hs ht = ht
split_comma-append (c ∷ s) t hs ht =
    let no_comma : (c == b',') ≡ false = ground arith in
    rw (no_comma, split_comma-append s t hs.1 ht)

strip_sign-digit : (c : ℕ) (s : Text) → is_digit c ≡ true → strip_sign (c ∷ s) ≡ c ∷ s
unfolding strip_sign
strip_sign-digit c [] h = refl
strip_sign-digit c (d ∷ s) h = ground arith

abbrev starts_with_dot : Text → Bool
starts_with_dot [] = false
starts_with_dot (c ∷ s) = c == b'.'

-- What the suffix of a unit is made of.
record IsSuffix (s : Text) : Type 0 where
  no_digit : starts_with_digit s ≡ false
  no_dot : starts_with_dot s ≡ false
  ascii : any_non_ascii s ≡ false
  no_comma : split_comma s ≡ none
  solid : (t : Text) → starts_solid (reverse s ++ t) ≡ true

unit_suffix-IsSuffix : (unit : CheckUnit) → IsSuffix (unit_suffix unit)
unfolding unit_suffix text any_non_ascii split_comma
unit_suffix-IsSuffix no_unit = record {
  no_digit = refl;
  no_dot = refl;
  ascii = refl;
  no_comma = refl;
  solid = λ t. refl;
}
unit_suffix-IsSuffix _ = record {
  no_digit = refl;
  no_dot = refl;
  ascii = refl;
  no_comma = refl;
  solid = λ t. refl;
}

suffix_ok-unit_suffix : (unit : CheckUnit) → suffix_ok unit (unit_suffix unit) ≡ true
suffix_ok-unit_suffix count = unfold unit_suffix text text_eq in refl
suffix_ok-unit_suffix no_unit = text_eq_refl (unit_suffix no_unit)
suffix_ok-unit_suffix ms = text_eq_refl (unit_suffix ms)
suffix_ok-unit_suffix ms_per_min = text_eq_refl (unit_suffix ms_per_min)
suffix_ok-unit_suffix frames = text_eq_refl (unit_suffix frames)
suffix_ok-unit_suffix percent = text_eq_refl (unit_suffix percent)
suffix_ok-unit_suffix db = text_eq_refl (unit_suffix db)
suffix_ok-unit_suffix lu = text_eq_refl (unit_suffix lu)
suffix_ok-unit_suffix samples = text_eq_refl (unit_suffix samples)
suffix_ok-unit_suffix ticks = text_eq_refl (unit_suffix ticks)

scan_fraction-none :
    (unit : CheckUnit) (s : Text)
    → starts_with_dot s ≡ false
    → scan_fraction unit s ≡ ok (pos 0, 0, s)
unfolding scan_fraction
scan_fraction-none unit [] h = refl
scan_fraction-none unit (c ∷ s) h = rw h

scale_one : (v : ℕ) → v < 2 ^ 63 → checked_mul (pos v) (pos 1) ≡ some (pos v)
unfolding checked_mul ◌*ℤ◌
scale_one v h = ground arith

add_zero : (v : ℕ) → v < 2 ^ 63 → checked_add (pos v) (pos 0) ≡ some (pos v)
unfolding checked_add ◌+ℤ◌ ◌-ℤ◌
add_zero v h = ground arith

parse_magnitude-integer :
    (unit : CheckUnit) (c : ℕ) (s suffix : Text)
    → AreDigits (c ∷ s)
    → IsSuffix suffix
    → decimal_value 0 (c ∷ s) < 2 ^ 63
    → parse_magnitude unit ((c ∷ s) ++ suffix)
      ≡ ok (record { num = pos (decimal_value 0 (c ∷ s)); den = pos 1; trailing = suffix })
unfolding parse_magnitude decimal_den or_usage
parse_magnitude-integer unit c s suffix hs hx h =
    let some_digits : (0 + suc (length s) == 0) ≡ false = ground arith in
    rw (
      scan_digits-exact 0 0 (c ∷ s) suffix hs hx.no_digit h,
      scan_fraction-none unit suffix hx.no_dot,
      some_digits,
      scale_one (decimal_value 0 (c ∷ s)) h,
      add_zero (decimal_value 0 (c ∷ s)) h,
    )

-- A whole number that fits an int64_t, followed by the unit's suffix, is read as that number; a
-- leading zero does not matter.
pub parse_tolerance-integer :
    (unit : CheckUnit) (c : ℕ) (s : Text)
    → AreDigits (c ∷ s)
    → decimal_value 0 (c ∷ s) < 2 ^ 63
    → parse_tolerance ((c ∷ s) ++ unit_suffix unit) unit
      ≡ ok (record {
        unit = unit;
        num = pos (decimal_value 0 (c ∷ s));
        den = pos 1;
        is_relative = unit_is_percent unit;
        warn_num = none;
      })
unfolding parse_tolerance parse_thresholds parse_one
parse_tolerance-integer unit c s hs h =
    let hx = unit_suffix-IsSuffix unit in
    let digit : is_digit c ≡ true = ground arith in
    let no_minus : (c == b'-') ≡ false = ground arith in
    let solid : starts_solid ((c ∷ s) ++ unit_suffix unit) ≡ true = ground arith in
    let solid_end : starts_solid (reverse ((c ∷ s) ++ unit_suffix unit)) ≡ true =
      rw reverse-append (hx.solid (reverse (c ∷ s))) in
    rw (
      trim-solid ((c ∷ s) ++ unit_suffix unit) solid solid_end,
      strip_sign-digit c (s ++ unit_suffix unit) digit,
      any_non_ascii-append (c ∷ s) (unit_suffix unit) hs hx.ascii,
      no_minus,
      split_comma-append (c ∷ s) (unit_suffix unit) hs hx.no_comma,
      parse_magnitude-integer unit c s (unit_suffix unit) hs hx h,
      suffix_ok-unit_suffix unit,
    )
