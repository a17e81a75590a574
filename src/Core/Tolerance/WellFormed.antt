-- ===== src/Core/Tolerance/WellFormed.antt =====
-- Every tolerance that src/core/tolerance.cpp accepts is well formed.
use mediadiff.Base.{
  Accepts, Accepts-bind, Accepts-if, Option, Returns, Text, [], arith, if◌then◌else◌, is_empty,
  is_some, leb_ℤ, ltb_ℤ, negsuc, none, not, pos, refl, some, text_eq, ℤ, ◌&&◌, ◌<ℤ◌, ◌==◌, ◌∷◌, ◌≡◌,
  ◌≤ℤ◌,
}
use mediadiff.Core.CheckedArith.{checked_add, checked_mul, int64_max, trunc_div}
use mediadiff.Core.Registry.{CheckUnit}
use mediadiff.Core.Tolerance.{
  ParsedMagnitude, Tolerance, any_non_ascii, decimal_den, parse_magnitude, parse_one,
  parse_thresholds, parse_tolerance, parse_two, scan_digits, scan_fraction, split_comma,
  starts_negative, strip_sign, suffix_ok, too_large, trim_ascii_whitespace, two_thresholds,
  unit_is_percent, usage_error,
}
use mediadiff.Core.Tolerance.Bounds.{
  Accepts-or_usage, IsDen, IsNatural64, IsScan, Returns-checked_add, Returns-checked_mul,
  decimal_den-bounds, scan_digits-bounds,
}

-- A magnitude with a positive denominator.
abbrev IsMagnitude : ParsedMagnitude → Type 0
IsMagnitude m = IsNatural64 m.num × IsDen m.den

Accepts-scan_fraction : (unit : CheckUnit) (s : Text) → Accepts IsScan (scan_fraction unit s)
unfolding scan_fraction usage_error
Accepts-scan_fraction unit [] = omega arith
Accepts-scan_fraction unit (c ∷ s) =
    Accepts-if IsScan (c == b'.') _ _
      (λ dot.
        Accepts-bind IsScan IsScan _ _
          (Accepts-or_usage IsScan unit too_large (scan_digits (pos 0) 0 s)
            (scan_digits-bounds (pos 0) 0 s (omega arith)))
          λ r hr. Accepts-if IsScan (r.1 == 0) _ _ (λ _. tt) (λ _. hr))
      (λ no_dot. omega arith)

Accepts-parse_magnitude :
    (unit : CheckUnit) (s : Text) → Accepts IsMagnitude (parse_magnitude unit s)
unfolding parse_magnitude usage_error
Accepts-parse_magnitude unit s =
    Accepts-bind IsScan IsMagnitude _ _
      (Accepts-or_usage IsScan unit too_large (scan_digits (pos 0) 0 s)
        (scan_digits-bounds (pos 0) 0 s (omega arith)))
      λ i hi. Accepts-bind IsScan IsMagnitude _ _ (Accepts-scan_fraction unit i.2) λ f hf.
        Accepts-if IsMagnitude (i.1 == 0 && f.1 == 0) _ _ (λ _. tt)
          λ _.
            Accepts-bind IsDen IsMagnitude _ _
              (Accepts-or_usage IsDen unit too_large (decimal_den f.1 (pos 1))
                (decimal_den-bounds f.1 (pos 1) (omega arith)))
              λ d hd.
                Accepts-bind IsNatural64 IsMagnitude _ _
                  (Accepts-or_usage IsNatural64 unit too_large (checked_mul i.0 d)
                    (Returns-checked_mul i.0 d hi.0 (omega arith)))
                  λ p hp.
                    Accepts-bind IsNatural64 IsMagnitude _ _
                      (Accepts-or_usage IsNatural64 unit too_large (checked_add p f.0)
                        (Returns-checked_add p f.0 hp hf))
                      λ n hn. (hn, hd)

-- What a tolerance for a unit is sure to be: it carries the unit, is relative exactly for
-- percent, has a positive denominator and thresholds that are not negative, and its warn threshold
-- is at most its fail threshold.
pub record IsTolerance (unit : CheckUnit) (t : Tolerance) : Type 0 where
  pub same_unit : t.unit ≡ unit
  pub relative : t.is_relative ≡ unit_is_percent unit
  pub num_bounds : IsNatural64 t.num
  pub den_bounds : (pos 0 <ℤ t.den) × (t.den ≤ℤ int64_max)
  pub warn_bounds : Returns (λ w. IsNatural64 w × (w ≤ℤ t.num)) t.warn_num

quotient_nonneg : (a b : ℤ) → pos 0 ≤ℤ a → pos 0 <ℤ b → pos 0 ≤ℤ trunc_div a b
quotient_nonneg (pos a) (pos b) ha hb = omega arith
quotient_nonneg (pos a) (negsuc b) ha hb = absurd (omega arith)
quotient_nonneg (negsuc a) b ha hb = absurd (omega arith)

Accepts-parse_one : (unit : CheckUnit) (s : Text) → Accepts (IsTolerance unit) (parse_one unit s)
unfolding parse_one usage_error
Accepts-parse_one unit s =
    Accepts-bind IsMagnitude (IsTolerance unit) _ _ (Accepts-parse_magnitude unit s) λ m hm.
      Accepts-if (IsTolerance unit) (not (suffix_ok unit m.trailing)) _ _ (λ _. tt)
        λ _. record {
          same_unit = refl;
          relative = refl;
          num_bounds = hm.0;
          den_bounds = hm.1;
          warn_bounds = tt;
        }

Accepts-two_thresholds :
    (unit : CheckUnit) (w f : ParsedMagnitude)
    → IsMagnitude w
    → IsMagnitude f
    → Accepts (IsTolerance unit) (two_thresholds unit w f)
unfolding two_thresholds usage_error
Accepts-two_thresholds unit w f hw hf =
    Accepts-bind IsNatural64 (IsTolerance unit) _ _
      (Accepts-or_usage IsNatural64 unit too_large _ (
        Returns-checked_mul f.num (trunc_div common f.den) hf.0.0
          (quotient_nonneg common f.den common_pos hf.1.0)))
      λ fs hfs.
        Accepts-bind IsNatural64 (IsTolerance unit) _ _
          (Accepts-or_usage IsNatural64 unit too_large _ (
            Returns-checked_mul w.num (trunc_div common w.den) hw.0.0
              (quotient_nonneg common w.den common_pos hw.1.0)))
          λ ws hws.
            Accepts-if (IsTolerance unit) (ltb_ℤ fs ws) _ _ (λ _. tt)
              λ le. record {
                same_unit = refl;
                relative = refl;
                num_bounds = hfs;
                den_bounds = common_den;
                warn_bounds = (hws, ground arith);
              }
  where
    common : ℤ
    common = if leb_ℤ w.den f.den then f.den else w.den

    common_den : IsDen common
    common_den = ground arith

    common_pos : pos 0 ≤ℤ common
    common_pos = ground arith

Accepts-parse_two :
    (unit : CheckUnit) (s t : Text) → Accepts (IsTolerance unit) (parse_two unit s t)
unfolding parse_two usage_error
Accepts-parse_two unit s t =
    Accepts-bind IsMagnitude (IsTolerance unit) _ _ (Accepts-parse_magnitude unit s) λ w hw.
      Accepts-bind IsMagnitude (IsTolerance unit) _ _ (Accepts-parse_magnitude unit t) λ f hf.
        Accepts-if (IsTolerance unit) (not (suffix_ok unit f.trailing)) _ _ (λ _. tt)
          λ _.
            Accepts-if (IsTolerance unit)
              (not (is_empty w.trailing) && not (text_eq w.trailing f.trailing)) _ _ (λ _. tt)
              λ _. Accepts-two_thresholds unit w f hw hf

Accepts-parse_thresholds :
    (unit : CheckUnit) (s : Text) (o : Option (Text × Text))
    → Accepts (IsTolerance unit) (parse_thresholds unit s o)
unfolding parse_thresholds usage_error
Accepts-parse_thresholds unit s none = Accepts-parse_one unit s
Accepts-parse_thresholds unit s (some (w, f)) =
    Accepts-if (IsTolerance unit) (is_some (split_comma f)) _ _ (λ _. tt)
      λ _. Accepts-parse_two unit w f

-- Every tolerance that is accepted is well formed, whatever the text and the unit.
pub parse_tolerance-IsTolerance :
    (raw : Text) (unit : CheckUnit) → Accepts (IsTolerance unit) (parse_tolerance raw unit)
unfolding parse_tolerance usage_error
parse_tolerance-IsTolerance raw unit =
    Accepts-if (IsTolerance unit) (is_empty (trim_ascii_whitespace raw)) _ _ (λ _. tt)
      λ _.
        Accepts-if (IsTolerance unit) (is_empty (strip_sign (trim_ascii_whitespace raw))) _ _
          (λ _. tt)
          λ _.
            Accepts-if (IsTolerance unit) (any_non_ascii (strip_sign (trim_ascii_whitespace raw))) _
              _ (λ _. tt)
              λ _.
                Accepts-if (IsTolerance unit)
                  (starts_negative (strip_sign (trim_ascii_whitespace raw))) _ _ (λ _. tt)
                  λ _.
                    Accepts-parse_thresholds unit (strip_sign (trim_ascii_whitespace raw))
                      (split_comma (strip_sign (trim_ascii_whitespace raw)))
