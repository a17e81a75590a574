-- ===== src/Tests/Words.antt =====
-- Runs of the text functions of src/core.
use mediadiff.Base.{
  Accepts, [], arith, false, none, ok, pos, refl, some, text, text_eq, true, ◌*ℤ◌, ◌++◌, ◌+ℤ◌, ◌-ℤ◌,
  ◌↔◌, ◌∷◌, ◌≡◌, ◌≢◌,
}
use mediadiff.Core.CheckedArith.{checked_add, checked_mul}
use mediadiff.Core.Glob.{
  diagnose, diagnose_path, glob_matches, glob_matches_path, split_path_segments, split_segments,
  validate_glob, validate_path_glob,
}
use mediadiff.Core.Glob.Decides.{
  AcceptsExactly, glob_matches_iff, glob_matches_path_iff, validate_glob_iff,
}
use mediadiff.Core.Glob.Matches.{IsWellFormed, Matches}
use mediadiff.Core.Registry.{ms, unit_suffix}
use mediadiff.Core.Tolerance.{parse_tolerance}
use mediadiff.Core.Tolerance.Decimal.{decimal_value, parse_tolerance-integer}
use mediadiff.Core.Tolerance.WellFormed.{IsTolerance, parse_tolerance-IsTolerance}

glob_matches_iff_example : (glob_matches (text "container.**") (text "container.ts.pcr") ≡ true) ↔ (
    (text "container.**" ≢ [])
    × IsWellFormed (split_segments (text "container.**"))
    × Matches (split_segments (text "container.**")) (split_segments (text "container.ts.pcr")))
glob_matches_iff_example = glob_matches_iff (text "container.**") (text "container.ts.pcr")

globstar_takes_one_or_more :
    (glob_matches (text "container.ts.**") (text "container.ts.pcr") ≡ true)
    × (glob_matches (text "container.ts.**") (text "container.ts") ≡ false)
    × (glob_matches (text "container.*") (text "container.ts.pcr") ≡ false)
    × (glob_matches (text "a..b") (text "a..b") ≡ false)
unfolding glob_matches text text_eq
globstar_takes_one_or_more = (refl, refl, refl, refl)

parse_tolerance-IsTolerance_example :
    Accepts (IsTolerance ms) (parse_tolerance (text " +-1,2.5ms") ms)
parse_tolerance-IsTolerance_example = parse_tolerance-IsTolerance (text " +-1,2.5ms") ms

parse_two_thresholds :
    parse_tolerance (text " +-1,2.5ms") ms
    ≡ ok (record {
      unit = ms;
      num = pos 25;
      den = pos 10;
      is_relative = false;
      warn_num = some (pos 10);
    })
unfolding parse_tolerance checked_mul checked_add text text_eq ◌*ℤ◌ ◌+ℤ◌ ◌-ℤ◌
parse_two_thresholds = refl

parse_tolerance-integer_example :
    parse_tolerance (text "500" ++ unit_suffix ms) ms
    ≡ ok (record { unit = ms; num = pos 500; den = pos 1; is_relative = false; warn_num = none })
unfolding text decimal_value
parse_tolerance-integer_example =
    parse_tolerance-integer ms b'5' (b'0' ∷ b'0' ∷ []) (omega arith) (omega arith)

validate_glob_iff_example :
    AcceptsExactly
      ((text "a.**.b" ≢ []) × IsWellFormed (split_segments (text "a.**.b")))
      (diagnose (text "a.**.b"))
      (validate_glob (text "a.**.b"))
    × AcceptsExactly
        ((text "a.**.b" ≢ []) × IsWellFormed (split_path_segments (text "a.**.b")))
        (diagnose_path (text "a.**.b"))
        (validate_path_glob (text "a.**.b"))
validate_glob_iff_example = validate_glob_iff (text "a.**.b")

glob_matches_path_iff_example : (glob_matches_path (text "clips/*") (text "clips/a.mp4") ≡ true) ↔ (
    (text "clips/*" ≢ [])
    × IsWellFormed (split_path_segments (text "clips/*"))
    × Matches (split_path_segments (text "clips/*")) (split_path_segments (text "clips/a.mp4")))
glob_matches_path_iff_example = glob_matches_path_iff (text "clips/*") (text "clips/a.mp4")
