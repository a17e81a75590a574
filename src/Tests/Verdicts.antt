-- ===== src/Tests/Verdicts.antt =====
-- Runs of the threshold tests of src/compare/tol.cpp.
use mediadiff.Base.{false, pos, refl, some, true, ℤ, ◌≡◌}
use mediadiff.Compare.Verdict.{Magnitude, in_range, tolerance_tests}
use mediadiff.Core.Registry.{ms}
use mediadiff.Core.Tolerance.{Tolerance}

-- 5ms, and 1ms as the warn threshold.
abbrev five_ms : Tolerance
five_ms = record {
  unit = ms;
  num = pos 5;
  den = pos 1;
  is_relative = false;
  warn_num = some (pos 1);
}

abbrev in_ms : ℤ → ℤ → Magnitude
in_ms num den = record { num = num; den = den; tb = record { num = pos 1; den = pos 1 } }

-- 40/2 ms and 13 ms differ by 7 ms: within 5 ms three times widened, but not within 1 ms.
between_the_thresholds :
    tolerance_tests five_ms true (in_ms (pos 13) (pos 1)) (in_ms (pos 40) (pos 2))
    ≡ in_range (true, false)
unfolding tolerance_tests
between_the_thresholds = refl
