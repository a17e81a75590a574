-- ===== src/Tests/Compares.antt =====
-- Runs of the comparators of src/compare on concrete measurements.
use mediadiff.Base.{
  List, Text, [], abs_ℤ, arith, false, leb, negsuc, none, ok, pos, refl, some, text, text_eq, true,
  ℤ, ◌++◌, ◌-ℤ◌, ◌<◌, ◌^◌, ◌↔◌, ◌∷◌, ◌≡◌, ◌≤◌, ◌⊎◌,
}
use mediadiff.Compare.Dist.{bins_of, compare_dist, dist_outcome}
use mediadiff.Compare.Dist.Found.{IsNearAt}
use mediadiff.Compare.Dist.Verdict.{compare_dist-IsVerdict}
use mediadiff.Compare.Divergence.{compute_divergence}
use mediadiff.Compare.Divergence.Blocks.{compute_divergence-ranges}
use mediadiff.Compare.Divergence.Ranges.{Differs, InRanges}
use mediadiff.Compare.Sets.{IsVerdict}
use mediadiff.Compare.Tol.{Outcome, adjusted_pair, end_delta_gate, extract_pair, no_preference}
use mediadiff.Compare.Tol.Compared.{Verdict, compare_tol-Verdict}
use mediadiff.Compare.Tol.Gates.{end_delta_gate-IsGate}
use mediadiff.Compare.Tol.Run.{
  ceiling_crossed_upward, compare_tol, side_adjusted_preference, side_end_delta_ms,
}
use mediadiff.Compare.Verdict.{Magnitude, in_range, out_of_range}
use mediadiff.Core.CheckedArith.{checked_add, checked_mul}
use mediadiff.Core.Model.{
  Finding, HashChain, Measurement, Value, histogram_value, int64_value, passed, warned,
}
use mediadiff.Core.Policy.Resolve.{resolve_severity}
use mediadiff.Core.Registry.{ms, remux, tolerance_for}
use mediadiff.Core.Tolerance.{Tolerance, parse_tolerance}
use mediadiff.Tests.Policies.{a_check, base_policy}
use mediadiff.Tests.Runs.{measured, plain}

-- A difference of 3 ms, within the default 5 ms.
abbrev at_ms : ℤ → Measurement (List (Text × Text))
at_ms n = measured 0 (int64_value n)

abbrev five_ms_tolerance : Tolerance
five_ms_tolerance = record {
  unit = ms;
  num = pos 5;
  den = pos 1;
  is_relative = false;
  warn_num = none;
}

abbrev one_tick : ℤ → Magnitude
one_tick n = record { num = n; den = pos 1; tb = record { num = pos 1; den = pos 1 } }

five_ms_text :
    parse_tolerance (tolerance_for (a_check (text "video.a") false) remux) ms ≡ ok five_ms_tolerance
unfolding parse_tolerance tolerance_for text checked_mul checked_add text_eq
five_ms_text = refl

no_preference-plain : (n : ℤ) → side_adjusted_preference plain (at_ms n) ≡ ok no_preference
unfolding side_adjusted_preference
no_preference-plain n = refl

two_magnitudes :
    extract_pair (int64_value (pos 10)) (int64_value (pos 13))
    ≡ ok (one_tick (pos 10), one_tick (pos 13))
unfolding extract_pair
two_magnitudes = refl

no_gate :
    end_delta_gate
      (side_end_delta_ms plain (at_ms (pos 10)))
      (side_end_delta_ms plain (at_ms (pos 13)))
    ≡ in_range true
unfolding end_delta_gate side_end_delta_ms
no_gate = refl

compare_tol-Verdict_example :
    (f : Finding (List (Text × Text))) × (compare_tol plain
        (a_check (text "video.a") false)
        (at_ms (pos 10))
        (at_ms (pos 13))
        base_policy
      ≡ ok f)
    × Verdict
        (resolve_severity (a_check (text "video.a") false) base_policy)
        five_ms_tolerance
        true
        (ceiling_crossed_upward plain (at_ms (pos 10)) (at_ms (pos 13)))
        false
        (adjusted_pair no_preference no_preference (one_tick (pos 10), one_tick (pos 13)))
        f.status
unfolding adjusted_pair
compare_tol-Verdict_example =
    compare_tol-Verdict plain (a_check (text "video.a") false) (at_ms (pos 10)) (at_ms (pos 13))
      base_policy five_ms_tolerance (one_tick (pos 10), one_tick (pos 13)) no_preference
      no_preference true five_ms_text two_magnitudes (no_preference-plain (pos 10))
      (no_preference-plain (pos 13)) (omega arith, omega arith) (omega arith, omega arith) no_gate

end_delta_gate-IsGate_example :
    ((abs_ℤ (pos 5 -ℤ negsuc 3) < 2 ^ 63)
      × (end_delta_gate (some (negsuc 3)) (some (pos 5))
          ≡ in_range (leb 2 (abs_ℤ (pos 5 -ℤ negsuc 3)))))
    ⊎ ((2 ^ 63 ≤ abs_ℤ (pos 5 -ℤ negsuc 3))
        × ((what : Text) × (end_delta_gate (some (negsuc 3)) (some (pos 5)) ≡ out_of_range what)))
end_delta_gate-IsGate_example = end_delta_gate-IsGate (negsuc 3) (pos 5) (omega arith) (omega arith)

-- Three of four in one bin against two of four: 25 percentage points apart.
abbrev pub bars : ℤ → ℤ → Value
bars m n = histogram_value (record { bins = (text "a", m) ∷ (text "b", n) ∷ [] })

abbrev half_tolerance : Tolerance
half_tolerance = record {
  unit = ms;
  num = pos 5;
  den = pos 1;
  is_relative = false;
  warn_num = none;
}

abbrev bars_outcome : Outcome
bars_outcome = record {
  status = warned;
  message = text "worst bin '" ++ text "a" ++ text "' exceeds tolerance";
}

bars_run :
    dist_outcome
      (resolve_severity (a_check (text "video.a") false) base_policy)
      half_tolerance
      (bins_of (bars (pos 3) (pos 1)))
      (bins_of (bars (pos 2) (pos 2)))
    ≡ in_range bars_outcome
unfolding dist_outcome resolve_severity text text_eq
bars_run = refl

compare_dist-IsVerdict_example :
    (f : Finding (List (Text × Text))) × (compare_dist plain
        (a_check (text "video.a") false)
        (measured 0 (bars (pos 3) (pos 1)))
        (measured 0 (bars (pos 2) (pos 2)))
        base_policy
      ≡ ok f)
    × IsVerdict passed
        (resolve_severity (a_check (text "video.a") false) base_policy)
        ((name : Text)
          → IsNearAt half_tolerance
              (bins_of (bars (pos 3) (pos 1)))
              (bins_of (bars (pos 2) (pos 2)))
              name)
        f.status
compare_dist-IsVerdict_example =
    compare_dist-IsVerdict plain (a_check (text "video.a") false)
      (measured 0 (bars (pos 3) (pos 1))) (measured 0 (bars (pos 2) (pos 2))) base_policy
      half_tolerance bars_outcome five_ms_text bars_run

abbrev chain : List Text → HashChain
chain blocks = record {
  algorithm = text "xxh3";
  digest = text "d";
  element_count = pos 100;
  block_digests = blocks;
  element_stride = pos 50;
}

compute_divergence-ranges_example :
    InRanges
      (pos 1)
      (compute_divergence plain
        (chain (text "a" ∷ text "b" ∷ []))
        (chain (text "a" ∷ text "c" ∷ text "d" ∷ []))
        none).divergent_ranges
    ↔ Differs (text "a" ∷ text "b" ∷ []) (text "a" ∷ text "c" ∷ text "d" ∷ []) 1
compute_divergence-ranges_example =
    compute_divergence-ranges plain (chain (text "a" ∷ text "b" ∷ []))
      (chain (text "a" ∷ text "c" ∷ text "d" ∷ [])) none refl 1

-- Blocks 1 and 2 differ.
two_blocks_differ :
    (compute_divergence plain
      (chain (text "a" ∷ text "b" ∷ []))
      (chain (text "a" ∷ text "c" ∷ text "d" ∷ []))
      none).divergent_block_count
    ≡ pos 2
unfolding compute_divergence text_eq text
two_blocks_differ = refl
