-- ===== src/Timeline/Jumps.antt =====
-- The presentation jumps of src/analyzers/timeline/discontinuities.cpp.
pub mod Found
use mediadiff.Base.{List, Option, [], and_then, if◌then◌else◌, ltb_ℤ, none, pos, some, ℕ, ℤ, ◌∷◌}
use mediadiff.Core.CheckedArith.{checked_sub}
use mediadiff.Core.Model.{RationalValue}
use mediadiff.Core.Ticks.{Rational, TickOrder, Ticks, compare_ticks_checked}
use mediadiff.Timeline.{AxisSample, AxisView}
use mediadiff.Timeline.Durations.{ticks_to_ms}
use mediadiff.Timeline.Monotonic.{sort_samples}

abbrev pub discontinuity_threshold_ms : ℤ
discontinuity_threshold_ms = pos 250

abbrev pub threshold : Ticks
threshold = record {
  value = discontinuity_threshold_ms;
  tb = record { num = pos 1; den = pos 1000 };
}

pub record DetectedJump : Type 0 where
  pub start_ms : RationalValue
  pub end_ms : RationalValue
  pub cur_pos : ℤ
  pub cur_packet_index : ℕ

-- The jump to the second sample.
unfoldable pub jump_between : AxisSample → AxisSample → Rational → Option DetectedJump
unfolding ticks_to_ms
jump_between prev cur tb = and_then (ticks_to_ms prev.value tb) (λ start_ms.
    and_then (ticks_to_ms cur.value tb) (λ end_ms. some (record {
      start_ms = start_ms;
      end_ms = end_ms;
      cur_pos = cur.pos;
      cur_packet_index = cur.packet_index;
    })))

-- Adds the jump to those after it, if the interval is above the threshold.
unfoldable pub add_jump :
    AxisSample → AxisSample → Rational → TickOrder → List DetectedJump → Option (List DetectedJump)
unfolding jump_between
add_jump prev cur tb order jumps =
    if order.overflowed
    then none
    else if ltb_ℤ (pos 0) order.order
    then and_then (jump_between prev cur tb) (λ jump. some (jump ∷ jumps))
    else some jumps

-- From the sample after `prev` on.
unfoldable pub jumps_from : AxisSample → List AxisSample → Rational → Option (List DetectedJump)
unfolding checked_sub compare_ticks_checked add_jump
jumps_from prev [] tb = some []
jumps_from prev (cur ∷ others) tb =
    let rest = jumps_from cur others tb in
    and_then (checked_sub cur.value prev.value) (λ interval. and_then rest (λ jumps.
      add_jump prev cur tb (compare_ticks_checked (record { value = interval; tb = tb }) threshold)
        jumps))

unfoldable pub jumps_in : List AxisSample → Rational → Option (List DetectedJump)
unfolding jumps_from
jumps_in [] tb = some []
jumps_in (s ∷ others) tb = jumps_from s others tb

unfoldable pub detect_jumps : AxisView → Rational → Option (List DetectedJump)
unfolding sort_samples jumps_in
detect_jumps view tb = jumps_in (sort_samples view.samples) tb
