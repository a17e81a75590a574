-- ===== src/Tests/Timelines.antt =====
-- Packet timelines at concrete packets: a clock that wraps between the second and the third.
use mediadiff.Base.{
  List, [], arith, false, map, negsuc, none, pos, refl, some, true, ℕ, ℤ, ◌+◌, ◌-◌, ◌^◌, ◌∷◌, ◌≡◌,
}
use mediadiff.Core.Model.{RationalValue}
use mediadiff.Core.Ticks.{Rational}
use mediadiff.Timeline.{AxisView, PacketRecord, build_axis_view, dts_axis}
use mediadiff.Timeline.Durations.{first_presented_pts, one_second, reconstruct_packet_durations}
use mediadiff.Timeline.Durations.First.{IsLeastOf, first_presented_pts-IsLeastOf}
use mediadiff.Timeline.Jumps.{DetectedJump, detect_jumps}
use mediadiff.Timeline.Jumps.Found.{detect_jumps-far_sides, far_sides_in, indices_of}
use mediadiff.Timeline.Monotonic.{count_dts_violations, count_pts_duplicates, sort_samples}
use mediadiff.Timeline.Monotonic.Duplicates.{
  IsDuplicateResult, count_pts_duplicates-IsDuplicateResult,
}
use mediadiff.Timeline.Monotonic.Violations.{IsMonotonicResult, count_dts_violations-IsMonotonic}
use mediadiff.Timeline.Scopes.{
  StreamMediaType, compute_stream_scopes, media_attachment, media_audio, media_data, media_other,
  media_video,
}
use mediadiff.Timeline.Scopes.Apart.{OneEach, compute_stream_scopes-OneEach}
use mediadiff.Timeline.Unwrap.{unwrap_ts_timestamps, wrap_modulus}
use mediadiff.Timeline.Unwrap.Recovers.{
  SteadyFrom, epoch, last_after, unwrap_ts_timestamps-Recovers, wire,
}
use mediadiff.Timeline.Views.{make_timeline_packet_views}
use mediadiff.Timeline.Views.Payloads.{make_timeline_packet_views-payloads, payloads, view_payloads}

abbrev wrapping_times : List ℕ
wrapping_times = (2 ^ 33 - 1000) ∷ (2 ^ 33 + 2000) ∷ []

abbrev first_time : ℕ
first_time = 2 ^ 33 - 4000

wrapping_times-Steady : SteadyFrom first_time wrapping_times
wrapping_times-Steady = (omega arith, (omega arith, tt))

unwrap_ts_timestamps-Recovers_example :
    unwrap_ts_timestamps (map wire (first_time ∷ wrapping_times)) ≡ record {
      unwrapped = map pos (first_time ∷ wrapping_times);
      wrap_events = epoch (last_after first_time wrapping_times);
      overflowed = false;
    }
unwrap_ts_timestamps-Recovers_example =
    unwrap_ts_timestamps-Recovers first_time wrapping_times (omega arith) wrapping_times-Steady

abbrev packet_at : ℤ → PacketRecord
packet_at t = record {
  pts = t;
  dts = t;
  duration = pos 3000;
  size = pos 188;
  pos = pos 0;
  flags = pos 1;
}

abbrev wrapped_packets : List PacketRecord
wrapped_packets = packet_at (wire (2 ^ 33 - 1000)) ∷ packet_at (wire (2 ^ 33 + 2000)) ∷ []

-- Without the unwrapping the wrap is a violation, and the two equal timestamps are duplicates.
abbrev raw_view : AxisView
raw_view =
    build_axis_view (packet_at (pos 5000) ∷ packet_at (pos 1000) ∷ packet_at (pos 5000) ∷ [])
      dts_axis

count_dts_violations-IsMonotonic_example :
    IsMonotonicResult raw_view.samples (count_dts_violations raw_view)
count_dts_violations-IsMonotonic_example = count_dts_violations-IsMonotonic raw_view

raw_view-violation : (count_dts_violations raw_view).first_violation_index ≡ some 1
unfolding count_dts_violations build_axis_view
raw_view-violation = refl

count_pts_duplicates-IsDuplicateResult_example :
    IsDuplicateResult raw_view.samples (count_pts_duplicates raw_view)
count_pts_duplicates-IsDuplicateResult_example = count_pts_duplicates-IsDuplicateResult raw_view

raw_view-duplicates : (count_pts_duplicates raw_view).first_duplicate_index_b ≡ some 2
unfolding count_pts_duplicates build_axis_view
raw_view-duplicates = refl

-- A stream just before the wrap and one just after it.
abbrev split_streams : List (List PacketRecord)
split_streams = (packet_at (pos 8589934000) ∷ []) ∷ (packet_at (pos 500) ∷ []) ∷ []

make_timeline_packet_views-payloads_example :
    view_payloads (make_timeline_packet_views split_streams true) ≡ map payloads split_streams
make_timeline_packet_views-payloads_example = make_timeline_packet_views-payloads split_streams true

split_streams-shift :
    map (λ view. view.epoch_shift) (make_timeline_packet_views split_streams true)
    ≡ pos 0 ∷ wrap_modulus ∷ []
unfolding make_timeline_packet_views
split_streams-shift = refl

first_presented_pts-IsLeastOf_example :
    IsLeastOf wrapped_packets (first_presented_pts wrapped_packets)
first_presented_pts-IsLeastOf_example = first_presented_pts-IsLeastOf wrapped_packets

first_of_wrapped : first_presented_pts wrapped_packets ≡ some (pos 2000)
unfolding first_presented_pts
first_of_wrapped = refl

abbrev tick_ms : Rational
tick_ms = record { num = pos 1; den = pos 1000 }

abbrev whole_ms : ℤ → RationalValue
whole_ms n = record { num = n; den = pos 1; tb = one_second }

abbrev one_jump : List DetectedJump
one_jump =
    record {
      start_ms = whole_ms (pos 1000);
      end_ms = whole_ms (pos 5000);
      cur_pos = pos 0;
      cur_packet_index = 0;
    }
    ∷ []

raw_view-jumps : detect_jumps raw_view tick_ms ≡ some one_jump
unfolding detect_jumps build_axis_view
raw_view-jumps = refl

detect_jumps-far_sides_example :
    indices_of one_jump ≡ far_sides_in (sort_samples raw_view.samples) tick_ms
detect_jumps-far_sides_example = detect_jumps-far_sides raw_view tick_ms one_jump raw_view-jumps

-- The last packet has no duration and takes the interval of the cadence.
abbrev bare_packet : ℤ → PacketRecord
bare_packet t = record {
  pts = t;
  dts = t;
  duration = pos 0;
  size = pos 1;
  pos = pos 0;
  flags = pos 0;
}

bare_durations :
    reconstruct_packet_durations
      (bare_packet (pos 40) ∷ bare_packet (pos 0) ∷ bare_packet (pos 80) ∷ [])
      tick_ms
    ≡ some (
        record { pts_ticks = pos 0; duration_ticks = pos 40; reconstructed = true }
        ∷ record { pts_ticks = pos 40; duration_ticks = pos 40; reconstructed = true }
        ∷ record { pts_ticks = pos 80; duration_ticks = pos 40; reconstructed = true }
        ∷ [])
unfolding reconstruct_packet_durations
bare_durations = refl

abbrev some_streams : List StreamMediaType
some_streams =
    media_video ∷ media_audio ∷ media_attachment ∷ media_audio ∷ media_other ∷ media_data ∷ []

some_streams-scopes :
    map (λ o. elim o [ none ↦ negsuc 0 | some s ↦ s.index ]) (compute_stream_scopes some_streams)
    ≡ pos 0 ∷ pos 0 ∷ negsuc 0 ∷ pos 1 ∷ pos 0 ∷ pos 1 ∷ []
unfolding compute_stream_scopes
some_streams-scopes = refl

compute_stream_scopes-OneEach_example : OneEach (compute_stream_scopes some_streams)
compute_stream_scopes-OneEach_example = compute_stream_scopes-OneEach some_streams
