-- ===== src/Probe/Cadence/Derive.antt =====
-- `derive_cadence` of src/probe/cadence.cpp, from its end to its start.
use mediadiff.Base.{
  List, Option, [], if◌then◌else◌, leb_ℤ, length, ltb, none, pos, some, suc, ℕ, ℤ, ◌&&◌, ◌==◌, ◌||◌,
  ◌∷◌,
}
use mediadiff.Core.CheckedArith.{checked_mul, checked_sub}
use mediadiff.Core.Ticks.{Rational}
use mediadiff.Probe.Cadence.{
  Cadence, CadenceAxis, cadence_cfr, cadence_dts, cadence_insufficient_data, cadence_no_timing_data,
  cadence_ok, cadence_pts, cadence_vfr, cfr_matching_proportion_den, cfr_matching_proportion_num,
  count_usable, max_packets_per_stream, start_cadence, with_status,
}
use mediadiff.Probe.Cadence.Timestamps.{
  count_conforming, count_matching, intervals_from, mode_of, sort_timestamps, usable_timestamps,
}
use mediadiff.Timeline.{PacketRecord}

abbrev pub last_timestamp : ℤ → List ℤ → ℤ
last_timestamp t [] = t
last_timestamp t (u ∷ times) = last_timestamp u times

abbrev pub class_by : Option ℤ → Option ℤ → Cadence → Cadence
class_by (some lhs) (some rhs) result = record result {
  klass = if leb_ℤ rhs lhs then cadence_cfr else cadence_vfr;
}
class_by _ _ result = with_status cadence_insufficient_data result

-- The class by the proportion of the timestamps on the grid.
unfoldable pub classify : Option ℕ → ℕ → Cadence → Cadence
unfolding checked_mul
classify none considered result = with_status cadence_insufficient_data result
classify (some conforming) considered result =
    class_by (checked_mul (pos conforming) cfr_matching_proportion_den)
      (checked_mul (pos considered) cfr_matching_proportion_num)
      (record result { conforming_timestamps = conforming; considered_timestamps = considered })

-- From the span of the timestamps on.
unfoldable pub with_span : ℤ → List ℤ → Option ℤ → Cadence → Cadence
unfolding count_conforming classify
with_span first times none result = with_status cadence_insufficient_data result
with_span first times (some span_ticks) result =
    classify (count_conforming span_ticks result.total_intervals first 0 (first ∷ times))
      (suc (length times))
      (record result {
        span_ticks = span_ticks;
        interval_count = result.total_intervals;
        ideal_interval_num = span_ticks;
        ideal_interval_den = result.total_intervals;
      })

-- From the count of the matching intervals on.
unfoldable pub with_matching : ℤ → List ℤ → List ℤ → ℤ → Option ℕ → Cadence → Cadence
unfolding checked_sub with_span
with_matching first times intervals mode_interval none result =
    with_status cadence_insufficient_data result
with_matching first times intervals mode_interval (some n) result =
    with_span first times (checked_sub (last_timestamp first times) first) (record result {
      status = cadence_ok;
      mode_interval_ticks = mode_interval;
      matching_intervals = n;
      total_intervals = length intervals;
    })

-- From the intervals on.
unfoldable pub with_intervals : ℤ → List ℤ → Option (List ℤ) → Cadence → Cadence
unfolding mode_of count_matching with_matching
with_intervals first times none result = with_status cadence_insufficient_data result
with_intervals first times (some intervals) result =
    let mode_interval = mode_of intervals in
    with_matching first times intervals mode_interval (count_matching mode_interval intervals)
      result

-- From the sorted timestamps on; fewer than two are not enough.
unfoldable pub with_timestamps : List ℤ → Cadence → Cadence
unfolding intervals_from with_intervals
with_timestamps (first ∷ second ∷ times) result =
    with_intervals first (second ∷ times) (intervals_from first (second ∷ times)) result
with_timestamps _ result = with_status cadence_insufficient_data result

-- The cadence on an axis that has this many timestamps, as far as they were counted.
unfoldable pub derive_on : CadenceAxis → ℕ → List PacketRecord → Cadence → Cadence
unfolding usable_timestamps sort_timestamps with_timestamps
derive_on axis usable packets result =
    let on_axis = record result { axis = axis } in
    if ltb usable 2
    then with_status cadence_insufficient_data on_axis
    else with_timestamps (sort_timestamps (usable_timestamps axis packets)) on_axis

-- PTS with at least two timestamps, otherwise DTS.
unfoldable pub with_axis : ℕ → ℕ → List PacketRecord → Cadence → Cadence
unfolding derive_on
with_axis pts_usable dts_usable packets result =
    if ltb pts_usable 2
    then (if (dts_usable == 0) && (pts_usable == 0)
        then with_status cadence_no_timing_data result
        else derive_on cadence_dts dts_usable packets result)
    else derive_on cadence_pts pts_usable packets result

unfoldable pub derive_cadence : List PacketRecord → Rational → Cadence
unfolding count_usable with_axis
derive_cadence packets tb =
    if ltb max_packets_per_stream (length packets) || leb_ℤ tb.num (pos 0) || leb_ℤ tb.den (pos 0)
    then start_cadence tb
    else with_axis (count_usable packets cadence_pts 2) (count_usable packets cadence_dts 2) packets
        (start_cadence tb)
