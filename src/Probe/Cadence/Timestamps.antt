-- ===== src/Probe/Cadence/Timestamps.antt =====
-- The timestamps of src/probe/cadence.cpp, their intervals and counts. The code sorts packet
-- indices by their timestamps and reads no more of them, so here the timestamps themselves are
-- sorted.
use mediadiff.Base.{
  List, Option, [], and_then, eqb_ℤ, if◌then◌else◌, leb_ℤ, ltb_ℤ, negsuc, pos, some, suc, ℕ, ℤ, ◌∷◌,
}
use mediadiff.Core.CheckedArith.{checked_mul, checked_negate, checked_sub, int64_min}
use mediadiff.Probe.Cadence.{
  CadenceAxis, cadence_epsilon_ticks, conforms_to_grid, grid_conformance_tolerance_ticks,
  timestamp_on,
}
use mediadiff.Timeline.{PacketRecord}

-- The timestamps that are not missing.
unfoldable pub usable_timestamps : CadenceAxis → List PacketRecord → List ℤ
usable_timestamps axis [] = []
usable_timestamps axis (p ∷ packets) =
    let rest = usable_timestamps axis packets in
    if eqb_ℤ (timestamp_on axis p) int64_min then rest else timestamp_on axis p ∷ rest

unfoldable pub insert_timestamp : ℤ → List ℤ → List ℤ
insert_timestamp t [] = t ∷ []
insert_timestamp t (o ∷ times) =
    let later = insert_timestamp t times in if ltb_ℤ o t then o ∷ later else t ∷ o ∷ times

unfoldable pub sort_timestamps : List ℤ → List ℤ
unfolding insert_timestamp
sort_timestamps [] = []
sort_timestamps (t ∷ times) = insert_timestamp t (sort_timestamps times)

-- The intervals from a timestamp on, or nothing where one overflows.
unfoldable pub intervals_from : ℤ → List ℤ → Option (List ℤ)
unfolding checked_sub
intervals_from prev [] = some []
intervals_from prev (t ∷ times) =
    let rest = intervals_from t times in
    and_then (checked_sub t prev)
      (λ interval. and_then rest (λ intervals. some (interval ∷ intervals)))

-- `++tally[interval]` on an ordered map.
unfoldable pub tally_interval : ℤ → List (ℤ × ℕ) → List (ℤ × ℕ)
tally_interval interval [] = (interval, 1) ∷ []
tally_interval interval ((key, n) ∷ tally) =
    let later = tally_interval interval tally in
    if eqb_ℤ interval key
    then (key, suc n) ∷ tally
    else if ltb_ℤ interval key
    then (interval, 1) ∷ (key, n) ∷ tally
    else (key, n) ∷ later

unfoldable pub tally_intervals : List (ℤ × ℕ) → List ℤ → List (ℤ × ℕ)
unfolding tally_interval
tally_intervals tally [] = tally
tally_intervals tally (interval ∷ intervals) =
    tally_intervals (tally_interval interval tally) intervals

-- The first key of the highest count. The code starts at the count -1, so that the first key is
-- taken.
unfoldable pub mode_from : ℤ → ℤ → List (ℤ × ℕ) → ℤ
mode_from mode_interval mode_count [] = mode_interval
mode_from mode_interval mode_count ((interval, n) ∷ tally) =
    let higher = ltb_ℤ mode_count (pos n) in
    mode_from (if higher then interval else mode_interval) (if higher then pos n else mode_count)
      tally

unfoldable pub mode_of : List ℤ → ℤ
unfolding mode_from tally_intervals
mode_of intervals = mode_from (pos 0) (negsuc 0) (tally_intervals [] intervals)

-- The absolute value, or nothing where it is no int64_t.
unfoldable pub size_of_delta : ℤ → Option ℤ
unfolding checked_negate
size_of_delta delta = if ltb_ℤ delta (pos 0) then checked_negate delta else some delta

-- The number of intervals within the epsilon of the mode.
unfoldable pub count_matching : ℤ → List ℤ → Option ℕ
unfolding checked_sub size_of_delta
count_matching mode_interval [] = some 0
count_matching mode_interval (interval ∷ intervals) =
    let rest = count_matching mode_interval intervals in
    and_then (checked_sub interval mode_interval) (λ delta.
      and_then (size_of_delta delta) (λ size_ticks.
        and_then rest (λ n. some (if leb_ℤ size_ticks cadence_epsilon_ticks then suc n else n))))

-- The number of the timestamps from index `n` on that lie on the grid.
unfoldable pub count_conforming : ℤ → ℕ → ℤ → ℕ → List ℤ → Option ℕ
unfolding checked_sub checked_mul conforms_to_grid
count_conforming span_ticks interval_count first n [] = some 0
count_conforming span_ticks interval_count first n (t ∷ times) =
    let rest = count_conforming span_ticks interval_count first (suc n) times in
    and_then (checked_sub t first) (λ actual_delta.
      and_then (checked_mul (pos n) span_ticks) (λ numerator.
        and_then
          (conforms_to_grid numerator (pos interval_count) actual_delta
            grid_conformance_tolerance_ticks)
          (λ on_grid.
            and_then rest (λ conforming. some (if on_grid then suc conforming else conforming)))))
