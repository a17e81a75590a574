-- ===== src/Probe/Cadence.antt =====
-- src/probe/cadence.cpp: whether a stream's timestamps lie on a constant grid. A
-- count is a natural number, and so is the index of a timestamp.
pub mod Timestamps
pub mod Derive
pub mod Rounding
pub mod Bounds
pub mod Grid
pub mod Sorting
pub mod Shuffled
use mediadiff.Base.{
  Bool, List, Option, [], abs_ℤ, and_then, eqb_ℤ, if◌then◌else◌, leb, ltb_ℤ, not, pos, some, suc, ℕ,
  ℤ, ◌%◌, ◌&&◌, ◌==◌, ◌||◌, ◌∷◌,
}
use mediadiff.Core.CheckedArith.{checked_add, checked_mul, checked_sub, int64_min}
use mediadiff.Core.Ticks.{Rational}
use mediadiff.Timeline.{PacketRecord}

pub data CadenceAxis : Type 0 where
  cadence_pts cadence_dts : CadenceAxis

pub data CadenceStatus : Type 0 where
  cadence_ok cadence_no_timing_data cadence_insufficient_data : CadenceStatus

pub data CadenceClass : Type 0 where
  cadence_cfr cadence_vfr : CadenceClass

abbrev pub max_packets_per_stream : ℕ
max_packets_per_stream = 5000000

abbrev pub cadence_epsilon_ticks : ℤ
cadence_epsilon_ticks = pos 0

abbrev pub cfr_matching_proportion_num : ℤ
cfr_matching_proportion_num = pos 995

abbrev pub cfr_matching_proportion_den : ℤ
cfr_matching_proportion_den = pos 1000

abbrev pub grid_conformance_tolerance_ticks : ℤ
grid_conformance_tolerance_ticks = pos 1

pub record Cadence : Type 0 where
  pub status : CadenceStatus
  pub axis : CadenceAxis
  pub klass : CadenceClass
  pub mode_interval_ticks : ℤ
  pub tb : Rational
  pub matching_intervals : ℕ
  pub total_intervals : ℕ
  pub span_ticks : ℤ
  pub interval_count : ℕ
  pub ideal_interval_num : ℤ
  pub ideal_interval_den : ℕ
  pub conforming_timestamps : ℕ
  pub considered_timestamps : ℕ

abbrev pub start_cadence : Rational → Cadence
start_cadence tb = record {
  status = cadence_insufficient_data;
  axis = cadence_pts;
  klass = cadence_vfr;
  mode_interval_ticks = pos 0;
  tb = tb;
  matching_intervals = 0;
  total_intervals = 0;
  span_ticks = pos 0;
  interval_count = 0;
  ideal_interval_num = pos 0;
  ideal_interval_den = 0;
  conforming_timestamps = 0;
  considered_timestamps = 0;
}

abbrev pub with_status : CadenceStatus → Cadence → Cadence
with_status status result = record result { status = status }

abbrev pub timestamp_on : CadenceAxis → PacketRecord → ℤ
timestamp_on cadence_pts p = p.pts
timestamp_on cadence_dts p = p.dts

-- From a count on; the loop stops at the cap.
unfoldable pub count_usable_from : ℕ → List PacketRecord → CadenceAxis → ℕ → ℕ
count_usable_from n [] axis cap = n
count_usable_from n (p ∷ packets) axis cap =
    let missing = eqb_ℤ (timestamp_on axis p) int64_min in
    let counted = if missing then n else suc n in
    let rest = count_usable_from counted packets axis cap in
    if not missing && leb cap counted then counted else rest

unfoldable pub count_usable : List PacketRecord → CadenceAxis → ℕ → ℕ
unfolding count_usable_from
count_usable packets axis cap = count_usable_from 0 packets axis cap

abbrev pub is_even : ℤ → Bool
is_even k = (abs_ℤ k % 2) == 0

-- `low_bound`: denominator * (2 * k - 1).
unfoldable pub low_bound : ℤ → ℤ → Option ℤ
unfolding checked_mul checked_sub
low_bound denominator k =
    and_then (checked_mul k (pos 2))
      (λ two_k. and_then (checked_sub two_k (pos 1)) (λ odd. checked_mul denominator odd))

-- `high_bound`: denominator * (2 * k + 1).
unfoldable pub high_bound : ℤ → ℤ → Option ℤ
unfolding checked_mul checked_add
high_bound denominator k =
    and_then (checked_mul k (pos 2))
      (λ two_k. and_then (checked_add two_k (pos 1)) (λ odd. checked_mul denominator odd))

abbrev pub low_ok : ℤ → ℤ → ℤ → Bool
low_ok two_numerator bound k = ltb_ℤ bound two_numerator || (eqb_ℤ two_numerator bound && is_even k)

abbrev pub high_ok : ℤ → ℤ → ℤ → Bool
high_ok two_numerator bound k =
    ltb_ℤ two_numerator bound || (eqb_ℤ two_numerator bound && is_even k)

-- Nothing where the arithmetic overflows.
unfoldable pub conforms_to_grid : ℤ → ℤ → ℤ → ℤ → Option Bool
unfolding checked_add checked_sub low_bound high_bound
conforms_to_grid numerator denominator actual_delta tolerance =
    and_then (checked_add numerator numerator) (λ two_numerator.
      and_then (checked_sub actual_delta tolerance) (λ low_k.
        and_then (low_bound denominator low_k) (λ low.
          and_then (checked_add actual_delta tolerance) (λ high_k.
            and_then (high_bound denominator high_k) (λ high.
              some (low_ok two_numerator low low_k && high_ok two_numerator high high_k))))))
