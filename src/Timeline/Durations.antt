-- ===== src/Timeline/Durations.antt =====
-- The helpers of src/analyzers/timeline/start_duration.cpp: the first presentation, the common
-- origin, milliseconds, and the durations of packets. `std::sort` by PTS is an insertion sort; the
-- order that it leaves packets of one PTS in is not specified, and here it is their read order.
pub mod First
use mediadiff.Base.{
  Bool, List, Option, [], and_then, eqb_ℤ, false, if◌then◌else◌, ltb_ℤ, none, pos, some, true, ℤ,
  ◌∷◌,
}
use mediadiff.Core.CheckedArith.{checked_div, checked_mul, checked_sub, int64_min}
use mediadiff.Core.Model.{RationalValue, Scope}
use mediadiff.Core.Ticks.{Rational, Ticks, compare_ticks_checked}
use mediadiff.Probe.Cadence.{cadence_ok}
use mediadiff.Probe.Cadence.Derive.{derive_cadence}
use mediadiff.Timeline.{PacketRecord}

abbrev pub first_of : Option ℤ → ℤ → Option ℤ
first_of none t = some t
first_of (some best) t = if ltb_ℤ t best then some t else some best

-- With the best so far.
unfoldable pub first_presented_from : Option ℤ → List PacketRecord → Option ℤ
first_presented_from best [] = best
first_presented_from best (p ∷ packets) =
    first_presented_from (if eqb_ℤ p.pts int64_min then best else first_of best p.pts) packets

-- The smallest PTS.
unfoldable pub first_presented_pts : List PacketRecord → Option ℤ
unfolding first_presented_from
first_presented_pts packets = first_presented_from none packets

pub record StreamOriginCandidate : Type 0 where
  pub scope : Scope
  pub first_pts_ticks : ℤ
  pub tb : Rational

abbrev pub origin_ticks : StreamOriginCandidate → Ticks
origin_ticks c = record { value = c.first_pts_ticks; tb = c.tb }

-- The loop over the candidates after the first; nothing on an overflow.
unfoldable pub origin_from :
    StreamOriginCandidate → List StreamOriginCandidate → Option StreamOriginCandidate
unfolding compare_ticks_checked
origin_from best [] = some best
origin_from best (c ∷ candidates) =
    let order = compare_ticks_checked (origin_ticks c) (origin_ticks best) in
    let rest = origin_from (if ltb_ℤ order.order (pos 0) then c else best) candidates in
    if order.overflowed then none else rest

unfoldable pub global_origin_ticks : List StreamOriginCandidate → Option StreamOriginCandidate
unfolding origin_from
global_origin_ticks [] = none
global_origin_ticks (c ∷ candidates) = origin_from c candidates

abbrev pub one_second : Rational
one_second = record { num = pos 1; den = pos 1 }

-- amount * 1000 * tb, in whole milliseconds.
unfoldable pub ticks_to_ms : ℤ → Rational → Option RationalValue
unfolding checked_mul checked_div
ticks_to_ms amount tb = and_then (checked_mul amount (pos 1000)) (λ scaled.
    and_then (checked_mul scaled tb.num) (λ scaled2.
      and_then (checked_div scaled2 tb.den)
        (λ milliseconds. some (record { num = milliseconds; den = pos 1; tb = one_second }))))

unfoldable pub subtract_ms : RationalValue → RationalValue → Option RationalValue
unfolding checked_mul checked_sub
subtract_ms a b = and_then (checked_mul a.den b.den) (λ delta_den.
    and_then (checked_mul a.num b.den) (λ lhs. and_then (checked_mul b.num a.den) (λ rhs.
      and_then (checked_sub lhs rhs)
        (λ delta_num. some (record { num = delta_num; den = delta_den; tb = one_second })))))

pub record ReconstructedDuration : Type 0 where
  pub pts_ticks : ℤ
  pub duration_ticks : ℤ
  pub reconstructed : Bool

unfoldable pub insert_by_pts : PacketRecord → List PacketRecord → List PacketRecord
insert_by_pts p [] = p ∷ []
insert_by_pts p (o ∷ packets) =
    let later = insert_by_pts p packets in if ltb_ℤ o.pts p.pts then o ∷ later else p ∷ o ∷ packets

-- The packets with a PTS, sorted by it.
unfoldable pub presentation_order : List PacketRecord → List PacketRecord
unfolding insert_by_pts
presentation_order [] = []
presentation_order (p ∷ packets) =
    let rest = presentation_order packets in
    if eqb_ℤ p.pts int64_min then rest else insert_by_pts p rest

-- The mode of the cadence, where it has one.
unfoldable pub mode_interval_of : List PacketRecord → Rational → Option ℤ
unfolding derive_cadence
mode_interval_of packets tb =
    let cadence = derive_cadence packets tb in
    elim cadence.status [ cadence_ok ↦ some cadence.mode_interval_ticks | _ ↦ none ]

-- The interval to the next packet, or the mode after the last one.
unfoldable pub interval_after : PacketRecord → List PacketRecord → Option ℤ → Option ℤ
unfolding checked_sub
interval_after p [] mode_interval = mode_interval
interval_after p (q ∷ packets) mode_interval = checked_sub q.pts p.pts

abbrev pub declared_duration : PacketRecord → ReconstructedDuration
declared_duration p = record {
  pts_ticks = p.pts;
  duration_ticks = p.duration;
  reconstructed = false;
}

abbrev pub reconstructed_by : PacketRecord → Option ℤ → Option ReconstructedDuration
reconstructed_by p none = none
reconstructed_by p (some interval) =
    some (record { pts_ticks = p.pts; duration_ticks = interval; reconstructed = true })

-- A packet's own duration, if it is positive.
unfoldable pub duration_of :
    PacketRecord → List PacketRecord → Option ℤ → Option ReconstructedDuration
unfolding interval_after
duration_of p packets mode_interval =
    if ltb_ℤ (pos 0) p.duration
    then some (declared_duration p)
    else reconstructed_by p (interval_after p packets mode_interval)

unfoldable pub durations_of : List PacketRecord → Option ℤ → Option (List ReconstructedDuration)
unfolding duration_of
durations_of [] mode_interval = some []
durations_of (p ∷ packets) mode_interval =
    let rest = durations_of packets mode_interval in
    and_then (duration_of p packets mode_interval)
      (λ entry. and_then rest (λ entries. some (entry ∷ entries)))

abbrev pub unless_empty :
    List PacketRecord → Option (List ReconstructedDuration) → Option (List ReconstructedDuration)
unless_empty [] entries = none
unless_empty (p ∷ packets) entries = entries

unfoldable pub reconstruct_packet_durations :
    List PacketRecord → Rational → Option (List ReconstructedDuration)
unfolding presentation_order mode_interval_of durations_of
reconstruct_packet_durations packets tb =
    let order = presentation_order packets in
    unless_empty order (durations_of order (mode_interval_of packets tb))
