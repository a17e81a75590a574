-- ===== src/Timeline/Views.antt =====
-- `make_timeline_packet_views` of src/analyzers/timeline/unwrap.cpp: the packets of each stream,
-- unwrapped on an MPEG-TS, and its streams placed in one epoch. A view is its packets with its
-- flags.
pub mod Payloads
use mediadiff.Base.{
  Bool, List, Option, [], eqb_ℤ, false, if◌then◌else◌, is_empty, ltb_ℤ, map, none, pos, some, true,
  ℕ, ℤ, ◌&&◌, ◌∷◌,
}
use mediadiff.Core.CheckedArith.{checked_add, checked_sub, int64_min}
use mediadiff.Core.Policy.{modify}
use mediadiff.Timeline.{Axis, AxisSample, PacketRecord, build_axis_view, dts_axis, pts_axis}
use mediadiff.Timeline.Monotonic.{values_of}
use mediadiff.Timeline.Unwrap.{UnwrapResult, unwrap_ts_timestamps, wrap_half_range, wrap_modulus}

pub record TimelinePacketView : Type 0 where
  pub packets : List PacketRecord
  pub unwrapped : Bool
  pub overflowed : Bool
  pub pts_wrap_events : ℕ
  pub dts_wrap_events : ℕ
  pub epoch_shift : ℤ

abbrev pub with_timestamp : Axis → ℤ → PacketRecord → PacketRecord
with_timestamp dts_axis v p = record p { dts = v }
with_timestamp pts_axis v p = record p { pts = v }

-- `owned_[packet_index] = unwrapped[i]` for each sample.
unfoldable pub write_back : Axis → List AxisSample → List ℤ → List PacketRecord → List PacketRecord
unfolding modify
write_back axis (s ∷ others) (v ∷ values) packets =
    write_back axis others values (modify (with_timestamp axis v) s.packet_index packets)
write_back axis _ _ packets = packets

abbrev pub with_wraps : Axis → ℕ → TimelinePacketView → TimelinePacketView
with_wraps dts_axis n view = record view { dts_wrap_events = n }
with_wraps pts_axis n view = record view { pts_wrap_events = n }

-- The axis as it was where the unwrap overflowed.
unfoldable pub written_back :
    Axis → TimelinePacketView → List AxisSample → UnwrapResult → TimelinePacketView
unfolding write_back
written_back axis view found unwrap =
    if is_empty found
    then view
    else if unwrap.overflowed
    then record view { overflowed = true }
    else with_wraps axis unwrap.wrap_events
        (record view { packets = write_back axis found unwrap.unwrapped view.packets })

unfoldable pub unwrap_one_axis : Axis → TimelinePacketView → TimelinePacketView
unfolding build_axis_view unwrap_ts_timestamps written_back
unwrap_one_axis axis view =
    let found = (build_axis_view view.packets axis).samples in
    written_back axis view found (unwrap_ts_timestamps (values_of found))

abbrev pub borrowed_view : List PacketRecord → Bool → TimelinePacketView
borrowed_view packets unwrapped = record {
  packets = packets;
  unwrapped = unwrapped;
  overflowed = false;
  pts_wrap_events = 0;
  dts_wrap_events = 0;
  epoch_shift = pos 0;
}

unfoldable pub make_timeline_packet_view : List PacketRecord → Bool → TimelinePacketView
unfolding unwrap_one_axis
make_timeline_packet_view packets is_ts =
    if is_ts
    then unwrap_one_axis dts_axis (unwrap_one_axis pts_axis (borrowed_view packets true))
    else borrowed_view packets false

-- The first PTS in read order that is not missing.
unfoldable pub first_raw_pts : List PacketRecord → Option ℤ
first_raw_pts [] = none
first_raw_pts (p ∷ packets) =
    let rest = first_raw_pts packets in if eqb_ℤ p.pts int64_min then rest else some p.pts

abbrev pub min_with : Option ℤ → ℤ → Option ℤ
min_with none v = some v
min_with (some m) v = if ltb_ℤ v m then some v else some m

abbrev pub max_with : Option ℤ → ℤ → Option ℤ
max_with none v = some v
max_with (some m) v = if ltb_ℤ m v then some v else some m

-- The smallest and the largest of the first timestamps.
unfoldable pub pts_range : Option ℤ → Option ℤ → List (Option ℤ) → Option ℤ × Option ℤ
pts_range low high [] = (low, high)
pts_range low high (none ∷ firsts) = pts_range low high firsts
pts_range low high (some v ∷ firsts) = pts_range (min_with low v) (max_with high v) firsts

abbrev pub exceeds_half_range : Option ℤ → Bool
exceeds_half_range none = false
exceeds_half_range (some spread) = ltb_ℤ wrap_half_range spread

-- The first timestamps lie more than the half range apart.
unfoldable pub is_split : Option ℤ × Option ℤ → Bool
unfolding checked_sub
is_split (some low, some high) = exceeds_half_range (checked_sub high low)
is_split _ = false

-- A missing timestamp stays missing; nothing on overflow.
unfoldable pub shift_timestamp : ℤ → Option ℤ
unfolding checked_add
shift_timestamp v = if eqb_ℤ v int64_min then some v else checked_add v wrap_modulus

-- A packet with its shifted timestamps, or the packet as far as it was shifted.
abbrev pub shifted_packet : PacketRecord → Option ℤ → Option ℤ → PacketRecord × Bool
shifted_packet p none _ = (p, true)
shifted_packet p (some pts) none = (record p { pts = pts }, true)
shifted_packet p (some pts) (some dts) = (record p { pts = pts; dts = dts }, false)

unfoldable pub shift_packet : PacketRecord → PacketRecord × Bool
unfolding shift_timestamp
shift_packet p = shifted_packet p (shift_timestamp p.pts) (shift_timestamp p.dts)

-- The loop stops at the first overflow and keeps what it has shifted.
unfoldable pub shift_packets : List PacketRecord → List PacketRecord × Bool
unfolding shift_packet
shift_packets [] = ([], false)
shift_packets (p ∷ packets) =
    let here = shift_packet p in
    let rest = shift_packets packets in
    if here.1 then (here.0 ∷ packets, true) else (here.0 ∷ rest.0, rest.1)

abbrev pub shifted_view : TimelinePacketView → List PacketRecord × Bool → TimelinePacketView
shifted_view view (packets, true) = record view { packets = packets; overflowed = true }
shifted_view view (packets, false) = record view { packets = packets; epoch_shift = wrap_modulus }

abbrev pub is_low : Option ℤ → Bool
is_low none = false
is_low (some first) = ltb_ℤ first wrap_half_range

unfoldable pub shift_low :
    List (List PacketRecord) → List TimelinePacketView → List TimelinePacketView
unfolding first_raw_pts shift_packets
shift_low (stream ∷ streams) (view ∷ views) =
    (if is_low (first_raw_pts stream) then shifted_view view (shift_packets view.packets) else view)
    ∷ shift_low streams views
shift_low _ views = views

unfoldable pub make_timeline_packet_views :
    List (List PacketRecord) → Bool → List TimelinePacketView
unfolding make_timeline_packet_view first_raw_pts pts_range is_split shift_low
make_timeline_packet_views streams is_ts =
    let views = map (λ packets. make_timeline_packet_view packets is_ts) streams in
    if is_ts && is_split (pts_range none none (map first_raw_pts streams))
    then shift_low streams views
    else views
