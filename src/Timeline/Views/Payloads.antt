-- ===== src/Timeline/Views/Payloads.antt =====
-- Unwrapping and placing in an epoch change no more of the packets than their timestamps.
use mediadiff.Base.{
  Bool, Bool-cases, List, Option, [], false, inl, inr, is_empty, map, none, refl, some, suc, true,
  zero, ℕ, ℤ, ◌&&◌, ◌∙◌, ◌∷◌, ◌≡◌,
}
use mediadiff.Core.Policy.{modify}
use mediadiff.Timeline.{Axis, AxisSample, PacketRecord, axis_view_from, dts_axis, pts_axis}
use mediadiff.Timeline.Monotonic.{values_of}
use mediadiff.Timeline.Unwrap.{UnwrapResult, unwrap_ts_timestamps}
use mediadiff.Timeline.Views.{
  TimelinePacketView, borrowed_view, first_raw_pts, is_low, is_split, make_timeline_packet_view,
  make_timeline_packet_views, pts_range, shift_low, shift_packet, shift_packets, shift_timestamp,
  shifted_packet, shifted_view, unwrap_one_axis, with_timestamp, with_wraps, write_back,
  written_back,
}

-- What a packet holds besides its timestamps.
abbrev pub payload : PacketRecord → ℤ × ℤ × ℤ × ℤ
payload p = (p.duration, p.size, p.pos, p.flags)

abbrev pub payloads : List PacketRecord → List (ℤ × ℤ × ℤ × ℤ)
payloads packets = map payload packets

with_timestamp-payload :
    (axis : Axis) (v : ℤ) (p : PacketRecord) → payload (with_timestamp axis v p) ≡ payload p
with_timestamp-payload dts_axis v p = refl
with_timestamp-payload pts_axis v p = refl

modify-payloads :
    (axis : Axis) (v : ℤ) (i : ℕ) (packets : List PacketRecord)
    → payloads (modify (with_timestamp axis v) i packets) ≡ payloads packets
unfolding modify
modify-payloads axis v i [] = refl
modify-payloads axis v zero (p ∷ packets) = rw (with_timestamp-payload axis v p) refl
modify-payloads axis v (suc i) (p ∷ packets) = rw (modify-payloads axis v i packets) refl

write_back-payloads :
    (axis : Axis) (found : List AxisSample) (values : List ℤ) (packets : List PacketRecord)
    → payloads (write_back axis found values packets) ≡ payloads packets
unfolding write_back
write_back-payloads axis [] values packets = refl
write_back-payloads axis (s ∷ found) [] packets = refl
write_back-payloads axis (s ∷ found) (v ∷ values) packets =
    write_back-payloads axis found values (modify (with_timestamp axis v) s.packet_index packets)
    ∙ modify-payloads axis v s.packet_index packets

-- A view whose packets have these payloads.
abbrev Keeps : TimelinePacketView → List PacketRecord → Type 0
Keeps view packets = payloads view.packets ≡ payloads packets

with_wraps-packets :
    (axis : Axis) (n : ℕ) (view : TimelinePacketView)
    → (with_wraps axis n view).packets ≡ view.packets
with_wraps-packets dts_axis n view = refl
with_wraps-packets pts_axis n view = refl

abbrev written : Axis → TimelinePacketView → List AxisSample → UnwrapResult → TimelinePacketView
written axis view found unwrap = record view {
  packets = write_back axis found unwrap.unwrapped view.packets;
}

written_back-Keeps :
    (axis : Axis) (view : TimelinePacketView) (found : List AxisSample) (unwrap : UnwrapResult)
    → Keeps (written_back axis view found unwrap) view.packets
unfolding written_back
written_back-Keeps axis view found unwrap = elim (Bool-cases (is_empty found)) [
  | inl e ↦ rw e refl
  | inr e ↦ elim (Bool-cases unwrap.overflowed) [
    | inl o ↦ rw (e, o) refl
    | inr o ↦
        rw (e, o, with_wraps-packets axis unwrap.wrap_events (written axis view found unwrap))
          (write_back-payloads axis found unwrap.unwrapped view.packets)
  ]
]

unwrap_one_axis-Keeps :
    (axis : Axis) (view : TimelinePacketView) → Keeps (unwrap_one_axis axis view) view.packets
unfolding unwrap_one_axis
unwrap_one_axis-Keeps axis view =
    let found = (axis_view_from 0 view.packets axis).samples in
    written_back-Keeps axis view found (unwrap_ts_timestamps (values_of found))

make_timeline_packet_view-Keeps :
    (packets : List PacketRecord) (is_ts : Bool)
    → Keeps (make_timeline_packet_view packets is_ts) packets
unfolding make_timeline_packet_view
make_timeline_packet_view-Keeps packets true =
    unwrap_one_axis-Keeps dts_axis (unwrap_one_axis pts_axis (borrowed_view packets true))
    ∙ unwrap_one_axis-Keeps pts_axis (borrowed_view packets true)
make_timeline_packet_view-Keeps packets false = refl

-- The packet of a shift, by its two shifted timestamps.
shift_packet-payload : (p : PacketRecord) → payload (shift_packet p).0 ≡ payload p
unfolding shift_packet
shift_packet-payload p = by_shifts (shift_timestamp p.pts) (shift_timestamp p.dts)
  where
    by_shifts : (pts dts : Option ℤ) → payload (shifted_packet p pts dts).0 ≡ payload p
    by_shifts none dts = refl
    by_shifts (some pts) none = refl
    by_shifts (some pts) (some dts) = refl

shift_packets-payloads :
    (packets : List PacketRecord) → payloads (shift_packets packets).0 ≡ payloads packets
unfolding shift_packets
shift_packets-payloads [] = refl
shift_packets-payloads (p ∷ packets) = elim (Bool-cases (shift_packet p).1) [
  | inl e ↦ rw (e, shift_packet-payload p) refl
  | inr e ↦ rw (e, shift_packet-payload p, shift_packets-payloads packets) refl
]

shifted_view-payloads :
    (view : TimelinePacketView) (shifted : List PacketRecord × Bool)
    → payloads shifted.0 ≡ payloads view.packets
    → Keeps (shifted_view view shifted) view.packets
shifted_view-payloads view (packets, true) e = e
shifted_view-payloads view (packets, false) e = e

abbrev pub view_payloads : List TimelinePacketView → List (List (ℤ × ℤ × ℤ × ℤ))
view_payloads views = map (λ view. payloads view.packets) views

shift_low-payloads :
    (streams : List (List PacketRecord)) (views : List TimelinePacketView)
    → view_payloads (shift_low streams views) ≡ view_payloads views
unfolding shift_low
shift_low-payloads [] views = refl
shift_low-payloads (stream ∷ streams) [] = refl
shift_low-payloads (stream ∷ streams) (view ∷ views) =
    elim (Bool-cases (is_low (first_raw_pts stream))) [
      | inl e ↦
          rw
            (
              e,
              shift_low-payloads streams views,
              shifted_view-payloads view (shift_packets view.packets)
                  (shift_packets-payloads view.packets),
            )
            refl
      | inr e ↦ rw (e, shift_low-payloads streams views) refl
    ]

make_views-payloads :
    (streams : List (List PacketRecord)) (is_ts : Bool)
    → view_payloads (map (λ packets. make_timeline_packet_view packets is_ts) streams)
      ≡ map payloads streams
make_views-payloads [] is_ts = refl
make_views-payloads (stream ∷ streams) is_ts =
    rw (make_timeline_packet_view-Keeps stream is_ts, make_views-payloads streams is_ts) refl

-- The views of a scan's streams have, stream by stream and in order, the streams' packets with
-- their durations, sizes, positions and flags, whatever was unwrapped, shifted or stopped by an
-- overflow.
pub make_timeline_packet_views-payloads :
    (streams : List (List PacketRecord)) (is_ts : Bool)
    → view_payloads (make_timeline_packet_views streams is_ts) ≡ map payloads streams
unfolding make_timeline_packet_views
make_timeline_packet_views-payloads streams is_ts =
    let views = map (λ packets. make_timeline_packet_view packets is_ts) streams in
    elim (Bool-cases (is_ts && is_split (pts_range none none (map first_raw_pts streams)))) [
      | inl e ↦ rw e (shift_low-payloads streams views ∙ make_views-payloads streams is_ts)
      | inr e ↦ rw e (make_views-payloads streams is_ts)
    ]
