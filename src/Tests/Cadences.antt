-- ===== src/Tests/Cadences.antt =====
-- Cadences of a few packets.
use mediadiff.Base.{List, [], arith, leb_ℤ, pos, refl, some, ℤ, ◌&&◌, ◌+ℤ◌, ◌-ℤ◌, ◌∷◌, ◌≡◌}
use mediadiff.Core.CheckedArith.{int64_min}
use mediadiff.Core.Ticks.{Rational}
use mediadiff.Probe.Cadence.{
  cadence_cfr, cadence_insufficient_data, cadence_no_timing_data, cadence_vfr, conforms_to_grid,
  grid_conformance_tolerance_ticks,
}
use mediadiff.Probe.Cadence.Derive.{derive_cadence}
use mediadiff.Probe.Cadence.Grid.{conforms_to_grid-IsRounded}
use mediadiff.Probe.Cadence.Rounding.{round_half_even}
use mediadiff.Probe.Cadence.Shuffled.{derive_cadence-Perm}
use mediadiff.Timeline.{PacketRecord}
use mathlib.Core.List.Permᴰ.{swap}

abbrev pts_packet : ℤ → PacketRecord
pts_packet t = record {
  pts = t;
  dts = int64_min;
  duration = pos 0;
  size = pos 100;
  pos = pos 0;
  flags = pos 0;
}

abbrev milliseconds : Rational
milliseconds = record { num = pos 1; den = pos 1000 }

-- 30 frames a second in milliseconds: the intervals differ, and the timestamps lie on a grid.
abbrev rounded_packets : List PacketRecord
rounded_packets =
    pts_packet (pos 33) ∷ pts_packet (pos 0) ∷ pts_packet (pos 67) ∷ pts_packet (pos 100) ∷ []

abbrev rounded_in_order : List PacketRecord
rounded_in_order =
    pts_packet (pos 0) ∷ pts_packet (pos 33) ∷ pts_packet (pos 67) ∷ pts_packet (pos 100) ∷ []

rounded_packets-class : (derive_cadence rounded_packets milliseconds).klass ≡ cadence_cfr
unfolding derive_cadence
rounded_packets-class = refl

rounded_packets-mode : (derive_cadence rounded_packets milliseconds).mode_interval_ticks ≡ pos 33
unfolding derive_cadence
rounded_packets-mode = refl

uneven_packets-class :
    (derive_cadence
      (pts_packet (pos 0) ∷ pts_packet (pos 10) ∷ pts_packet (pos 100) ∷ [])
      milliseconds).klass
    ≡ cadence_vfr
unfolding derive_cadence
uneven_packets-class = refl

no_packets-status :
    (derive_cadence (pts_packet int64_min ∷ []) milliseconds).status ≡ cadence_no_timing_data
unfolding derive_cadence
no_packets-status = refl

one_packet-status :
    (derive_cadence (pts_packet (pos 5) ∷ []) milliseconds).status ≡ cadence_insufficient_data
unfolding derive_cadence
one_packet-status = refl

derive_cadence-Perm_example :
    derive_cadence rounded_packets milliseconds ≡ derive_cadence rounded_in_order milliseconds
derive_cadence-Perm_example =
    derive_cadence-Perm {ps = rounded_packets} {qs = rounded_in_order} milliseconds (swap refl refl)

conforms_to_grid-IsRounded_example :
    conforms_to_grid (pos 200) (pos 3) (pos 67) grid_conformance_tolerance_ticks
    ≡ some (
        leb_ℤ (pos 67 -ℤ pos 1) (pos (round_half_even 200 3))
        && leb_ℤ (pos (round_half_even 200 3)) (pos 67 +ℤ pos 1))
conforms_to_grid-IsRounded_example =
    conforms_to_grid-IsRounded 200 3 (pos 67) (omega arith) (omega arith) (omega arith)
      (omega arith)
