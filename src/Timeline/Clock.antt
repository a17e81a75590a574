-- ===== src/Timeline/Clock.antt =====
-- The dts check's path through src/analyzers/timeline/monotonic.cpp on an MPEG-TS whose clock
-- wraps: `prepare_axis` and then `count_dts_violations`.
use mediadiff.Base.{List, [], map, pos, ℕ, ◌<◌, ◌∷◌, ◌≡◌}
use mediadiff.Timeline.{Axis, AxisView, PacketRecord, timestamp_of}
use mediadiff.Timeline.Monotonic.{with_values}
use mediadiff.Timeline.Unwrap.Recovers.{wire}

-- The packets carry the times on a 33-bit clock.
abbrev pub OnClock : Axis → List PacketRecord → List ℕ → Type 0
OnClock axis [] [] = Unit
OnClock axis (p ∷ packets) (t ∷ times) = (timestamp_of axis p ≡ wire t) × OnClock axis packets times
OnClock axis _ _ = ⊥

abbrev pub RisingFrom : ℕ → List ℕ → Type 0
RisingFrom t [] = Unit
RisingFrom t (u ∷ times) = (t < u) × RisingFrom u times

-- The view with the times themselves as its values.
abbrev unwrapped_samples : AxisView → ℕ → List ℕ → AxisView
unwrapped_samples view t times = record view {
  samples = with_values view.samples (map pos (t ∷ times));
}
