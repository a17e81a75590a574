-- ===== src/Timeline.antt =====
-- The packet timelines of src/probe/packet_scan.h and src/analyzers/timeline/analyzers.h. The
-- packets come from libavformat; here they are a list of records.
pub mod Unwrap
pub mod Monotonic
pub mod Views
pub mod Durations
pub mod Jumps
pub mod Scopes
pub mod Clock
use mediadiff.Base.{List, [], eqb_ℤ, if◌then◌else◌, suc, ℕ, ℤ, ◌∷◌}
use mediadiff.Core.CheckedArith.{int64_min}

-- A timestamp that is `int64_min`, AV_NOPTS_VALUE, is missing.
pub record PacketRecord : Type 0 where
  pub pts : ℤ
  pub dts : ℤ
  pub duration : ℤ
  pub size : ℤ
  pub pos : ℤ
  pub flags : ℤ

pub data Axis : Type 0 where
  dts_axis pts_axis : Axis

pub record AxisSample : Type 0 where
  pub packet_index : ℕ
  pub value : ℤ
  pub pos : ℤ

pub record AxisView : Type 0 where
  pub samples : List AxisSample
  pub excluded_count : ℕ

abbrev pub timestamp_of : Axis → PacketRecord → ℤ
timestamp_of dts_axis p = p.dts
timestamp_of pts_axis p = p.pts

abbrev pub keep_sample : AxisSample → AxisView → AxisView
keep_sample s view = record view { samples = s ∷ view.samples }

abbrev pub exclude_sample : AxisView → AxisView
exclude_sample view = record view { excluded_count = suc view.excluded_count }

-- The view of the packets from an index on.
unfoldable pub axis_view_from : ℕ → List PacketRecord → Axis → AxisView
axis_view_from i [] axis = record { samples = []; excluded_count = 0 }
axis_view_from i (p ∷ packets) axis =
    let rest = axis_view_from (suc i) packets axis in
    if eqb_ℤ (timestamp_of axis p) int64_min
    then exclude_sample rest
    else keep_sample (record { packet_index = i; value = timestamp_of axis p; pos = p.pos }) rest

unfoldable pub build_axis_view : List PacketRecord → Axis → AxisView
unfolding axis_view_from
build_axis_view packets axis = axis_view_from 0 packets axis
