-- ===== src/Compare/Divergence.antt =====
-- `compute_divergence` of src/compare/hash.cpp. The product of a block's index and the stride is
-- not checked in C++; an overflow is undefined there, and the model keeps the true product.
pub mod Ranges
pub mod Blocks
use mediadiff.Base.{
  Bool, List, Option, Text, [], false, if◌then◌else◌, is_empty, leb_ℤ, length, ltb, ltb_ℤ, negsuc,
  none, not, pos, some, suc, text_eq, ℕ, ℤ, ◌*ℤ◌, ◌++◌, ◌+ℤ◌, ◌-ℤ◌, ◌||◌, ◌∷◌,
}
use mediadiff.Core.Model.{HashChain, Vendor}

pub record DivergenceReport : Type 0 where
  pub available : Bool
  pub first_divergent_block : ℤ
  pub first_divergent_start_sample : ℤ
  pub first_divergent_end_sample : ℤ
  pub first_divergent_time_ms : Option ℕ
  pub divergent_ranges : List (ℤ × ℤ)
  pub divergent_block_count : ℤ

abbrev pub no_divergence : DivergenceReport
no_divergence = record {
  available = false;
  first_divergent_block = negsuc 0;
  first_divergent_start_sample = pos 0;
  first_divergent_end_sample = pos 0;
  first_divergent_time_ms = none;
  divergent_ranges = [];
  divergent_block_count = pos 0;
}

-- The report so far, and `run_start` while `in_run`.
pub record Scan : Type 0 where
  pub report : DivergenceReport
  pub run : Option ℤ

unfoldable pub add_range : ℤ → ℤ → DivergenceReport → DivergenceReport
unfolding ◌+ℤ◌ ◌-ℤ◌
add_range start stop report = record report {
  divergent_ranges = report.divergent_ranges ++ (start, stop) ∷ [];
  divergent_block_count = report.divergent_block_count +ℤ (stop -ℤ start);
}

unfoldable pub close_run : ℤ → Scan → Scan
unfolding add_range
close_run stop s = elim s.run [
  | none ↦ s
  | some start ↦ record { report = add_range start stop s.report; run = none }
]

abbrev pub open_run : ℤ → Option ℤ → Option ℤ
open_run i none = some i
open_run i (some start) = some start

unfoldable pub min_size : List Text → List Text → ℕ
min_size [] cs = 0
min_size (b ∷ bs) [] = 0
min_size (b ∷ bs) (c ∷ cs) = suc (min_size bs cs)

unfoldable pub max_size : List Text → List Text → ℕ
max_size [] cs = length cs
max_size (b ∷ bs) [] = length (b ∷ bs)
max_size (b ∷ bs) (c ∷ cs) = suc (max_size bs cs)

module _ (V : Vendor) (stride : ℤ) (rate_hz : Option ℤ) where
  abbrev pub time_of : ℤ → Option ℤ → Option ℕ
  time_of start none = none
  time_of start (some rate) =
      if ltb_ℤ (pos 0) rate then some (V.sample_time_ms start rate) else none

  -- The first divergent block is recorded once.
  unfoldable pub note_first : ℤ → DivergenceReport → DivergenceReport
  unfolding ◌+ℤ◌ ◌*ℤ◌
  note_first i report =
      if ltb_ℤ report.first_divergent_block (pos 0)
      then record report {
        first_divergent_block = i;
        first_divergent_start_sample = i *ℤ stride;
        first_divergent_end_sample = i *ℤ stride +ℤ stride;
        first_divergent_time_ms = time_of (i *ℤ stride) rate_hz;
      }
      else report

  unfoldable pub scan_block : ℤ → Bool → Scan → Scan
  unfolding close_run note_first
  scan_block i differs s =
      if differs
      then record { report = note_first i s.report; run = open_run i s.run }
      else close_run i s

  -- The loop over the common prefix, and the end of its last run.
  unfoldable pub scan_blocks : ℕ → List Text → List Text → Scan → Scan
  unfolding scan_block
  scan_blocks i (b ∷ bs) (c ∷ cs) s =
      scan_blocks (suc i) bs cs (scan_block (pos i) (not (text_eq b c)) s)
  scan_blocks i _ _ s = close_run (pos i) s

  -- The blocks of the longer side behind the common prefix.
  unfoldable pub add_tail : ℕ → ℕ → DivergenceReport → DivergenceReport
  unfolding add_range note_first
  add_tail common all report =
      if ltb common all
      then add_range (pos common) (pos all) (note_first (pos common) report)
      else report

  unfoldable pub report_of : List Text → List Text → DivergenceReport
  unfolding scan_blocks add_tail min_size max_size
  report_of bs cs =
      let scanned = scan_blocks 0 bs cs (record { report = no_divergence; run = none }) in
      add_tail (min_size bs cs) (max_size bs cs) scanned.report

unfoldable pub compute_divergence :
    (V : Vendor) → HashChain → HashChain → Option ℤ → DivergenceReport
unfolding report_of
compute_divergence V baseline candidate rate_hz =
    let stride =
      if ltb_ℤ (pos 0) baseline.element_stride
      then baseline.element_stride
      else candidate.element_stride in
    let report = report_of V stride rate_hz baseline.block_digests candidate.block_digests in
    if is_empty baseline.block_digests || is_empty candidate.block_digests
    then no_divergence
    else record report { available = leb_ℤ (pos 0) report.first_divergent_block }
