-- ===== src/Timeline/Monotonic.antt =====
-- The counts of src/analyzers/timeline/monotonic.cpp. `std::sort` by value and index is an
-- insertion sort: no two samples of a view have the same index.
pub mod Violations
pub mod Sorting
pub mod Duplicates
use mediadiff.Base.{
  Bool, List, Option, [], eqb_ℤ, false, get_elem?, if◌then◌else◌, is_empty, leb_ℤ, ltb, ltb_ℤ, none,
  not, some, suc, true, ℕ, ℤ, ◌||◌, ◌∷◌,
}
use mediadiff.Core.Registry.{samples}
use mediadiff.Timeline.{Axis, AxisSample, AxisView, PacketRecord, build_axis_view, keep_sample}
use mediadiff.Timeline.Unwrap.{UnwrapResult, unwrap_ts_timestamps}

abbrev pub values_of : List AxisSample → List ℤ
values_of [] = []
values_of (s ∷ others) = s.value ∷ values_of others

unfoldable pub with_values : List AxisSample → List ℤ → List AxisSample
with_values (s ∷ others) (v ∷ values) = record s { value = v } ∷ with_values others values
with_values _ _ = []

-- The view over unwrapped values, or nothing where the unwrap overflowed.
unfoldable pub unwrapped_view : AxisView → UnwrapResult → Option AxisView
unfolding with_values
unwrapped_view view unwrap =
    if unwrap.overflowed
    then none
    else some (record {
      samples = with_values view.samples unwrap.unwrapped;
      excluded_count = view.excluded_count;
    })

unfoldable pub unwrap_axis_view : AxisView → Option AxisView
unfolding unwrap_ts_timestamps unwrapped_view
unwrap_axis_view view = unwrapped_view view (unwrap_ts_timestamps (values_of view.samples))

pub record MonotonicResult : Type 0 where
  pub violation_count : ℕ
  pub first_violation_index : Option ℕ
  pub first_violation_pos : Option ℤ

abbrev pub or_first {ℓ} : {A : Type ℓ} → Option A → A → Option A
or_first none a = some a
or_first (some first) a = some first

-- One more violation, whose second packet this is.
abbrev pub add_violation : AxisSample → MonotonicResult → MonotonicResult
add_violation s result = record {
  violation_count = suc result.violation_count;
  first_violation_index = or_first result.first_violation_index s.packet_index;
  first_violation_pos = or_first result.first_violation_pos s.pos;
}

-- The loop from the sample after `prev` on.
unfoldable pub violations_from : AxisSample → List AxisSample → MonotonicResult → MonotonicResult
violations_from prev [] result = result
violations_from prev (s ∷ others) result =
    violations_from s others (if leb_ℤ s.value prev.value then add_violation s result else result)

abbrev pub no_violations : MonotonicResult
no_violations = record {
  violation_count = 0;
  first_violation_index = none;
  first_violation_pos = none;
}

-- No violation before the second sample.
abbrev pub violations_in : List AxisSample → MonotonicResult
violations_in [] = no_violations
violations_in (s ∷ others) = violations_from s others no_violations

unfoldable pub count_dts_violations : AxisView → MonotonicResult
unfolding violations_from
count_dts_violations view = violations_in view.samples

pub record JoinFilterResult : Type 0 where
  pub view : AxisView
  pub excluded_unjoined : ℕ

-- Out of range counts as unjoined.
abbrev pub is_joined : List Bool → ℕ → Bool
is_joined dts_joined index = elim (get_elem? dts_joined index) [ none ↦ false | some b ↦ b ]

abbrev pub keep_joined : AxisSample → JoinFilterResult → JoinFilterResult
keep_joined s result = record result { view = keep_sample s result.view }

abbrev pub drop_unjoined : JoinFilterResult → JoinFilterResult
drop_unjoined result = record result { excluded_unjoined = suc result.excluded_unjoined }

-- The samples in order, with the excluded count of the view.
unfoldable pub filter_joined : ℕ → List AxisSample → List Bool → JoinFilterResult
filter_joined excluded [] dts_joined = record {
  view = record { samples = []; excluded_count = excluded };
  excluded_unjoined = 0;
}
filter_joined excluded (s ∷ others) dts_joined =
    let rest = filter_joined excluded others dts_joined in
    if is_joined dts_joined s.packet_index then keep_joined s rest else drop_unjoined rest

unfoldable pub filter_axis_to_joined : AxisView → List Bool → JoinFilterResult
unfolding filter_joined
filter_axis_to_joined view dts_joined = filter_joined view.excluded_count view.samples dts_joined

-- By the value and then the index.
abbrev pub sample_lt : AxisSample → AxisSample → Bool
sample_lt a b =
    if not (eqb_ℤ a.value b.value) then ltb_ℤ a.value b.value else ltb a.packet_index b.packet_index

unfoldable pub insert_sample : AxisSample → List AxisSample → List AxisSample
insert_sample s [] = s ∷ []
insert_sample s (o ∷ rest) =
    let later = insert_sample s rest in if sample_lt o s then o ∷ later else s ∷ o ∷ rest

unfoldable pub sort_samples : List AxisSample → List AxisSample
unfolding insert_sample
sort_samples [] = []
sort_samples (s ∷ others) = insert_sample s (sort_samples others)

pub record DuplicateResult : Type 0 where
  pub duplicate_count : ℕ
  pub first_duplicate_value : Option ℤ
  pub first_duplicate_index_a : Option ℕ
  pub first_duplicate_index_b : Option ℕ

abbrev pub smaller : ℕ → ℕ → ℕ
smaller a b = if ltb b a then b else a

abbrev pub larger : ℕ → ℕ → ℕ
larger a b = if ltb a b then b else a

abbrev pub add_duplicate : AxisSample → AxisSample → DuplicateResult → DuplicateResult
add_duplicate prev s result = record {
  duplicate_count = suc result.duplicate_count;
  first_duplicate_value = or_first result.first_duplicate_value s.value;
  first_duplicate_index_a =
      or_first result.first_duplicate_index_a (smaller prev.packet_index s.packet_index);
  first_duplicate_index_b =
      or_first result.first_duplicate_index_b (larger prev.packet_index s.packet_index);
}

-- The loop over the sorted samples from the one after `prev` on.
unfoldable pub duplicates_from : AxisSample → List AxisSample → DuplicateResult → DuplicateResult
duplicates_from prev [] result = result
duplicates_from prev (s ∷ others) result =
    duplicates_from s others
      (if eqb_ℤ s.value prev.value then add_duplicate prev s result else result)

abbrev pub no_duplicates : DuplicateResult
no_duplicates = record {
  duplicate_count = 0;
  first_duplicate_value = none;
  first_duplicate_index_a = none;
  first_duplicate_index_b = none;
}

abbrev pub duplicates_in : List AxisSample → DuplicateResult
duplicates_in [] = no_duplicates
duplicates_in (s ∷ others) = duplicates_from s others no_duplicates

unfoldable pub count_pts_duplicates : AxisView → DuplicateResult
unfolding sort_samples duplicates_from
count_pts_duplicates view = duplicates_in (sort_samples view.samples)

pub record PreparedAxis : Type 0 where
  pub view : AxisView
  pub unwrapped : Bool

abbrev pub prepared_by : Option AxisView → Option PreparedAxis
prepared_by none = none
prepared_by (some view) = some (record { view = view; unwrapped = true })

unfoldable pub prepare_view : AxisView → Bool → Option PreparedAxis
unfolding unwrap_axis_view
prepare_view view is_ts =
    if not is_ts || is_empty view.samples
    then some (record { view = view; unwrapped = false })
    else prepared_by (unwrap_axis_view view)

unfoldable pub prepare_axis : List PacketRecord → Axis → Bool → Option PreparedAxis
unfolding build_axis_view prepare_view
prepare_axis packets axis is_ts = prepare_view (build_axis_view packets axis) is_ts
