-- ===== src/Timeline/Unwrap.antt =====
-- `unwrap_ts_timestamps` of src/analyzers/timeline/unwrap.cpp: 33-bit timestamps without their
-- wraps. A count is a natural number.
pub mod Recovers
use mediadiff.Base.{
  Bool, List, Option, [], false, if◌then◌else◌, ltb_ℤ, negsuc, none, pos, some, suc, true, ℕ, ℤ,
  ◌-◌, ◌^◌, ◌||◌, ◌∷◌,
}
use mediadiff.Core.CheckedArith.{checked_add, checked_sub}

abbrev pub wrap_modulus : ℤ
wrap_modulus = pos (2 ^ 33)

abbrev pub wrap_half_range : ℤ
wrap_half_range = pos (2 ^ 32)

-- `-kTsPtsWrapHalfRange`.
abbrev pub minus_half_range : ℤ
minus_half_range = negsuc (2 ^ 32 - 1)

pub record WrapStepResult : Type 0 where
  pub next_offset : ℤ
  pub wrapped : Bool
  pub overflowed : Bool

abbrev pub keep_offset : ℤ → Bool → WrapStepResult
keep_offset offset overflowed = record {
  next_offset = offset;
  wrapped = false;
  overflowed = overflowed;
}

abbrev pub raise_offset : ℤ → Option ℤ → WrapStepResult
raise_offset offset none = keep_offset offset true
raise_offset offset (some raised) = record {
  next_offset = raised;
  wrapped = true;
  overflowed = false;
}

-- Only a backward jump of more than the half range is a wrap.
unfoldable pub apply_wrap_step : ℤ → ℤ → WrapStepResult
unfolding checked_add
apply_wrap_step offset delta =
    if ltb_ℤ delta minus_half_range
    then raise_offset offset (checked_add offset wrap_modulus)
    else keep_offset offset false

abbrev pub step_by : ℤ → Option ℤ → WrapStepResult
step_by offset none = keep_offset offset true
step_by offset (some delta) = apply_wrap_step offset delta

-- The step to a timestamp; the first one has none before it.
unfoldable pub step_to : ℤ → Option ℤ → ℤ → WrapStepResult
unfolding checked_sub apply_wrap_step
step_to offset none raw = keep_offset offset false
step_to offset (some prev) raw = step_by offset (checked_sub raw prev)

pub record UnwrapResult : Type 0 where
  pub unwrapped : List ℤ
  pub wrap_events : ℕ
  pub overflowed : Bool

-- The adjusted value, or the raw one with the overflow flag.
abbrev pub or_raw : ℤ → Option ℤ → ℤ × Bool
or_raw raw none = (raw, true)
or_raw raw (some adjusted) = (adjusted, false)

abbrev pub count_if : Bool → ℕ → ℕ
count_if true n = suc n
count_if false n = n

-- The result of the rest, with one more timestamp in front.
abbrev pub prepend : WrapStepResult → ℤ × Bool → UnwrapResult → UnwrapResult
prepend step adjusted rest = record {
  unwrapped = adjusted.0 ∷ rest.unwrapped;
  wrap_events = count_if step.wrapped rest.wrap_events;
  overflowed = step.overflowed || adjusted.1 || rest.overflowed;
}

unfoldable pub unwrap_from : ℤ → Option ℤ → List ℤ → UnwrapResult
unfolding step_to checked_add
unwrap_from offset prev [] = record { unwrapped = []; wrap_events = 0; overflowed = false }
unwrap_from offset prev (raw ∷ rest) =
    let step = step_to offset prev raw in
    prepend step (or_raw raw (checked_add raw step.next_offset))
      (unwrap_from step.next_offset (some raw) rest)

unfoldable pub unwrap_ts_timestamps : List ℤ → UnwrapResult
unfolding unwrap_from
unwrap_ts_timestamps raw = unwrap_from (pos 0) none raw
