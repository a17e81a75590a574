-- ===== src/Core/Model/Names.antt =====
-- The names of the skip reasons of src/core/model.h.
use mediadiff.Base.{refl, some, text, text_eq, ◌≡◌}
use mediadiff.Core.Model.{
  SkipReason, cross_container, hash_disabled, hash_incomparable, insufficient_data, no_parser,
  no_prior_release, no_timing_data, not_applicable_container, not_skipped, partial_scan,
  requires_decode, requires_media, sampling_mismatch, skip_reason_from_string,
  skip_reason_to_string, unparsed_mechanism, vfr,
}

-- A skip reason is read back from its text.
pub skip_reason_from_string-to_string :
    (reason : SkipReason) → skip_reason_from_string (skip_reason_to_string reason) ≡ some reason
unfolding skip_reason_from_string skip_reason_to_string text_eq text
skip_reason_from_string-to_string not_skipped = refl
skip_reason_from_string-to_string not_applicable_container = refl
skip_reason_from_string-to_string requires_decode = refl
skip_reason_from_string-to_string cross_container = refl
skip_reason_from_string-to_string sampling_mismatch = refl
skip_reason_from_string-to_string hash_incomparable = refl
skip_reason_from_string-to_string no_parser = refl
skip_reason_from_string-to_string unparsed_mechanism = refl
skip_reason_from_string-to_string vfr = refl
skip_reason_from_string-to_string requires_media = refl
skip_reason_from_string-to_string no_prior_release = refl
skip_reason_from_string-to_string partial_scan = refl
skip_reason_from_string-to_string insufficient_data = refl
skip_reason_from_string-to_string no_timing_data = refl
skip_reason_from_string-to_string hash_disabled = refl
