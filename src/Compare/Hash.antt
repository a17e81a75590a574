-- ===== src/Compare/Hash.antt =====
-- src/compare/hash.cpp.
use mediadiff.Base.{
  Bool, List, Option, Text, [], and_then, false, if◌then◌else◌, is_empty, ltb, none, ok, pos, some,
  text, text_eq, true, ℕ, ℤ, ◌&&◌, ◌*◌, ◌++◌, ◌+◌, ◌-◌, ◌==◌, ◌^◌, ◌||◌, ◌∷◌,
}
use mediadiff.Compare.{Comparator, escalate, start_finding}
use mediadiff.Compare.Divergence.{DivergenceReport, compute_divergence}
use mediadiff.Core.Model.{
  Finding, HashChain, Measurement, Value, Vendor, hash_incomparable, hash_value, passed, skipped,
}
use mediadiff.Core.Policy.{Policy, to_string}
use mediadiff.Core.Policy.Resolve.{resolve_severity}
use mediadiff.Core.Registry.{CheckDef}
use mediadiff.Core.Tolerance.{is_digit}

-- The text behind a prefix, and behind the first place where a text occurs.
unfoldable pub strip_prefix : Text → Text → Option Text
strip_prefix [] s = some s
strip_prefix (p ∷ ps) [] = none
strip_prefix (p ∷ ps) (c ∷ s) = let rest = strip_prefix ps s in if p == c then rest else none

unfoldable pub after_first : Text → Text → Option Text
unfolding strip_prefix
after_first needle [] = strip_prefix needle []
after_first needle (c ∷ s) = elim (strip_prefix needle (c ∷ s)) [
  | some rest ↦ some rest
  | none ↦ after_first needle s
]

unfoldable pub leading_digits : Text → Text
leading_digits [] = []
leading_digits (c ∷ s) = let rest = leading_digits s in if is_digit c then c ∷ rest else []

unfoldable pub digits_value : ℕ → Text → ℕ
digits_value v [] = v
digits_value v (c ∷ s) = digits_value (v * 10 + (c - 48)) s

-- `std::stoll` of digits; nothing where it throws.
unfoldable pub stoll : Text → Option ℤ
unfolding digits_value
stoll digits =
    let v = digits_value 0 digits in
    if is_empty digits || ltb (2 ^ 63 - 1) v then none else some (pos v)

unfoldable pub rate_of : Text → Option ℤ
unfolding after_first leading_digits stoll
rate_of normalization =
    and_then (after_first (text "rate=") normalization) (λ rest. stoll (leading_digits rest))

-- `kPreconditionKeys`.
abbrev pub precondition_keys : List Text
precondition_keys = text "decode_path_class" ∷ text "sampling_state" ∷ text "normalization" ∷ []

abbrev pub which_side : Bool → Bool → Text
which_side baseline candidate =
    if baseline && candidate
    then text "both sides"
    else if baseline
    then text "the baseline"
    else text "the candidate"

abbrev pub truncated_message : Bool → Bool → Text
truncated_message b c =
    text "hash comparison skipped: 'sampling_state' is 'truncated' on "
    ++ which_side b c
    ++ text " -- the decode stopped before the end of the stream, so a digest match cannot "
    ++ text "vouch for the unread remainder; see decode_truncation_reason and "
    ++ text "meta.decode_errors, and re-run on intact media"

unfoldable pub block_message : (V : Vendor) → DivergenceReport → Text
unfolding to_string
block_message V d =
    text "digests differ -- first divergent block "
    ++ to_string d.first_divergent_block
    ++ text " (samples ["
    ++ to_string d.first_divergent_start_sample
    ++ text ", "
    ++ to_string d.first_divergent_end_sample
    ++ text ")"
    ++ elim d.first_divergent_time_ms [
      | none ↦ []
      | some time ↦ text ", ~" ++ V.format_tenths time ++ text " ms"
    ]
    ++ text "), "
    ++ to_string d.divergent_block_count
    ++ text " divergent block(s) total"

module _ (V : Vendor) where
  unfoldable pub extract_rate_hz : V.Json → Option ℤ
  unfolding rate_of
  extract_rate_hz evidence =
      if V.is_object evidence
      then and_then (and_then (V.member evidence (text "normalization")) V.as_string) rate_of
      else none

  unfoldable pub is_truncated_sampling : V.Json → Bool
  is_truncated_sampling evidence =
      if V.is_object evidence
      then elim (and_then (V.member evidence (text "sampling_state")) V.as_string) [
        | none ↦ false
        | some value ↦ text_eq value (text "truncated")
      ]
      else false

  -- The two sides have the same value of the key, or both have none.
  abbrev pub members_agree : Option V.Json → Option V.Json → Bool
  members_agree none none = true
  members_agree (some b) (some c) = V.json_eq b c
  members_agree _ _ = false

  unfoldable pub first_mismatch : List Text → V.Json → V.Json → Option Text
  first_mismatch [] baseline candidate = none
  first_mismatch (key ∷ keys) baseline candidate =
      let rest = first_mismatch keys baseline candidate in
      if members_agree (V.member baseline key) (V.member candidate key) then rest else some key

  -- The first key that disagrees; nothing for the empty text.
  unfoldable pub first_precondition_mismatch : V.Json → V.Json → Option Text
  unfolding first_mismatch
  first_precondition_mismatch baseline candidate =
      first_mismatch precondition_keys baseline candidate

  unfoldable pub range_json : List (ℤ × ℤ) → List V.Json
  range_json [] = []
  range_json ((start, stop) ∷ ranges) =
      V.make_object
        ((text "start_block", V.from_int64 start) ∷ (text "end_block", V.from_int64 stop) ∷ [])
      ∷ range_json ranges

  unfoldable pub divergence_evidence : DivergenceReport → V.Json
  unfolding range_json
  divergence_evidence d = V.make_object (
      (text "first_divergent_block", V.from_int64 d.first_divergent_block)
        ∷ (
          text "sample_range",
          V.make_object (
              (text "start", V.from_int64 d.first_divergent_start_sample)
              ∷ (text "end", V.from_int64 d.first_divergent_end_sample)
              ∷ []),
        )
        ∷ elim d.first_divergent_time_ms [
          | none ↦ []
          | some time ↦ (text "first_divergent_time_ms", V.from_double time) ∷ []
        ]
      ++ (text "divergent_ranges", V.make_array (range_json d.divergent_ranges))
        ∷ (text "divergent_block_count", V.from_int64 d.divergent_block_count)
        ∷ [])

  unfoldable pub incomparable_finding :
      CheckDef → Measurement V.Json → Measurement V.Json → Policy → Text → Finding V.Json
  unfolding start_finding
  incomparable_finding check baseline candidate policy message =
      record (start_finding V check baseline candidate policy skipped message) {
        skip_reason = hash_incomparable;
      }

  -- The finding of a difference, with its message and evidence.
  unfoldable pub difference_finding :
      CheckDef
      → Measurement V.Json
      → Measurement V.Json
      → Policy
      → HashChain
      → HashChain
      → Finding V.Json
  unfolding start_finding compute_divergence extract_rate_hz divergence_evidence block_message
      to_string
  difference_finding check baseline candidate policy b c =
      let divergence = compute_divergence V b c (extract_rate_hz candidate.evidence) in
      let status = escalate (resolve_severity check policy) in
      if divergence.available
      then record (start_finding V check baseline candidate policy status
          (block_message V divergence)) { evidence = divergence_evidence divergence }
      else start_finding V check baseline candidate policy status (
          text "digests differ ("
          ++ to_string b.element_count
          ++ text " baseline element(s), "
          ++ to_string c.element_count
          ++ text " candidate element(s))")

  unfoldable pub chains_finding :
      CheckDef → Measurement V.Json → Measurement V.Json → Policy → Value → Value → Finding V.Json
  unfolding start_finding difference_finding
  chains_finding check baseline candidate policy (hash_value b) (hash_value c) =
      if text_eq b.algorithm c.algorithm && text_eq b.digest c.digest
      then start_finding V check baseline candidate policy passed (text "digests match")
      else difference_finding check baseline candidate policy b c
  chains_finding check baseline candidate policy _ _ =
      start_finding V check baseline candidate policy (escalate (resolve_severity check policy))
        (text "hash chain present on only one side")

  -- The finding behind the test of the preconditions.
  abbrev pub unless_mismatch :
      CheckDef → Measurement V.Json → Measurement V.Json → Policy → Option Text → Finding V.Json
  unless_mismatch check baseline candidate policy none =
      chains_finding check baseline candidate policy baseline.value candidate.value
  unless_mismatch check baseline candidate policy (some key) =
      incomparable_finding check baseline candidate policy (
        text "hash comparison skipped: '"
        ++ key
        ++ text "' precondition differs between baseline and candidate -- use a perceptual "
        ++ text "or epsilon comparison instead")

  unfoldable pub compare_hash : Comparator V.Json
  unfolding is_truncated_sampling first_precondition_mismatch incomparable_finding chains_finding
  compare_hash check baseline candidate policy =
      let b = is_truncated_sampling baseline.evidence in
      let c = is_truncated_sampling candidate.evidence in
      if b || c
      then ok (incomparable_finding check baseline candidate policy (truncated_message b c))
      else ok (
          unless_mismatch check baseline candidate policy
            (first_precondition_mismatch baseline.evidence candidate.evidence))
