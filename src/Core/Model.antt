-- ===== src/Core/Model.antt =====
-- src/core/value.h and src/core/model.h: measured values, measurements and findings. The JSON
-- library, the formatting library and the binary64 arithmetic are the parameters `Vendor`.
pub mod Names
use mediadiff.Base.{
  Bool, List, Option, Text, [], false, if◌then◌else◌, none, some, text, text_eq, true, ℕ, ℤ, ◌∷◌,
}
use mediadiff.Core.Registry.{Severity}
use mediadiff.Core.Ticks.{Rational}

-- What the code uses of nlohmann::ordered_json, of fmt, and of `double` arithmetic.
pub record Vendor : Type 1 where
  -- nlohmann::ordered_json, and a default-constructed value.
  pub Json : Type 0
  pub null_json : Json
  pub is_object : Json → Bool
  -- `contains` and `at`, or `find`.
  pub member : Json → Text → Option Json
  -- `is_string` and `get<std::string>`.
  pub as_string : Json → Option Text
  -- `value(name, std::string())`, or nothing where it throws: the member is no string.
  pub value_string : Json → Text → Option Text
  -- `is_number_integer` and `get<std::int64_t>`.
  pub as_int64 : Json → Option ℤ
  pub json_eq : Json → Json → Bool
  -- `dump`.
  pub dump : Json → Text
  -- The ordered members of an object, and an object with these members, set in order.
  pub entries : Json → List (Text × Json)
  pub make_object : List (Text × Json) → Json
  pub make_array : List Json → Json
  pub from_int64 : ℤ → Json
  pub from_double : ℕ → Json
  -- `fmt::format("{:.1f}", d)` of a double.
  pub format_tenths : ℕ → Text
  -- The bits of `double(sample) * 1000.0 / double(rate)`.
  pub sample_time_ms : ℤ → ℤ → ℕ

pub record RationalValue : Type 0 where
  pub num : ℤ
  pub den : ℤ
  pub tb : Rational

-- `std::set<std::string>`: the strings in increasing order.
abbrev pub StringSet : Type 0
StringSet = List Text

pub record Histogram : Type 0 where
  pub bins : List (Text × ℤ)

pub record Span : Type 0 where
  pub start : RationalValue
  pub finish : RationalValue

pub record SpanList : Type 0 where
  pub spans : List Span

pub record HashChain : Type 0 where
  pub algorithm : Text
  pub digest : Text
  pub element_count : ℤ
  pub block_digests : List Text
  pub element_stride : ℤ

-- The nine alternatives; a `double` is its 64 bits.
pub data Value : Type 0 where
  absent : Value
  int64_value : ℤ → Value
  rational_value : RationalValue → Value
  real_value : ℕ → Value
  string_value : Text → Value
  set_value : StringSet → Value
  histogram_value : Histogram → Value
  span_value : SpanList → Value
  hash_value : HashChain → Value

pub data Status : Type 0 where
  passed informed warned failed skipped errored : Status

pub data SkipReason : Type 0 where
  not_skipped not_applicable_container requires_decode cross_container sampling_mismatch
        hash_incomparable no_parser unparsed_mechanism vfr requires_media no_prior_release
        partial_scan insufficient_data no_timing_data hash_disabled :
      SkipReason

pub data ScopeKind : Type 0 where
  global video audio subtitle data_stream program : ScopeKind

pub record Scope : Type 0 where
  pub kind : ScopeKind
  pub index : ℤ

-- `Scope::Kind` in the order of its enumerators.
abbrev pub scope_rank : ScopeKind → ℕ
scope_rank global = 0
scope_rank video = 1
scope_rank audio = 2
scope_rank subtitle = 3
scope_rank data_stream = 4
scope_rank program = 5

unfoldable pub skip_reason_to_string : SkipReason → Text
skip_reason_to_string not_skipped = text "none"
skip_reason_to_string not_applicable_container = text "not_applicable_container"
skip_reason_to_string requires_decode = text "requires_decode"
skip_reason_to_string cross_container = text "cross_container"
skip_reason_to_string sampling_mismatch = text "sampling_mismatch"
skip_reason_to_string hash_incomparable = text "hash_incomparable"
skip_reason_to_string no_parser = text "no_parser"
skip_reason_to_string unparsed_mechanism = text "unparsed_mechanism"
skip_reason_to_string vfr = text "vfr"
skip_reason_to_string requires_media = text "requires_media"
skip_reason_to_string no_prior_release = text "no_prior_release"
skip_reason_to_string partial_scan = text "partial_scan"
skip_reason_to_string insufficient_data = text "insufficient_data"
skip_reason_to_string no_timing_data = text "no_timing_data"
skip_reason_to_string hash_disabled = text "hash_disabled"

-- The first name that equals the text.
unfoldable pub pick_name {ℓ} : {A : Type ℓ} → Text → List (Text × A) → Option A
pick_name s [] = none
pick_name s ((name, value) ∷ names) = if text_eq s name then some value else pick_name s names

unfoldable pub skip_reason_from_string : Text → Option SkipReason
unfolding pick_name
skip_reason_from_string s = pick_name s (
    (text "none", not_skipped)
    ∷ (text "not_applicable_container", not_applicable_container)
    ∷ (text "requires_decode", requires_decode)
    ∷ (text "cross_container", cross_container)
    ∷ (text "sampling_mismatch", sampling_mismatch)
    ∷ (text "hash_incomparable", hash_incomparable)
    ∷ (text "no_parser", no_parser)
    ∷ (text "unparsed_mechanism", unparsed_mechanism)
    ∷ (text "vfr", vfr)
    ∷ (text "requires_media", requires_media)
    ∷ (text "no_prior_release", no_prior_release)
    ∷ (text "partial_scan", partial_scan)
    ∷ (text "insufficient_data", insufficient_data)
    ∷ (text "no_timing_data", no_timing_data)
    ∷ (text "hash_disabled", hash_disabled)
    ∷ [])

abbrev pub is_not_skipped : SkipReason → Bool
is_not_skipped not_skipped = true
is_not_skipped _ = false

pub record Measurement (Json : Type 0) : Type 0 where
  pub check_index : ℕ
  pub scope : Scope
  pub value : Value
  pub estimated : Bool
  pub skip_reason : SkipReason
  pub evidence : Json

pub record InputIdentity : Type 0 where
  pub basename : Text
  pub size_bytes : ℤ
  pub xxh3_128 : Text

pub record Envelope (Json : Type 0) : Type 0 where
  pub schema_version : Text
  pub tool_version : Text
  pub decode_path : Json
  pub sampling : Json
  pub input_identity : Option InputIdentity
  pub diagnostics : Json

pub record Fingerprint (Json : Type 0) : Type 0 where
  pub envelope : Envelope Json
  pub measurements : List (Measurement Json)
  pub is_partial : Bool

pub record Finding (Json : Type 0) : Type 0 where
  pub id : Text
  pub scope : Scope
  pub status : Status
  pub severity : Severity
  pub baseline : Value
  pub candidate : Value
  pub message : Text
  pub skip_reason : SkipReason
  pub evidence : Json
