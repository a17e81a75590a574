-- ===== src/Core/Registry.antt =====
-- src/core/registry.h: the table of checks and its enumerations. The tables themselves are
-- generated from src/core/checks.def and enter as values of `CheckRegistry`.
pub mod Find
use mediadiff.Base.{
  Bool, List, Option, Text, [], false, get_elem?, if◌then◌else◌, length, none, some, suc, text,
  text_eq, true, ℕ, ◌∷◌,
}

pub data Semantic : Type 0 where
  exact tol set presence hash dist span state : Semantic

pub data ValueKind : Type 0 where
  int64 rational real string string_set histogram span_list hash_chain : ValueKind

-- `Unit` of the source; its `none` is `no_unit`.
pub data CheckUnit : Type 0 where
  no_unit ms ms_per_min frames percent db lu samples ticks count : CheckUnit

-- The constructors of `Severity` and `ProfileId` are enumerators of the source.
pub data Severity : Type 0 where
  ignore info warn fail : Severity

pub data ProfileId : Type 0 where
  strict_bitexact sw_encoder hw_encoder remux transform : ProfileId

unfoldable pub unit_suffix : CheckUnit → Text
unit_suffix no_unit = text "none"
unit_suffix ms = text "ms"
unit_suffix ms_per_min = text "ms/min"
unit_suffix frames = text "frames"
unit_suffix percent = text "%"
unit_suffix db = text "dB"
unit_suffix lu = text "LU"
unit_suffix samples = text "samples"
unit_suffix ticks = text "tick"
unit_suffix count = text "bytes"

unfoldable pub unit_is_time : CheckUnit → Bool
unit_is_time ms = true
unit_is_time _ = false

unfoldable pub severity_from_string : Text → Option Severity
severity_from_string s =
    if text_eq s (text "ignore")
    then some ignore
    else if text_eq s (text "info")
    then some info
    else if text_eq s (text "warn")
    then some warn
    else if text_eq s (text "fail")
    then some fail
    else none

unfoldable pub severity_to_string : Severity → Text
severity_to_string ignore = text "ignore"
severity_to_string info = text "info"
severity_to_string warn = text "warn"
severity_to_string fail = text "fail"

abbrev pub severity_eq : Severity → Severity → Bool
severity_eq ignore ignore = true
severity_eq info info = true
severity_eq warn warn = true
severity_eq fail fail = true
severity_eq _ _ = false

abbrev pub profile_eq : ProfileId → ProfileId → Bool
profile_eq strict_bitexact strict_bitexact = true
profile_eq sw_encoder sw_encoder = true
profile_eq hw_encoder hw_encoder = true
profile_eq remux remux = true
profile_eq transform transform = true
profile_eq _ _ = false

pub record ProfileSeverityOverride : Type 0 where
  pub profile : ProfileId
  pub severity : Severity

pub record ProfileToleranceOverride : Type 0 where
  pub profile : ProfileId
  pub tolerance : Text

pub record AliasDef : Type 0 where
  pub old_id : Text
  pub new_check_index : ℕ
  pub new_group : Text

-- A pointer with a count is a list.
pub record CheckDef : Type 0 where
  pub id : Text
  pub group : Text
  pub semantic : Semantic
  pub unit : CheckUnit
  pub value_kind : ValueKind
  pub default_severity : Severity
  pub default_tolerance : Text
  pub is_volatile : Bool
  pub requires_pass : Bool
  pub transform_affected : Bool
  pub profile_severity_overrides : List ProfileSeverityOverride
  pub profile_tolerance_overrides : List ProfileToleranceOverride
  pub flagged_values : List Text
  pub explain_accept : Text
  pub explain_tune : Text
  pub explain_silence : Text

-- The first override for the profile, or the default.
unfoldable pub severity_override : ProfileId → List ProfileSeverityOverride → Severity → Severity
severity_override profile [] default = default
severity_override profile (o ∷ os) default =
    if profile_eq o.profile profile then o.severity else severity_override profile os default

unfoldable pub severity_for : CheckDef → ProfileId → Severity
unfolding severity_override
severity_for check profile =
    severity_override profile check.profile_severity_overrides check.default_severity

unfoldable pub tolerance_override : ProfileId → List ProfileToleranceOverride → Text → Text
tolerance_override profile [] default = default
tolerance_override profile (o ∷ os) default =
    if profile_eq o.profile profile then o.tolerance else tolerance_override profile os default

unfoldable pub tolerance_for : CheckDef → ProfileId → Text
unfolding tolerance_override
tolerance_for check profile =
    tolerance_override profile check.profile_tolerance_overrides check.default_tolerance

pub record CheckRegistry : Type 0 where
  pub defs : List CheckDef
  pub aliases : List AliasDef

unfoldable pub size : CheckRegistry → ℕ
size registry = length registry.defs

-- `at`; an index out of range is undefined in C++.
unfoldable pub at : CheckRegistry → ℕ → Option CheckDef
at registry index = get_elem? registry.defs index

unfoldable pub find_from : ℕ → Text → List CheckDef → Option ℕ
find_from i id [] = none
find_from i id (def ∷ defs) = if text_eq def.id id then some i else find_from (suc i) id defs

unfoldable pub find : CheckRegistry → Text → Option ℕ
unfolding find_from
find registry id = find_from 0 id registry.defs

unfoldable pub find_alias : Text → List AliasDef → Option ℕ
find_alias id [] = none
find_alias id (alias ∷ aliases) =
    if text_eq alias.old_id id then some alias.new_check_index else find_alias id aliases

-- The index, and whether it was reached by an alias; `was_aliased` is left alone on a miss.
unfoldable pub resolve_alias : CheckRegistry → Text → Option (ℕ × Bool)
unfolding find find_alias
resolve_alias registry id = elim (find registry id) [
  | some index ↦ some (index, false)
  | none ↦ elim (find_alias id registry.aliases) [ none ↦ none | some index ↦ some (index, true) ]
]
