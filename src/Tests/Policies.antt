-- ===== src/Tests/Policies.antt =====
-- Runs of src/core/policy.cpp on a registry of two checks.
use mediadiff.Base.{
  Accepts, All, Bool, Returned, Text, [], false, inr, none, pos, refl, some, text, text_eq, true,
  ◌*ℤ◌, ◌++◌, ◌+ℤ◌, ◌-ℤ◌, ◌↔◌, ◌∷◌, ◌≡◌,
}
use mediadiff.Core.CheckedArith.{checked_add, checked_mul}
use mediadiff.Core.Glob.{glob_matches, glob_select}
use mediadiff.Core.Glob.Select.{IsSelected, glob_select_iff}
use mediadiff.Core.Policy.{
  CliOverride, ConfigFile, GlobRule, OverrideBlock, Policy, ResolvedCheck, builtin,
  severity_dimension,
}
use mediadiff.Core.Policy.Invariant.{IsResolved, resolve_policy-IsResolved}
use mediadiff.Core.Policy.Precedence.{HasSeverity, resolve_policy-cli-last}
use mediadiff.Core.Policy.Resolve.{resolve_policy}
use mediadiff.Core.Policy.Total.{HasTolerance, resolve_policy-Returned}
use mediadiff.Core.Registry.{
  CheckDef, CheckRegistry, Severity, fail, ignore, info, int64, ms, remux, severity_from_string,
  severity_to_string, tol, tolerance_for, warn,
}
use mediadiff.Core.Tolerance.{parse_tolerance}
use mathlib.Core.List.{Memᴰ}
use mathlib.Core.List.Memᴰ.{head}

abbrev pub a_check : Text → Bool → CheckDef
a_check id is_volatile = record {
  id = id;
  group = text "video";
  semantic = tol;
  unit = ms;
  value_kind = int64;
  default_severity = fail;
  default_tolerance = text "5ms";
  is_volatile = is_volatile;
  requires_pass = false;
  transform_affected = false;
  profile_severity_overrides = record { profile = remux; severity = warn } ∷ [];
  profile_tolerance_overrides = [];
  flagged_values = [];
  explain_accept = [];
  explain_tune = [];
  explain_silence = [];
}

abbrev pub two_checks : CheckRegistry
two_checks = record {
  defs = a_check (text "video.a") false ∷ a_check (text "video.b") true ∷ [];
  aliases = [];
}

abbrev set_all_info : CliOverride
set_all_info = record {
  dimension = severity_dimension;
  glob = text "video.*";
  value = text "info";
  argv_index = 0;
}

resolve_policy-IsResolved_example :
    Accepts (IsResolved two_checks) (resolve_policy two_checks remux none (set_all_info ∷ []))
resolve_policy-IsResolved_example =
    resolve_policy-IsResolved two_checks remux none (set_all_info ∷ [])

abbrev entry : Text → Severity → ResolvedCheck
entry id severity = record {
  id = id;
  severity = severity;
  tolerance = none;
  chain =
      record {
        layer = builtin;
        detail = text "checks.def default";
        value = severity_to_string severity;
      }
      ∷ [];
}

abbrev pub base_policy : Policy
base_policy = record {
  profile = remux;
  per_check = entry (text "video.a") warn ∷ entry (text "video.b") ignore ∷ [];
  transform_expectation = record { resolution = none };
}

set_all_info-value : severity_from_string set_all_info.value ≡ some info
unfolding severity_from_string text text_eq
set_all_info-value = refl

set_all_info-selects : Memᴰ 0 (glob_select set_all_info.glob two_checks)
unfolding glob_select glob_matches text text_eq
set_all_info-selects = head refl

abbrev info_rule : GlobRule
info_rule = record { glob = text "video.*"; value = text "info"; file_order = pos 0 }

abbrev clips_block : OverrideBlock
clips_block = record {
  path_glob = text "clips/*";
  severity = info_rule ∷ [];
  tolerance = [];
  file_order = pos 1;
}

abbrev one_block : ConfigFile
one_block = record { severity = []; tolerance = []; overrides = clips_block ∷ [] }

resolve_policy-cli-last_example :
    Accepts (HasSeverity 0 info) (resolve_policy two_checks remux none ([] ++ set_all_info ∷ []))
resolve_policy-cli-last_example =
    resolve_policy-cli-last two_checks remux none [] set_all_info info 0 refl set_all_info-value
      set_all_info-selects

glob_select_iff_example :
    Memᴰ 1 (glob_select (text "video.*") two_checks)
    ↔ IsSelected 0 (text "video.*") two_checks.defs 1
glob_select_iff_example = glob_select_iff (text "video.*") two_checks 1

five_ms-parses : Returned (parse_tolerance (text "5ms") ms)
unfolding parse_tolerance checked_mul checked_add text text_eq ◌*ℤ◌ ◌+ℤ◌ ◌-ℤ◌
five_ms-parses = (_, refl)

two_checks-tolerance : All (HasTolerance remux) two_checks.defs
unfolding tolerance_for
two_checks-tolerance = (inr five_ms-parses, (inr five_ms-parses, tt))

resolve_policy-Returned_example :
    Returned (resolve_policy two_checks remux none (set_all_info ∷ []))
resolve_policy-Returned_example =
    resolve_policy-Returned two_checks remux (set_all_info ∷ []) two_checks-tolerance (refl, tt)
