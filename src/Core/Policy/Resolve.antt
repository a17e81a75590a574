-- ===== src/Core/Policy/Resolve.antt =====
-- src/core/policy.cpp: `resolve_policy`, `resolve_policy_for_file` and `resolve_severity`.
use mediadiff.Base.{
  Expected, List, Option, Text, [], if◌then◌else◌, is_empty, ltb_ℤ, none, ok, some, text, text_eq,
  ◌>>=◌, ◌∷◌,
}
use mediadiff.Core.Glob.{glob_matches_path}
use mediadiff.Core.Policy.{
  CliOverride, ConfigFile, Layer, OverrideBlock, Policy, PolicyProvenance, ResolvedCheck,
  apply_cli_overrides, apply_severity_rules, apply_tolerance_rules, builtin, config_glob_detail,
  config_layer, config_override_glob_detail, profile_layer,
}
use mediadiff.Core.Profiles.{profile_to_string}
use mediadiff.Core.Registry.{
  CheckDef, CheckRegistry, ProfileId, Severity, ignore, severity_eq, severity_for,
  severity_to_string, tolerance_for,
}
use mediadiff.Core.Tolerance.{Tolerance, parse_tolerance}

unfoldable pub resolve_from : Policy → CheckDef → List ResolvedCheck → Severity
unfolding severity_for
resolve_from policy check [] =
    if check.is_volatile then ignore else severity_for check policy.profile
resolve_from policy check (resolved ∷ rest) =
    if text_eq resolved.id check.id then resolved.severity else resolve_from policy check rest

-- The first entry with the check's id, or the first two layers for a check without one.
unfoldable pub resolve_severity : CheckDef → Policy → Severity
unfolding resolve_from
resolve_severity check policy = resolve_from policy check policy.per_check

abbrev pub link : Layer → Text → Severity → PolicyProvenance
link layer detail severity = record {
  layer = layer;
  detail = detail;
  value = severity_to_string severity;
}

-- The first two layers. A volatile check never reaches its profile's severity.
unfoldable pub builtin_severity : CheckDef → ProfileId → Severity
unfolding severity_for
builtin_severity check profile = if check.is_volatile then ignore else severity_for check profile

unfoldable pub builtin_chain : CheckDef → ProfileId → List PolicyProvenance
unfolding severity_for
builtin_chain check profile =
    if check.is_volatile
    then link builtin (text "volatile") ignore ∷ []
    else link builtin (text "checks.def default") check.default_severity
      ∷ (if severity_eq (severity_for check profile) check.default_severity
          then []
          else link profile_layer (profile_to_string profile) (severity_for check profile) ∷ [])

unfoldable pub builtin_tolerance : CheckDef → ProfileId → Expected (Option Tolerance)
unfolding tolerance_for
builtin_tolerance check profile =
    if is_empty (tolerance_for check profile)
    then ok none
    else do parsed ← parse_tolerance (tolerance_for check profile) check.unit; ok (some parsed)

unfoldable pub resolve_check : CheckDef → ProfileId → Expected ResolvedCheck
unfolding builtin_severity builtin_chain builtin_tolerance
resolve_check check profile = do
  tolerance ← builtin_tolerance check profile
  ok record {
    id = check.id;
    severity = builtin_severity check profile;
    tolerance = tolerance;
    chain = builtin_chain check profile;
  }

unfoldable pub resolve_checks : List CheckDef → ProfileId → Expected (List ResolvedCheck)
unfolding resolve_check
resolve_checks [] profile = ok []
resolve_checks (check ∷ checks) profile = do
  resolved ← resolve_check check profile
  rest ← resolve_checks checks profile
  ok (resolved ∷ rest)

-- `std::sort` by `file_order`; blocks of one order keep their places here, and the loader gives
-- no two blocks one order.
unfoldable pub insert_block : OverrideBlock → List OverrideBlock → List OverrideBlock
insert_block block [] = block ∷ []
insert_block block (other ∷ others) =
    let later = insert_block block others in
    if ltb_ℤ other.file_order block.file_order then other ∷ later else block ∷ other ∷ others

unfoldable pub in_file_order : List OverrideBlock → List OverrideBlock
unfolding insert_block
in_file_order [] = []
in_file_order (block ∷ blocks) = insert_block block (in_file_order blocks)

unfoldable pub apply_blocks : Policy → CheckRegistry → List OverrideBlock → Expected Policy
unfolding apply_severity_rules apply_tolerance_rules config_override_glob_detail
apply_blocks policy registry [] = ok policy
apply_blocks policy registry (block ∷ blocks) = do
  next ←
      apply_tolerance_rules
        (apply_severity_rules policy registry block.severity config_layer
          (config_override_glob_detail block.path_glob (text "[severity]")))
        registry block.tolerance
  apply_blocks next registry blocks

unfoldable pub apply_config : Policy → CheckRegistry → Option ConfigFile → Expected Policy
unfolding apply_severity_rules apply_tolerance_rules config_glob_detail apply_blocks in_file_order
apply_config policy registry none = ok policy
apply_config policy registry (some config) = do
  next ←
      apply_tolerance_rules
        (apply_severity_rules policy registry config.severity config_layer
          (config_glob_detail (text "[severity]")))
        registry config.tolerance
  apply_blocks next registry (in_file_order config.overrides)

-- The transform expectation is the caller's to set; it starts empty.
abbrev pub start_policy : ProfileId → List ResolvedCheck → Policy
start_policy profile per_check = record {
  profile = profile;
  per_check = per_check;
  transform_expectation = record { resolution = none };
}

unfoldable pub resolve_policy :
    CheckRegistry → ProfileId → Option ConfigFile → List CliOverride → Expected Policy
unfolding resolve_checks apply_config apply_cli_overrides
resolve_policy registry profile config clis = do
  per_check ← resolve_checks registry.defs profile
  configured ← apply_config (start_policy profile per_check) registry config
  apply_cli_overrides configured registry clis

unfoldable pub matching_blocks : Text → List OverrideBlock → List OverrideBlock
unfolding glob_matches_path
matching_blocks path [] = []
matching_blocks path (block ∷ blocks) =
    let rest = matching_blocks path blocks in
    if glob_matches_path block.path_glob path then block ∷ rest else rest

-- The blocks whose glob matches the file's path, over a policy that is resolved already, and the
-- command line again on top.
unfoldable pub resolve_policy_for_file :
    Policy → CheckRegistry → Option ConfigFile → Text → List CliOverride → Expected Policy
unfolding apply_blocks in_file_order matching_blocks apply_cli_overrides
resolve_policy_for_file base registry none path clis = apply_cli_overrides base registry clis
resolve_policy_for_file base registry (some config) path clis = do
  policy ← apply_blocks base registry (in_file_order (matching_blocks path config.overrides))
  apply_cli_overrides policy registry clis
