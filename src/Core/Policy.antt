-- ===== src/Core/Policy.antt =====
-- src/core/policy.cpp: from the registry, a profile, mediadiff.toml and the command line to one
-- resolved severity and tolerance for each check. The file's contents are src/config/toml_load.h.
pub mod Resolve
pub mod Preserve
pub mod Invariant
pub mod Precedence
pub mod Chains
pub mod BlockOrder
pub mod ForFile
pub mod Total
use mediadiff.Base.{
  Expected, List, Option, Text, [], if◌then◌else◌, ltb, negsuc, none, ok, pos, some, suc, text,
  zero, ℕ, ℤ, ◌%◌, ◌++◌, ◌+ℤ◌, ◌+◌, ◌/◌, ◌>>=◌, ◌∷◌,
}
use mediadiff.Core.Glob.{glob_select}
use mediadiff.Core.Profiles.{TransformExpectation}
use mediadiff.Core.Registry.{
  CheckRegistry, ProfileId, Severity, at, severity_from_string, severity_to_string,
}
use mediadiff.Core.Tolerance.{Tolerance, parse_tolerance}

pub data Layer : Type 0 where
  builtin profile_layer config_layer cli_layer : Layer

pub record PolicyProvenance : Type 0 where
  pub layer : Layer
  pub detail : Text
  pub value : Text

pub record ResolvedCheck : Type 0 where
  pub id : Text
  pub severity : Severity
  pub tolerance : Option Tolerance
  pub chain : List PolicyProvenance

pub record Policy : Type 0 where
  pub profile : ProfileId
  pub per_check : List ResolvedCheck
  pub transform_expectation : TransformExpectation

pub record GlobRule : Type 0 where
  pub glob : Text
  pub value : Text
  pub file_order : ℤ

pub record OverrideBlock : Type 0 where
  pub path_glob : Text
  pub severity : List GlobRule
  pub tolerance : List GlobRule
  pub file_order : ℤ

-- The parts of `ConfigFile` that the policy reads.
pub record ConfigFile : Type 0 where
  pub severity : List GlobRule
  pub tolerance : List GlobRule
  pub overrides : List OverrideBlock

pub data Dimension : Type 0 where
  severity_dimension tolerance_dimension : Dimension

pub record CliOverride : Type 0 where
  pub dimension : Dimension
  pub glob : Text
  pub value : Text
  pub argv_index : ℕ

-- Decimal digits, with fuel for the digits.
unfoldable pub decimal_digits : ℕ → ℕ → Text
decimal_digits zero n = []
decimal_digits (suc fuel) n =
    let higher = decimal_digits fuel (n / 10) in
    (if ltb n 10 then [] else higher) ++ (b'0' + n % 10) ∷ []

-- `std::to_string`.
unfoldable pub to_string : ℤ → Text
unfolding decimal_digits
to_string (pos n) = decimal_digits (suc n) n
to_string (negsuc n) = b'-' ∷ decimal_digits (suc (suc n)) (suc n)

unfoldable pub config_glob_detail : Text → GlobRule → Text
unfolding to_string ◌+ℤ◌
config_glob_detail section rule =
    text "mediadiff.toml "
    ++ section
    ++ text " entry "
    ++ to_string (rule.file_order +ℤ pos 1)
    ++ text ", glob "
    ++ rule.glob

unfoldable pub config_override_glob_detail : Text → Text → GlobRule → Text
unfolding to_string ◌+ℤ◌
config_override_glob_detail path_glob section rule =
    text "mediadiff.toml [override."
    ++ (b'"' ∷ path_glob)
    ++ (b'"' ∷ text "] ")
    ++ section
    ++ text " entry "
    ++ to_string (rule.file_order +ℤ pos 1)
    ++ text ", glob "
    ++ rule.glob

unfoldable pub cli_detail : Text → CliOverride → Text
unfolding to_string
cli_detail flag cli =
    text "--"
    ++ flag
    ++ text " "
    ++ cli.glob
    ++ text "="
    ++ cli.value
    ++ text ", argv position "
    ++ to_string (pos (cli.argv_index + 1))

-- A change of the element at an index; an index out of range is undefined in C++.
unfoldable pub modify {ℓ} : {A : Type ℓ} → (A → A) → ℕ → List A → List A
modify f i [] = []
modify f zero (x ∷ xs) = f x ∷ xs
modify f (suc i) (x ∷ xs) = x ∷ modify f i xs

-- The entry with a new severity and one more link in its chain.
abbrev pub with_severity : Severity → Layer → Text → ResolvedCheck → ResolvedCheck
with_severity severity layer detail resolved = record resolved {
  severity = severity;
  chain =
      resolved.chain
      ++ record { layer = layer; detail = detail; value = severity_to_string severity } ∷ [];
}

abbrev pub with_tolerance : Tolerance → ResolvedCheck → ResolvedCheck
with_tolerance tolerance resolved = record resolved { tolerance = some tolerance }

unfoldable pub apply_severity_override : Policy → ℕ → Severity → Layer → Text → Policy
unfolding modify
apply_severity_override policy check_index severity layer detail = record policy {
  per_check = modify (with_severity severity layer detail) check_index policy.per_check;
}

unfoldable pub apply_tolerance_override : Policy → ℕ → Tolerance → Policy
unfolding modify
apply_tolerance_override policy check_index tolerance = record policy {
  per_check = modify (with_tolerance tolerance) check_index policy.per_check;
}

unfoldable pub apply_severity_at : Policy → List ℕ → Severity → Layer → Text → Policy
unfolding apply_severity_override
apply_severity_at policy [] severity layer detail = policy
apply_severity_at policy (i ∷ is) severity layer detail =
    apply_severity_at (apply_severity_override policy i severity layer detail) is severity layer
      detail

-- A rule whose value is no severity is passed over.
unfoldable pub apply_severity_rules :
    Policy → CheckRegistry → List GlobRule → Layer → (GlobRule → Text) → Policy
unfolding apply_severity_at
apply_severity_rules policy registry [] layer detail_of = policy
apply_severity_rules policy registry (rule ∷ rules) layer detail_of =
    let next : Policy = elim (severity_from_string rule.value) [
      | none ↦ policy
      | some severity ↦
          apply_severity_at policy (glob_select rule.glob registry) severity layer (detail_of rule)
    ] in
    apply_severity_rules next registry rules layer detail_of

-- A text that is no tolerance for the unit of a check that it reaches is an error. The indices
-- come from `glob_select` and are in range.
unfoldable pub apply_tolerance_at : Policy → CheckRegistry → List ℕ → Text → Expected Policy
unfolding apply_tolerance_override
apply_tolerance_at policy registry [] value = ok policy
apply_tolerance_at policy registry (i ∷ is) value = elim (at registry i) [
  | none ↦ ok policy
  | some check ↦ do
    parsed ← parse_tolerance value check.unit
    apply_tolerance_at (apply_tolerance_override policy i parsed) registry is value
]

unfoldable pub apply_tolerance_rules : Policy → CheckRegistry → List GlobRule → Expected Policy
unfolding apply_tolerance_at
apply_tolerance_rules policy registry [] = ok policy
apply_tolerance_rules policy registry (rule ∷ rules) = do
  next ← apply_tolerance_at policy registry (glob_select rule.glob registry) rule.value
  apply_tolerance_rules next registry rules

unfoldable pub apply_cli_override :
    Policy → CheckRegistry → CliOverride → Dimension → Expected Policy
unfolding apply_severity_at apply_tolerance_at
apply_cli_override policy registry cli severity_dimension = elim (severity_from_string cli.value) [
  | none ↦ ok policy
  | some severity ↦ ok (
      apply_severity_at policy (glob_select cli.glob registry) severity cli_layer
        (cli_detail (text "set") cli))
]
apply_cli_override policy registry cli tolerance_dimension =
    apply_tolerance_at policy registry (glob_select cli.glob registry) cli.value

unfoldable pub apply_cli_overrides : Policy → CheckRegistry → List CliOverride → Expected Policy
unfolding apply_cli_override
apply_cli_overrides policy registry [] = ok policy
apply_cli_overrides policy registry (cli ∷ clis) = do
  next ← apply_cli_override policy registry cli cli.dimension
  apply_cli_overrides next registry clis
