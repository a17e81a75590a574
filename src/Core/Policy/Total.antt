-- ===== src/Core/Policy/Total.antt =====
-- When `resolve_policy` of src/core/policy.cpp returns a policy.
use mediadiff.Base.{
  All, Bool-cases, List, Option-cases, Returned, Returned-bind, [], inl, inr, is_empty, none, ok,
  refl, subst, sym, text, true, ◌>>=◌, ◌∷◌, ◌≡◌, ◌⊎◌,
}
use mediadiff.Core.Glob.{glob_select}
use mediadiff.Core.Policy.{
  CliOverride, Policy, apply_cli_override, apply_cli_overrides, apply_severity_at, cli_detail,
  cli_layer, severity_dimension,
}
use mediadiff.Core.Policy.Resolve.{
  apply_config, builtin_tolerance, resolve_check, resolve_checks, resolve_policy, start_policy,
}
use mediadiff.Core.Registry.{
  CheckDef, CheckRegistry, ProfileId, severity_from_string, tolerance_for,
}
use mediadiff.Core.Tolerance.{parse_tolerance}

-- The check's tolerance text for the profile is empty or is a tolerance in the check's unit.
abbrev pub HasTolerance : ProfileId → CheckDef → Type 0
HasTolerance profile check =
    (is_empty (tolerance_for check profile) ≡ true)
    ⊎ Returned (parse_tolerance (tolerance_for check profile) check.unit)

resolve_check-Returned :
    (profile : ProfileId) (check : CheckDef)
    → HasTolerance profile check
    → Returned (resolve_check check profile)
unfolding resolve_check builtin_tolerance
resolve_check-Returned profile check (inl e) = rw e (_, refl)
resolve_check-Returned profile check (inr (t, e)) =
    elim (Bool-cases (is_empty (tolerance_for check profile))) [
      | inl y ↦ rw y (_, refl)
      | inr n ↦ rw (n, e) (_, refl)
    ]

resolve_checks-Returned :
    (profile : ProfileId) (checks : List CheckDef)
    → All (HasTolerance profile) checks
    → Returned (resolve_checks checks profile)
unfolding resolve_checks
resolve_checks-Returned profile [] h = (_, refl)
resolve_checks-Returned profile (c ∷ cs) h =
    Returned-bind (resolve_check c profile) (λ r. resolve_checks cs profile >>= (λ rs. ok (r ∷ rs)))
      (resolve_check-Returned profile c h.0)
      (λ r.
        Returned-bind (resolve_checks cs profile) (λ rs. ok (r ∷ rs))
          (resolve_checks-Returned profile cs h.1) (λ rs. (_, refl)))

apply_cli_override-Returned :
    (policy : Policy) (registry : CheckRegistry) (cli : CliOverride)
    → Returned (apply_cli_override policy registry cli severity_dimension)
unfolding apply_cli_override
apply_cli_override-Returned policy registry cli =
    elim (Option-cases (severity_from_string cli.value)) [
      | inl e ↦ (policy, rw (e, apply_cli_override) refl)
      | inr (s, e) ↦ (
        apply_severity_at policy (glob_select cli.glob registry) s cli_layer
            (cli_detail (text "set") cli),
        rw (e, apply_cli_override) refl,
      )
    ]

apply_cli_overrides-Returned :
    (policy : Policy) (registry : CheckRegistry) (clis : List CliOverride)
    → All (λ cli. cli.dimension ≡ severity_dimension) clis
    → Returned (apply_cli_overrides policy registry clis)
unfolding apply_cli_overrides
apply_cli_overrides-Returned policy registry [] h = (_, refl)
apply_cli_overrides-Returned policy registry (cli ∷ clis) h =
    Returned-bind (apply_cli_override policy registry cli cli.dimension)
      (λ next. apply_cli_overrides next registry clis)
      (subst (λ d. Returned (apply_cli_override policy registry cli d)) (sym h.0)
        (apply_cli_override-Returned policy registry cli))
      (λ next. apply_cli_overrides-Returned next registry clis h.1)

-- Without a configuration file and with severities only on the command line, `resolve_policy`
-- returns a policy whenever each check's tolerance text is empty or a tolerance in its unit.
pub resolve_policy-Returned :
    (registry : CheckRegistry) (profile : ProfileId) (clis : List CliOverride)
    → All (HasTolerance profile) registry.defs
    → All (λ cli. cli.dimension ≡ severity_dimension) clis
    → Returned (resolve_policy registry profile none clis)
unfolding resolve_policy apply_config
resolve_policy-Returned registry profile clis h k =
    Returned-bind (resolve_checks registry.defs profile)
      (λ rs. apply_cli_overrides (start_policy profile rs) registry clis)
      (resolve_checks-Returned profile registry.defs h)
      (λ rs. apply_cli_overrides-Returned (start_policy profile rs) registry clis k)
