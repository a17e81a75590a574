-- ===== src/Core/Policy/Preserve.antt =====
-- What every layer of src/core/policy.cpp keeps: it is enough that the two single overrides keep
-- it.
use mediadiff.Base.{
  Accepts, Accepts-all, Accepts-bind, List, Option, Option-cases, Text, [], inl, inr, none, some,
  text, ℕ, ◌∷◌,
}
use mediadiff.Core.Glob.{glob_select}
use mediadiff.Core.Policy.{
  CliOverride, ConfigFile, Dimension, GlobRule, Layer, OverrideBlock, Policy, apply_cli_override,
  apply_cli_overrides, apply_severity_at, apply_severity_override, apply_severity_rules,
  apply_tolerance_at, apply_tolerance_override, apply_tolerance_rules, cli_detail, cli_layer,
  config_glob_detail, config_layer, config_override_glob_detail, severity_dimension,
  tolerance_dimension,
}
use mediadiff.Core.Policy.Resolve.{apply_blocks, apply_config, in_file_order}
use mediadiff.Core.Registry.{CheckRegistry, Severity, at, severity_from_string}
use mediadiff.Core.Tolerance.{Tolerance, parse_tolerance}

module _ (P : Policy → Type 0)
    (tolerance_kept : (policy : Policy) (i : ℕ) (t : Tolerance)
      → P policy
      → P (apply_tolerance_override policy i t)) where
  pub apply_tolerance_at_kept :
      (policy : Policy) (registry : CheckRegistry) (is : List ℕ) (value : Text)
      → P policy
      → Accepts P (apply_tolerance_at policy registry is value)
  unfolding apply_tolerance_at
  apply_tolerance_at_kept policy registry [] value h = h
  apply_tolerance_at_kept policy registry (i ∷ is) value h = elim (Option-cases (at registry i)) [
    | inl e ↦ rw (e, Accepts) h
    | inr (check, e) ↦
        rw (e, Accepts)
          (Accepts-bind (λ t. Unit) P (parse_tolerance value check.unit)
            (λ t. apply_tolerance_at (apply_tolerance_override policy i t) registry is value)
            (Accepts-all (parse_tolerance value check.unit))
            (λ t _.
              apply_tolerance_at_kept (apply_tolerance_override policy i t) registry is value
                (tolerance_kept policy i t h)))
  ]

  pub apply_tolerance_rules_kept :
      (policy : Policy) (registry : CheckRegistry) (rules : List GlobRule)
      → P policy
      → Accepts P (apply_tolerance_rules policy registry rules)
  unfolding apply_tolerance_rules
  apply_tolerance_rules_kept policy registry [] h = h
  apply_tolerance_rules_kept policy registry (rule ∷ rules) h =
      Accepts-bind P P
        (apply_tolerance_at policy registry (glob_select rule.glob registry) rule.value)
        (λ next. apply_tolerance_rules next registry rules)
        (apply_tolerance_at_kept policy registry (glob_select rule.glob registry) rule.value h)
        (λ next. apply_tolerance_rules_kept next registry rules)

module _ (P : Policy → Type 0)
    (severity_kept : (policy : Policy) (i : ℕ) (s : Severity) (layer : Layer) (detail : Text)
      → P policy
      → P (apply_severity_override policy i s layer detail))
    (tolerance_kept : (policy : Policy) (i : ℕ) (t : Tolerance)
      → P policy
      → P (apply_tolerance_override policy i t)) where
  pub apply_severity_at_kept :
      (policy : Policy) (is : List ℕ) (s : Severity) (layer : Layer) (detail : Text)
      → P policy
      → P (apply_severity_at policy is s layer detail)
  unfolding apply_severity_at
  apply_severity_at_kept policy [] s layer detail h = h
  apply_severity_at_kept policy (i ∷ is) s layer detail h =
      apply_severity_at_kept (apply_severity_override policy i s layer detail) is s layer detail
        (severity_kept policy i s layer detail h)

  pub apply_severity_rules_kept :
      (policy : Policy) (registry : CheckRegistry) (rules : List GlobRule) (layer : Layer)
      (detail_of : GlobRule → Text)
      → P policy
      → P (apply_severity_rules policy registry rules layer detail_of)
  unfolding apply_severity_rules
  apply_severity_rules_kept policy registry [] layer detail_of h = h
  apply_severity_rules_kept policy registry (rule ∷ rules) layer detail_of h =
      elim (Option-cases (severity_from_string rule.value)) [
        | inl e ↦ rw e (apply_severity_rules_kept policy registry rules layer detail_of h)
        | inr (s, e) ↦ rw e (
            apply_severity_rules_kept
              (apply_severity_at policy (glob_select rule.glob registry) s layer (detail_of rule))
              registry rules layer detail_of
              (apply_severity_at_kept policy (glob_select rule.glob registry) s layer
                (detail_of rule) h))
      ]

  pub apply_cli_override_kept :
      (policy : Policy) (registry : CheckRegistry) (cli : CliOverride) (d : Dimension)
      → P policy
      → Accepts P (apply_cli_override policy registry cli d)
  unfolding apply_cli_override
  apply_cli_override_kept policy registry cli severity_dimension h =
      elim (Option-cases (severity_from_string cli.value)) [
        | inl e ↦ rw (e, Accepts) h
        | inr (s, e) ↦
            rw (e, Accepts)
              (apply_severity_at_kept policy (glob_select cli.glob registry) s cli_layer
                (cli_detail (text "set") cli) h)
      ]
  apply_cli_override_kept policy registry cli tolerance_dimension h =
      apply_tolerance_at_kept P tolerance_kept policy registry (glob_select cli.glob registry)
        cli.value h

  pub apply_cli_overrides_kept :
      (policy : Policy) (registry : CheckRegistry) (clis : List CliOverride)
      → P policy
      → Accepts P (apply_cli_overrides policy registry clis)
  unfolding apply_cli_overrides
  apply_cli_overrides_kept policy registry [] h = h
  apply_cli_overrides_kept policy registry (cli ∷ clis) h =
      Accepts-bind P P (apply_cli_override policy registry cli cli.dimension)
        (λ next. apply_cli_overrides next registry clis)
        (apply_cli_override_kept policy registry cli cli.dimension h)
        (λ next. apply_cli_overrides_kept next registry clis)

  pub apply_blocks_kept :
      (policy : Policy) (registry : CheckRegistry) (blocks : List OverrideBlock)
      → P policy
      → Accepts P (apply_blocks policy registry blocks)
  unfolding apply_blocks
  apply_blocks_kept policy registry [] h = h
  apply_blocks_kept policy registry (block ∷ blocks) h =
      Accepts-bind P P
        (apply_tolerance_rules
          (apply_severity_rules policy registry block.severity config_layer
            (config_override_glob_detail block.path_glob (text "[severity]")))
          registry block.tolerance)
        (λ next. apply_blocks next registry blocks)
        (apply_tolerance_rules_kept P tolerance_kept
          (apply_severity_rules policy registry block.severity config_layer
            (config_override_glob_detail block.path_glob (text "[severity]")))
          registry block.tolerance
          (apply_severity_rules_kept policy registry block.severity config_layer
            (config_override_glob_detail block.path_glob (text "[severity]")) h))
        (λ next. apply_blocks_kept next registry blocks)

  pub apply_config_kept :
      (policy : Policy) (registry : CheckRegistry) (config : Option ConfigFile)
      → P policy
      → Accepts P (apply_config policy registry config)
  unfolding apply_config
  apply_config_kept policy registry none h = h
  apply_config_kept policy registry (some config) h =
      Accepts-bind P P
        (apply_tolerance_rules
          (apply_severity_rules policy registry config.severity config_layer
            (config_glob_detail (text "[severity]")))
          registry config.tolerance)
        (λ next. apply_blocks next registry (in_file_order config.overrides))
        (apply_tolerance_rules_kept P tolerance_kept
          (apply_severity_rules policy registry config.severity config_layer
            (config_glob_detail (text "[severity]")))
          registry config.tolerance
          (apply_severity_rules_kept policy registry config.severity config_layer
            (config_glob_detail (text "[severity]")) h))
        (λ next. apply_blocks_kept next registry (in_file_order config.overrides))
