-- ===== src/Core/Policy/Invariant.antt =====
-- The table that src/core/policy.cpp resolves: one entry for each check of the registry, in its
-- order, with a chain that ends in the severity the entry has.
use mediadiff.Base.{
  Accepts, Accepts-all, Accepts-bind, Bool-cases, List, Option, Text, [], ap, inl, inr, none, ok,
  refl, some, suc, sym, true, zero, ℕ, ◌++◌, ◌>>=◌, ◌∷◌, ◌≡◌,
}
use mediadiff.Core.Policy.{
  CliOverride, ConfigFile, Layer, Policy, PolicyProvenance, ResolvedCheck, apply_cli_overrides,
  apply_severity_override, apply_tolerance_override, modify, with_severity, with_tolerance,
}
use mediadiff.Core.Policy.Preserve.{apply_blocks_kept, apply_cli_overrides_kept, apply_config_kept}
use mediadiff.Core.Policy.Resolve.{
  apply_blocks, apply_config, builtin_chain, builtin_severity, builtin_tolerance, in_file_order,
  matching_blocks, resolve_check, resolve_checks, resolve_policy, resolve_policy_for_file,
  start_policy,
}
use mediadiff.Core.Registry.{
  CheckDef, CheckRegistry, ProfileId, Severity, fail, ignore, info, severity_eq, severity_for,
  severity_to_string, warn,
}
use mediadiff.Core.Tolerance.{Tolerance}

-- The text that the last link of a chain recorded.
unfoldable pub last_value : List PolicyProvenance → Option Text
last_value [] = none
last_value (x ∷ []) = some x.value
last_value (x ∷ y ∷ rest) = last_value (y ∷ rest)

last_value-append :
    (chain : List PolicyProvenance) (x : PolicyProvenance)
    → last_value (chain ++ x ∷ []) ≡ some x.value
unfolding last_value
last_value-append [] x = refl
last_value-append (y ∷ []) x = refl
last_value-append (y ∷ z ∷ rest) x = last_value-append (z ∷ rest) x

-- The entry is for the check, and its chain ends in its severity.
abbrev pub IsEntry : CheckDef → ResolvedCheck → Type 0
IsEntry check resolved =
    (resolved.id ≡ check.id)
    × (last_value resolved.chain ≡ some (severity_to_string resolved.severity))

abbrev pub AreEntries : List CheckDef → List ResolvedCheck → Type 0
AreEntries [] [] = Unit
AreEntries [] (r ∷ rs) = ⊥
AreEntries (c ∷ cs) [] = ⊥
AreEntries (c ∷ cs) (r ∷ rs) = IsEntry c r × AreEntries cs rs

abbrev pub IsResolved : CheckRegistry → Policy → Type 0
IsResolved registry policy = AreEntries registry.defs policy.per_check

modify-AreEntries :
    (f : ResolvedCheck → ResolvedCheck)
    → ((c : CheckDef) (r : ResolvedCheck) → IsEntry c r → IsEntry c (f r))
    → (i : ℕ) (cs : List CheckDef) (rs : List ResolvedCheck) → AreEntries cs rs
    → AreEntries cs (modify f i rs)
unfolding modify
modify-AreEntries f k i [] [] h = tt
modify-AreEntries f k i [] (r ∷ rs) h = absurd h
modify-AreEntries f k i (c ∷ cs) [] h = h
modify-AreEntries f k zero (c ∷ cs) (r ∷ rs) (e, h) = (k c r e, h)
modify-AreEntries f k (suc i) (c ∷ cs) (r ∷ rs) (e, h) = (e, modify-AreEntries f k i cs rs h)

apply_severity_override-IsResolved :
    (registry : CheckRegistry) (policy : Policy) (i : ℕ) (s : Severity) (layer : Layer)
    (detail : Text)
    → IsResolved registry policy
    → IsResolved registry (apply_severity_override policy i s layer detail)
unfolding apply_severity_override
apply_severity_override-IsResolved registry policy i s layer detail h =
    modify-AreEntries (with_severity s layer detail)
      (λ c r e. (
        e.0,
        last_value-append r.chain
            (record { layer = layer; detail = detail; value = severity_to_string s }),
      ))
      i registry.defs policy.per_check h

apply_tolerance_override-IsResolved :
    (registry : CheckRegistry) (policy : Policy) (i : ℕ) (t : Tolerance)
    → IsResolved registry policy
    → IsResolved registry (apply_tolerance_override policy i t)
unfolding apply_tolerance_override
apply_tolerance_override-IsResolved registry policy i t h =
    modify-AreEntries (with_tolerance t) (λ c r e. e) i registry.defs policy.per_check h

severity_eq-eq : (a b : Severity) → severity_eq a b ≡ true → a ≡ b
severity_eq-eq ignore ignore e = refl
severity_eq-eq info info e = refl
severity_eq-eq warn warn e = refl
severity_eq-eq fail fail e = refl
severity_eq-eq ignore info e = cc
severity_eq-eq ignore warn e = cc
severity_eq-eq ignore fail e = cc
severity_eq-eq info ignore e = cc
severity_eq-eq info warn e = cc
severity_eq-eq info fail e = cc
severity_eq-eq warn ignore e = cc
severity_eq-eq warn info e = cc
severity_eq-eq warn fail e = cc
severity_eq-eq fail ignore e = cc
severity_eq-eq fail info e = cc
severity_eq-eq fail warn e = cc

builtin_chain-last :
    (check : CheckDef) (profile : ProfileId)
    → last_value (builtin_chain check profile)
      ≡ some (severity_to_string (builtin_severity check profile))
unfolding builtin_chain builtin_severity last_value
builtin_chain-last check profile = elim (Bool-cases check.is_volatile) [
  | inl v ↦ rw v refl
  | inr nv ↦
      rw nv (elim (Bool-cases (severity_eq (severity_for check profile) check.default_severity)) [
        | inl e ↦ rw e (
            ap (λ s. some (severity_to_string s))
              (sym (severity_eq-eq (severity_for check profile) check.default_severity e)))
        | inr ne ↦ rw ne refl
      ])
]

resolve_checks-AreEntries :
    (cs : List CheckDef) (profile : ProfileId) → Accepts (AreEntries cs) (resolve_checks cs profile)
unfolding resolve_checks resolve_check
resolve_checks-AreEntries [] profile = tt
resolve_checks-AreEntries (c ∷ cs) profile =
    Accepts-bind (IsEntry c) (AreEntries (c ∷ cs)) (resolve_check c profile)
      (λ r. resolve_checks cs profile >>= (λ rs. ok (r ∷ rs)))
      (Accepts-bind (λ t. Unit) (IsEntry c) (builtin_tolerance c profile)
        (λ t. ok record {
          id = c.id;
          severity = builtin_severity c profile;
          tolerance = t;
          chain = builtin_chain c profile;
        })
        (Accepts-all (builtin_tolerance c profile)) (λ t _. (refl, builtin_chain-last c profile)))
      (λ r hr.
        Accepts-bind (AreEntries cs) (AreEntries (c ∷ cs)) (resolve_checks cs profile)
          (λ rs. ok (r ∷ rs)) (resolve_checks-AreEntries cs profile) (λ rs hrs. (hr, hrs)))

-- A policy that `resolve_policy` returns has one entry for each check of the registry, in the
-- registry's order and with the check's id, and the last link of the entry's provenance chain
-- records the severity that the entry has.
pub resolve_policy-IsResolved :
    (registry : CheckRegistry) (profile : ProfileId) (config : Option ConfigFile)
    (clis : List CliOverride)
    → Accepts (IsResolved registry) (resolve_policy registry profile config clis)
unfolding resolve_policy
resolve_policy-IsResolved registry profile config clis =
    Accepts-bind (AreEntries registry.defs) (IsResolved registry)
      (resolve_checks registry.defs profile)
      (λ rs.
        apply_config (start_policy profile rs) registry config
        >>= (λ policy. apply_cli_overrides policy registry clis))
      (resolve_checks-AreEntries registry.defs profile)
      (λ rs h.
        Accepts-bind (IsResolved registry) (IsResolved registry)
          (apply_config (start_policy profile rs) registry config)
          (λ policy. apply_cli_overrides policy registry clis)
          (apply_config_kept (IsResolved registry) (apply_severity_override-IsResolved registry)
            (apply_tolerance_override-IsResolved registry) (start_policy profile rs) registry config
            h)
          (λ policy.
            apply_cli_overrides_kept (IsResolved registry)
              (apply_severity_override-IsResolved registry)
              (apply_tolerance_override-IsResolved registry) policy registry clis))

-- From a policy with one entry for each check of the registry, in order and with a chain that ends
-- in the entry's severity, `resolve_policy_for_file` only returns policies with the same property.
pub resolve_policy_for_file-IsResolved :
    (base : Policy) (registry : CheckRegistry) (config : Option ConfigFile) (path : Text)
    (clis : List CliOverride)
    → IsResolved registry base
    → Accepts (IsResolved registry) (resolve_policy_for_file base registry config path clis)
unfolding resolve_policy_for_file
resolve_policy_for_file-IsResolved base registry none path clis h =
    apply_cli_overrides_kept (IsResolved registry) (apply_severity_override-IsResolved registry)
      (apply_tolerance_override-IsResolved registry) base registry clis h
resolve_policy_for_file-IsResolved base registry (some config) path clis h =
    Accepts-bind (IsResolved registry) (IsResolved registry)
      (apply_blocks base registry (in_file_order (matching_blocks path config.overrides)))
      (λ policy. apply_cli_overrides policy registry clis)
      (apply_blocks_kept (IsResolved registry) (apply_severity_override-IsResolved registry)
        (apply_tolerance_override-IsResolved registry) base registry
        (in_file_order (matching_blocks path config.overrides)) h)
      (λ policy.
        apply_cli_overrides_kept (IsResolved registry) (apply_severity_override-IsResolved registry)
          (apply_tolerance_override-IsResolved registry) policy registry clis)
