-- ===== src/Core/Policy/Precedence.antt =====
-- The order of the layers of src/core/policy.cpp: a later write of a severity wins.
use mediadiff.Base.{
  Accepts, Accepts-all, Accepts-bind, List, Option, Text, [], bind_cong, get_elem?, refl, some,
  subst, suc, sym, text, zero, ℕ, ◌++◌, ◌>>=◌, ◌∷◌, ◌≡◌,
}
use mediadiff.Core.Glob.{glob_select}
use mediadiff.Core.Policy.{
  CliOverride, ConfigFile, Layer, Policy, ResolvedCheck, apply_cli_override, apply_cli_overrides,
  apply_severity_at, apply_severity_override, cli_detail, cli_layer, modify, severity_dimension,
  with_severity,
}
use mediadiff.Core.Policy.Resolve.{apply_config, resolve_checks, resolve_policy, start_policy}
use mediadiff.Core.Registry.{CheckRegistry, ProfileId, Severity, severity_from_string}
use mathlib.Core.List.{Memᴰ}
use mathlib.Core.Option.{some-injective}
use mathlib.Core.List.Memᴰ.{head, tail}

-- The entry at an index, if there is one, has the severity.
abbrev pub HasSeverity : ℕ → Severity → Policy → Type 0
HasSeverity i s policy =
    (r : ResolvedCheck) → get_elem? policy.per_check i ≡ some r → r.severity ≡ s

-- The change reaches its index and no other.
pub modify-same :
    (f : ResolvedCheck → ResolvedCheck) (P : ResolvedCheck → Type 0)
    → ((r : ResolvedCheck) → P (f r))
    → (i : ℕ) (rs : List ResolvedCheck) (r : ResolvedCheck) → get_elem? (modify f i rs) i ≡ some r
    → P r
unfolding modify
modify-same f P k i [] r e = cc
modify-same f P k zero (x ∷ rs) r e = subst P (some-injective _ _ e) (k x)
modify-same f P k (suc i) (x ∷ rs) r e = modify-same f P k i rs r e

pub modify-keeps :
    (f : ResolvedCheck → ResolvedCheck) (P : ResolvedCheck → Type 0)
    → ((r : ResolvedCheck) → P r → P (f r))
    → (i j : ℕ) (rs : List ResolvedCheck) → ((r : ResolvedCheck) → get_elem? rs j ≡ some r → P r)
    → (r : ResolvedCheck) → get_elem? (modify f i rs) j ≡ some r
    → P r
unfolding modify
modify-keeps f P k i j [] h r e = h r e
modify-keeps f P k zero zero (x ∷ rs) h r e = subst P (some-injective _ _ e) (k x (h x refl))
modify-keeps f P k zero (suc j) (x ∷ rs) h r e = h r e
modify-keeps f P k (suc i) zero (x ∷ rs) h r e = h r e
modify-keeps f P k (suc i) (suc j) (x ∷ rs) h r e = modify-keeps f P k i j rs h r e

apply_severity_override-keeps :
    (policy : Policy) (i j : ℕ) (s : Severity) (layer : Layer) (detail : Text)
    → HasSeverity j s policy
    → HasSeverity j s (apply_severity_override policy i s layer detail)
unfolding apply_severity_override
apply_severity_override-keeps policy i j s layer detail h =
    modify-keeps (with_severity s layer detail) (λ r. r.severity ≡ s) (λ r e. refl) i j
      policy.per_check h

apply_severity_override-sets :
    (policy : Policy) (i : ℕ) (s : Severity) (layer : Layer) (detail : Text)
    → HasSeverity i s (apply_severity_override policy i s layer detail)
unfolding apply_severity_override
apply_severity_override-sets policy i s layer detail =
    modify-same (with_severity s layer detail) (λ r. r.severity ≡ s) (λ r. refl) i policy.per_check

apply_severity_at-keeps :
    (policy : Policy) (is : List ℕ) (j : ℕ) (s : Severity) (layer : Layer) (detail : Text)
    → HasSeverity j s policy
    → HasSeverity j s (apply_severity_at policy is s layer detail)
unfolding apply_severity_at
apply_severity_at-keeps policy [] j s layer detail h = h
apply_severity_at-keeps policy (i ∷ is) j s layer detail h =
    apply_severity_at-keeps (apply_severity_override policy i s layer detail) is j s layer detail
      (apply_severity_override-keeps policy i j s layer detail h)

pub apply_severity_at-sets :
    (policy : Policy) (is : List ℕ) (j : ℕ) (s : Severity) (layer : Layer) (detail : Text)
    → Memᴰ j is
    → HasSeverity j s (apply_severity_at policy is s layer detail)
unfolding apply_severity_at
apply_severity_at-sets policy [] j s layer detail m = elim m [ ]
apply_severity_at-sets policy (i ∷ is) j s layer detail (head e) =
    apply_severity_at-keeps (apply_severity_override policy i s layer detail) is j s layer detail (
      subst (λ k. HasSeverity k s (apply_severity_override policy i s layer detail)) (sym e)
        (apply_severity_override-sets policy i s layer detail))
apply_severity_at-sets policy (i ∷ is) j s layer detail (tail m) =
    apply_severity_at-sets (apply_severity_override policy i s layer detail) is j s layer detail m

-- The overrides in the order of the command line.
apply_cli_overrides-append :
    (policy : Policy) (registry : CheckRegistry) (xs ys : List CliOverride)
    → apply_cli_overrides policy registry (xs ++ ys)
      ≡ (apply_cli_overrides policy registry xs >>= (λ next. apply_cli_overrides next registry ys))
unfolding apply_cli_overrides
apply_cli_overrides-append policy registry [] ys = refl
apply_cli_overrides-append policy registry (x ∷ xs) ys =
    bind_cong (apply_cli_override policy registry x x.dimension)
      (λ next. apply_cli_overrides next registry xs)
      (λ next. apply_cli_overrides next registry (xs ++ ys))
      (λ next. apply_cli_overrides next registry ys)
      (λ next. apply_cli_overrides-append next registry xs ys)

apply_cli_override-sets :
    (policy : Policy) (registry : CheckRegistry) (cli : CliOverride) (s : Severity) (i : ℕ)
    → cli.dimension ≡ severity_dimension
    → severity_from_string cli.value ≡ some s
    → Memᴰ i (glob_select cli.glob registry)
    → Accepts (HasSeverity i s) (apply_cli_overrides policy registry (cli ∷ []))
unfolding apply_cli_overrides apply_cli_override
apply_cli_override-sets policy registry cli s i d v m =
    rw (d, Accepts)
      (rw (v, Accepts)
        (apply_severity_at-sets policy (glob_select cli.glob registry) i s cli_layer
          (cli_detail (text "set") cli) m))

apply_cli_overrides-last :
    (policy : Policy) (registry : CheckRegistry) (clis : List CliOverride) (cli : CliOverride)
    (s : Severity) (i : ℕ)
    → cli.dimension ≡ severity_dimension
    → severity_from_string cli.value ≡ some s
    → Memᴰ i (glob_select cli.glob registry)
    → Accepts (HasSeverity i s) (apply_cli_overrides policy registry (clis ++ cli ∷ []))
apply_cli_overrides-last policy registry clis cli s i d v m =
    subst (Accepts (HasSeverity i s))
      (sym (apply_cli_overrides-append policy registry clis (cli ∷ [])))
      (Accepts-bind (λ p. Unit) (HasSeverity i s) (apply_cli_overrides policy registry clis)
        (λ next. apply_cli_overrides next registry (cli ∷ []))
        (Accepts-all (apply_cli_overrides policy registry clis))
        (λ next _. apply_cli_override-sets next registry cli s i d v m))

-- Where the last argument of the command line sets a severity, every check that its glob selects
-- has that severity in a policy that `resolve_policy` returns, whatever the registry, the profile,
-- the configuration file and the earlier arguments say.
pub resolve_policy-cli-last :
    (registry : CheckRegistry) (profile : ProfileId) (config : Option ConfigFile)
    (clis : List CliOverride) (cli : CliOverride) (s : Severity) (i : ℕ)
    → cli.dimension ≡ severity_dimension
    → severity_from_string cli.value ≡ some s
    → Memᴰ i (glob_select cli.glob registry)
    → Accepts (HasSeverity i s) (resolve_policy registry profile config (clis ++ cli ∷ []))
unfolding resolve_policy
resolve_policy-cli-last registry profile config clis cli s i d v m =
    Accepts-bind (λ rs. Unit) (HasSeverity i s) (resolve_checks registry.defs profile)
      (λ rs.
        apply_config (start_policy profile rs) registry config
        >>= (λ policy. apply_cli_overrides policy registry (clis ++ cli ∷ [])))
      (Accepts-all (resolve_checks registry.defs profile))
      (λ rs _.
        Accepts-bind (λ p. Unit) (HasSeverity i s)
          (apply_config (start_policy profile rs) registry config)
          (λ policy. apply_cli_overrides policy registry (clis ++ cli ∷ []))
          (Accepts-all (apply_config (start_policy profile rs) registry config))
          (λ policy _. apply_cli_overrides-last policy registry clis cli s i d v m))
