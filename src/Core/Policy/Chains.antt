-- ===== src/Core/Policy/Chains.antt =====
-- The per-file layer of src/core/policy.cpp keeps the history of every chain.
use mediadiff.Base.{
  Accepts, Accepts-bind, List, Option, Text, [], ap, none, refl, some, suc, sym, zero, ℕ, ◌++◌, ◌∙◌,
  ◌∷◌, ◌≡◌,
}
use mediadiff.Core.Policy.{
  CliOverride, ConfigFile, Layer, Policy, PolicyProvenance, ResolvedCheck, apply_cli_overrides,
  apply_severity_override, apply_tolerance_override, modify, with_severity, with_tolerance,
}
use mediadiff.Core.Policy.Preserve.{apply_blocks_kept, apply_cli_overrides_kept}
use mediadiff.Core.Policy.Resolve.{
  apply_blocks, in_file_order, matching_blocks, resolve_policy_for_file,
}
use mediadiff.Core.Registry.{CheckRegistry, Severity, severity_to_string}
use mediadiff.Core.Tolerance.{Tolerance}
use mathlib.Core.List.{append-nil, append_assoc}

-- The chain goes on from the other one, for the same check.
abbrev pub Continues : ResolvedCheck → ResolvedCheck → Type 0
Continues old resolved =
    (resolved.id ≡ old.id)
    × (suffix : List PolicyProvenance) × (resolved.chain ≡ old.chain ++ suffix)

-- Entry by entry.
abbrev pub Extends : List ResolvedCheck → List ResolvedCheck → Type 0
Extends [] [] = Unit
Extends [] (r ∷ rs) = ⊥
Extends (o ∷ os) [] = ⊥
Extends (o ∷ os) (r ∷ rs) = Continues o r × Extends os rs

Extends-self : (rs : List ResolvedCheck) → Extends rs rs
Extends-self [] = tt
Extends-self (r ∷ rs) = ((refl, [], sym (append-nil r.chain)), Extends-self rs)

modify-Extends :
    (f : ResolvedCheck → ResolvedCheck)
    → ((o r : ResolvedCheck) → Continues o r → Continues o (f r))
    → (i : ℕ) (os rs : List ResolvedCheck) → Extends os rs
    → Extends os (modify f i rs)
unfolding modify
modify-Extends f k i [] [] h = tt
modify-Extends f k i [] (r ∷ rs) h = absurd h
modify-Extends f k i (o ∷ os) [] h = h
modify-Extends f k zero (o ∷ os) (r ∷ rs) (e, h) = (k o r e, h)
modify-Extends f k (suc i) (o ∷ os) (r ∷ rs) (e, h) = (e, modify-Extends f k i os rs h)

apply_severity_override-Extends :
    (os : List ResolvedCheck) (policy : Policy) (i : ℕ) (s : Severity) (layer : Layer)
    (detail : Text)
    → Extends os policy.per_check
    → Extends os (apply_severity_override policy i s layer detail).per_check
unfolding apply_severity_override
apply_severity_override-Extends os policy i s layer detail h =
    let last : PolicyProvenance = record {
      layer = layer;
      detail = detail;
      value = severity_to_string s;
    } in
    modify-Extends (with_severity s layer detail)
      (λ o r (e, suffix, c). (
        e,
        suffix ++ last ∷ [],
        ap (λ chain. chain ++ last ∷ []) c ∙ append_assoc o.chain suffix (last ∷ []),
      ))
      i os policy.per_check h

apply_tolerance_override-Extends :
    (os : List ResolvedCheck) (policy : Policy) (i : ℕ) (t : Tolerance)
    → Extends os policy.per_check
    → Extends os (apply_tolerance_override policy i t).per_check
unfolding apply_tolerance_override
apply_tolerance_override-Extends os policy i t h =
    modify-Extends (with_tolerance t) (λ o r e. e) i os policy.per_check h

pub resolve_policy_for_file-Extends :
    (base : Policy) (registry : CheckRegistry) (config : Option ConfigFile) (path : Text)
    (clis : List CliOverride)
    → Accepts
        (λ policy. Extends base.per_check policy.per_check)
        (resolve_policy_for_file base registry config path clis)
unfolding resolve_policy_for_file
resolve_policy_for_file-Extends base registry none path clis =
    apply_cli_overrides_kept (λ policy. Extends base.per_check policy.per_check)
      (apply_severity_override-Extends base.per_check)
      (apply_tolerance_override-Extends base.per_check) base registry clis
      (Extends-self base.per_check)
resolve_policy_for_file-Extends base registry (some config) path clis =
    let P : Policy → Type 0 = λ policy. Extends base.per_check policy.per_check in
    let blocks = in_file_order (matching_blocks path config.overrides) in
    Accepts-bind P P (apply_blocks base registry blocks)
      (λ policy. apply_cli_overrides policy registry clis)
      (apply_blocks_kept P (apply_severity_override-Extends base.per_check)
        (apply_tolerance_override-Extends base.per_check) base registry blocks
        (Extends-self base.per_check))
      (λ policy.
        apply_cli_overrides_kept P (apply_severity_override-Extends base.per_check)
          (apply_tolerance_override-Extends base.per_check) policy registry clis)
