-- ===== src/Compare/Pairs.antt =====
-- The loop of `compare_fingerprints` of src/compare/engine.cpp. Its comparators are the argument
-- `comparator_for`.
use mediadiff.Base.{
  Bool, Expected, List, Option, Text, [], err, if◌then◌else◌, internal, is_empty, none, not, ok,
  some, text, text_eq, ◌&&◌, ◌>>=◌, ◌||◌, ◌∷◌,
}
use mediadiff.Compare.{Comparator}
use mediadiff.Compare.Engine.{KeyMap, PairKey, all_keys, find_key, index_from}
use mediadiff.Compare.Family.{check_id_matches_family, resolve_family}
use mediadiff.Compare.Findings.{
  demoted_finding, mismatch_finding, observed_mismatch, pair_evidence, skipped_finding, unpaired,
  with_evidence,
}
use mediadiff.Core.Model.{Finding, Fingerprint, Measurement, Vendor, is_not_skipped}
use mediadiff.Core.Policy.{Policy}
use mediadiff.Core.Policy.Resolve.{resolve_policy}
use mediadiff.Core.Registry.{CheckDef, CheckRegistry, Semantic, at}

-- Whether a migration between containers takes the check out of the comparison.
unfoldable pub is_demoted : Text → Text → CheckDef → Bool
unfolding check_id_matches_family
is_demoted baseline_family candidate_family check =
    not (is_empty baseline_family)
    && not (is_empty candidate_family)
    && not (text_eq baseline_family candidate_family)
    && (check_id_matches_family check.id baseline_family
        || check_id_matches_family check.id candidate_family)

unfoldable pub builtin_policy : CheckRegistry → Policy → Expected Policy
unfolding resolve_policy
builtin_policy registry policy = do
  resolved ← resolve_policy registry policy.profile none []
  ok (record policy { per_check = resolved.per_check })

-- A policy without entries is resolved from its profile alone.
unfoldable pub complete_policy : CheckRegistry → Policy → Expected Policy
unfolding builtin_policy
complete_policy registry policy =
    if is_empty policy.per_check then builtin_policy registry policy else ok policy

module _ (V : Vendor) (comparator_for : Semantic → Comparator V.Json) where
  unfoldable pub compare_values :
      CheckDef → Policy → Measurement V.Json → Measurement V.Json → Expected (Finding V.Json)
  unfolding with_evidence pair_evidence
  compare_values check policy baseline candidate = do
    finding ← comparator_for check.semantic check baseline candidate policy
    ok (with_evidence V (pair_evidence V baseline candidate) finding)

  unfoldable pub compare_paired :
      CheckDef
      → Policy
      → PairKey
      → Measurement V.Json
      → Measurement V.Json
      → Expected (Finding V.Json)
  unfolding skipped_finding observed_mismatch mismatch_finding compare_values
  compare_paired check policy key baseline candidate =
      let values : Expected (Finding V.Json) = elim (observed_mismatch V check baseline candidate) [
        | some observed ↦ ok (mismatch_finding V check policy key baseline candidate observed)
        | none ↦ compare_values check policy baseline candidate
      ] in
      if not (is_not_skipped baseline.skip_reason) || not (is_not_skipped candidate.skip_reason)
      then ok (skipped_finding V check policy key baseline candidate)
      else values

  -- A finding, or nothing for a pair that is passed over.
  unfoldable pub compare_sides :
      CheckDef
      → Policy
      → PairKey
      → Option (Measurement V.Json)
      → Option (Measurement V.Json)
      → Expected (Option (Finding V.Json))
  unfolding compare_paired
  compare_sides check policy key (some baseline) (some candidate) = do
    finding ← compare_paired check policy key baseline candidate
    ok (some finding)
  compare_sides check policy key (some baseline) none = unpaired V check key (some baseline) none
  compare_sides check policy key none candidate = unpaired V check key none candidate

  -- The key's check, if its index is in the registry's range.
  unfoldable pub compare_check :
      Policy
      → Text
      → Text
      → KeyMap V.Json
      → KeyMap V.Json
      → PairKey
      → Option CheckDef
      → Expected (Option (Finding V.Json))
  unfolding is_demoted demoted_finding find_key compare_sides
  compare_check policy baseline_family candidate_family baselines candidates key none =
      err
        (record { kind = internal; message = text "measurement check_index out of registry range" })
  compare_check policy baseline_family candidate_family baselines candidates key (some check) =
      if is_demoted baseline_family candidate_family check
      then ok (
          some
            (demoted_finding V check policy key (find_key key baselines) (find_key key candidates)))
      else compare_sides check policy key (find_key key baselines) (find_key key candidates)

  unfoldable pub compare_key :
      CheckRegistry
      → Policy
      → Text
      → Text
      → KeyMap V.Json
      → KeyMap V.Json
      → PairKey
      → Expected (Option (Finding V.Json))
  unfolding at compare_check
  compare_key registry policy baseline_family candidate_family baselines candidates key =
      compare_check policy baseline_family candidate_family baselines candidates key
        (at registry key.check_index)

  unfoldable pub compare_keys :
      CheckRegistry
      → Policy
      → Text
      → Text
      → KeyMap V.Json
      → KeyMap V.Json
      → List PairKey
      → Expected (List (Finding V.Json))
  unfolding compare_key
  compare_keys registry policy baseline_family candidate_family baselines candidates [] = ok []
  compare_keys registry policy baseline_family candidate_family baselines candidates (k ∷ ks) = do
    finding ← compare_key registry policy baseline_family candidate_family baselines candidates k
    findings ← compare_keys registry policy baseline_family candidate_family baselines candidates ks
    ok (elim finding [ none ↦ findings | some f ↦ f ∷ findings ])

  unfoldable pub compare_fingerprints :
      Fingerprint V.Json
      → Fingerprint V.Json
      → Policy
      → CheckRegistry
      → Expected (List (Finding V.Json))
  unfolding complete_policy resolve_family index_from all_keys compare_keys
  compare_fingerprints baseline candidate policy registry = do
    resolved_policy ← complete_policy registry policy
    let baselines = index_from [] baseline.measurements
    let candidates = index_from [] candidate.measurements
    compare_keys registry resolved_policy (resolve_family baseline registry)
        (resolve_family candidate registry) baselines candidates (all_keys baselines candidates)
