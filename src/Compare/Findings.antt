-- ===== src/Compare/Findings.antt =====
-- The findings that the loop of src/compare/engine.cpp builds itself, and the evidence it adds. A
-- formatted integer is its decimal text.
use mediadiff.Base.{
  Bool, Expected, List, Option, Text, [], false, get_elem?, if◌then◌else◌, is_empty, is_some, none,
  ok, some, text, true, ℕ, ◌++◌, ◌∷◌,
}
use mediadiff.Compare.Engine.{PairKey, value_kind_mismatch, value_kind_name}
use mediadiff.Core.Model.{
  Finding, Measurement, ScopeKind, Value, Vendor, absent, cross_container, errored, failed,
  is_not_skipped, not_skipped, program, skip_reason_to_string, skipped,
}
use mediadiff.Core.Policy.{Policy, to_string}
use mediadiff.Core.Registry.{CheckDef, Severity, ValueKind, fail, ignore}

-- `per_check[index].severity`; an index out of range is undefined in C++.
unfoldable pub per_check_severity : Policy → ℕ → Severity
per_check_severity policy index = elim (get_elem? policy.per_check index) [
  | none ↦ ignore
  | some resolved ↦ resolved.severity
]

-- The value of a side, or `Absent` where the side has no measurement.
abbrev pub side_value : {Json : Type 0} → Option (Measurement Json) → Value
side_value none = absent
side_value (some m) = m.value

abbrev pub is_program : ScopeKind → Bool
is_program program = true
is_program _ = false

module _ (V : Vendor) where
  abbrev pub side_evidence : Text → Measurement V.Json → List (Text × V.Json)
  side_evidence side m = if V.is_object m.evidence then (side, m.evidence) ∷ [] else []

  unfoldable pub pair_evidence : Measurement V.Json → Measurement V.Json → List (Text × V.Json)
  pair_evidence baseline candidate =
      side_evidence (text "baseline") baseline ++ side_evidence (text "candidate") candidate

  unfoldable pub demoted_finding :
      CheckDef
      → Policy
      → PairKey
      → Option (Measurement V.Json)
      → Option (Measurement V.Json)
      → Finding V.Json
  unfolding per_check_severity skip_reason_to_string
  demoted_finding check policy key baseline candidate = record {
    id = check.id;
    scope = record { kind = key.scope_kind; index = key.scope_index };
    status = skipped;
    severity = per_check_severity policy key.check_index;
    baseline = side_value baseline;
    candidate = side_value candidate;
    message =
        text "check '" ++ check.id ++ text "' skipped: " ++ skip_reason_to_string cross_container;
    skip_reason = cross_container;
    evidence = V.null_json;
  }

  unfoldable pub topology_finding :
      CheckDef
      → PairKey
      → Option (Measurement V.Json)
      → Option (Measurement V.Json)
      → Finding V.Json
  unfolding to_string
  topology_finding check key baseline candidate = record {
    id = check.id;
    scope = record { kind = key.scope_kind; index = key.scope_index };
    status = failed;
    severity = fail;
    baseline = side_value baseline;
    candidate = if is_some baseline then absent else side_value candidate;
    message =
        text "check '"
        ++ check.id
        ++ text "': program "
        ++ to_string key.scope_index
        ++ text " present only on the "
        ++ (if is_some baseline then text "baseline" else text "candidate")
        ++ text " side -- topology mismatch";
    skip_reason = not_skipped;
    evidence = V.null_json;
  }

  unfoldable pub skipped_finding :
      CheckDef → Policy → PairKey → Measurement V.Json → Measurement V.Json → Finding V.Json
  unfolding per_check_severity skip_reason_to_string pair_evidence
  skipped_finding check policy key baseline candidate =
      let reason =
        if is_not_skipped baseline.skip_reason
        then candidate.skip_reason
        else baseline.skip_reason in
      let evidence = pair_evidence baseline candidate in
      record {
        id = check.id;
        scope = candidate.scope;
        status = skipped;
        severity = per_check_severity policy key.check_index;
        baseline = baseline.value;
        candidate = candidate.value;
        message = text "check '" ++ check.id ++ text "' skipped: " ++ skip_reason_to_string reason;
        skip_reason = reason;
        evidence = if is_empty evidence then V.null_json else V.make_object evidence;
      }

  unfoldable pub mismatch_finding :
      CheckDef
      → Policy
      → PairKey
      → Measurement V.Json
      → Measurement V.Json
      → ValueKind
      → Finding V.Json
  unfolding per_check_severity value_kind_name
  mismatch_finding check policy key baseline candidate observed = record {
    id = check.id;
    scope = candidate.scope;
    status = errored;
    severity = per_check_severity policy key.check_index;
    baseline = baseline.value;
    candidate = candidate.value;
    message =
        text "value_kind mismatch: check '"
        ++ check.id
        ++ text "' declares "
        ++ value_kind_name check.value_kind
        ++ text ", measurement holds "
        ++ value_kind_name observed;
    skip_reason = not_skipped;
    evidence = V.null_json;
  }

  -- The sides' evidence, after what the comparator recorded itself.
  unfoldable pub with_evidence : List (Text × V.Json) → Finding V.Json → Finding V.Json
  with_evidence evidence finding =
      if is_empty evidence
      then finding
      else if V.is_object finding.evidence
      then record finding { evidence = V.make_object (V.entries finding.evidence ++ evidence) }
      else record finding { evidence = V.make_object evidence }

  -- The kind that the error names: the baseline's, or else the candidate's.
  unfoldable pub observed_mismatch :
      CheckDef → Measurement V.Json → Measurement V.Json → Option ValueKind
  unfolding value_kind_mismatch
  observed_mismatch check baseline candidate =
      elim (value_kind_mismatch baseline.value check.value_kind) [
        | some observed ↦ some observed
        | none ↦ value_kind_mismatch candidate.value check.value_kind
      ]

  abbrev pub unpaired :
      CheckDef
      → PairKey
      → Option (Measurement V.Json)
      → Option (Measurement V.Json)
      → Expected (Option (Finding V.Json))
  unpaired check key baseline candidate =
      if is_program key.scope_kind
      then ok (some (topology_finding check key baseline candidate))
      else ok none
