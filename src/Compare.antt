-- ===== src/Compare.antt =====
-- src/compare: the parts that the comparators share. Every comparator starts a finding in the same
-- way and turns a difference into a status by the check's severity.
pub mod Simple
pub mod Sets
pub mod Family
pub mod Engine
pub mod Keys
pub mod Findings
pub mod Pairs
pub mod Outcomes
pub mod Order
pub mod Verdict
pub mod Verdicts
pub mod Within
pub mod Total
pub mod Values
pub mod Exact
pub mod Tol
pub mod Dist
pub mod Spans
pub mod Divergence
pub mod Hash
pub mod Semantics
use mediadiff.Base.{Accepts, Expected, Text, ◌≡◌}
use mediadiff.Core.Model.{
  Finding, Measurement, Status, Vendor, failed, informed, not_skipped, warned,
}
use mediadiff.Core.Policy.{Policy}
use mediadiff.Core.Policy.Resolve.{resolve_severity}
use mediadiff.Core.Registry.{CheckDef, Severity, fail, ignore, info, warn}

-- What a comparator reads of its inputs; `Comparator` of src/compare/semantics.h.
abbrev pub Comparator : Type 0 → Type 0
Comparator Json = CheckDef → Measurement Json → Measurement Json → Policy → Expected (Finding Json)

abbrev pub escalate : Severity → Status
escalate fail = failed
escalate warn = warned
escalate info = informed
escalate ignore = informed

module _ (V : Vendor) where
  -- The finding of a check over two measurements, with a status and a message.
  unfoldable pub start_finding :
      CheckDef → Measurement V.Json → Measurement V.Json → Policy → Status → Text → Finding V.Json
  unfolding resolve_severity
  start_finding check baseline candidate policy status message = record {
    id = check.id;
    scope = candidate.scope;
    status = status;
    severity = resolve_severity check policy;
    baseline = baseline.value;
    candidate = candidate.value;
    message = message;
    skip_reason = not_skipped;
    evidence = V.null_json;
  }

-- What the engine relies on: a finding carries its check's id and the candidate's scope.
abbrev pub IsComparator : {Json : Type 0} → Comparator Json → Type 0
IsComparator {Json = Json} comparator =
    (check : CheckDef) (baseline candidate : Measurement Json) (policy : Policy)
    → Accepts (λ (f : Finding Json). (f.id ≡ check.id) × (f.scope ≡ candidate.scope))
        (comparator check baseline candidate policy)
