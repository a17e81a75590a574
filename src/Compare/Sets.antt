-- ===== src/Compare/Sets.antt =====
-- The verdict of src/compare/set.cpp.
use mediadiff.Base.{
  All, Bool-cases, [], false, inl, inr, is_empty, ok, refl, sym, true, ◌↔◌, ◌∙◌, ◌∷◌, ◌≡◌, ◌⊎◌,
}
use mediadiff.Compare.{escalate, start_finding}
use mediadiff.Compare.Simple.{
  compare_set, compare_state, has_text, set_difference, set_elements, value_is_flagged,
}
use mediadiff.Core.Model.{Finding, Measurement, Status, StringSet, Vendor, passed}
use mediadiff.Core.Policy.{Policy}
use mediadiff.Core.Policy.Resolve.{resolve_severity}
use mediadiff.Core.Registry.{CheckDef, Severity}
use mathlib.Core.Bool.{false≢true}

-- Every element of the first set is in the second.
abbrev pub IsSubset : StringSet → StringSet → Type 0
IsSubset xs ys = All (λ x. has_text ys x ≡ true) xs

set_difference-IsSubset :
    (xs ys : StringSet) → (is_empty (set_difference xs ys) ≡ true) ↔ IsSubset xs ys
unfolding set_difference
set_difference-IsSubset [] ys = (λ e. tt, λ h. refl)
set_difference-IsSubset (x ∷ xs) ys = elim (Bool-cases (has_text ys x)) [
  | inl e ↦
      rw e (
        λ h. (refl, (set_difference-IsSubset xs ys).0 h),
        λ h. (set_difference-IsSubset xs ys).1 h.1,
      )
  | inr ne ↦ rw ne (λ e. absurd (false≢true e), λ h. absurd (false≢true h.0))
]

abbrev pub IsVerdict : Status → Severity → Type 0 → Status → Type 0
IsVerdict same severity P status = (P × (status ≡ same)) ⊎ (¬ P × (status ≡ escalate severity))

-- `compare_set` always returns a finding: it passes exactly when each side's elements are all on
-- the other side, whatever the order, and otherwise its status is that of the check's severity.
pub compare_set-IsVerdict :
    (V : Vendor) (check : CheckDef) (baseline candidate : Measurement V.Json) (policy : Policy)
    → (f : Finding V.Json) × (compare_set V check baseline candidate policy ≡ ok f)
      × IsVerdict passed
          (resolve_severity check policy)
          (IsSubset (set_elements candidate.value) (set_elements baseline.value)
            × IsSubset (set_elements baseline.value) (set_elements candidate.value))
          f.status
unfolding compare_set start_finding
compare_set-IsVerdict V check baseline candidate policy =
    let c = set_elements candidate.value in
    let b = set_elements baseline.value in
    let added = set_difference-IsSubset c b in
    let removed = set_difference-IsSubset b c in
    elim (Bool-cases (is_empty (set_difference c b))) [
      | inl ea ↦ elim (Bool-cases (is_empty (set_difference b c))) [
        | inl er ↦ rw (ea, er) (_, refl, inl ((added.0 ea, removed.0 er), refl))
        | inr nr ↦ rw (ea, nr) (_, refl, inr ((λ h. false≢true (sym nr ∙ removed.1 h.1)), refl))
      ]
      | inr na ↦ rw na (_, refl, inr ((λ h. false≢true (sym na ∙ added.1 h.0)), refl))
    ]

-- `compare_state` always returns a finding: it passes exactly when neither value is one of the
-- check's flagged values, even where both values are the same, and otherwise its status is that of
-- the check's severity.
pub compare_state-IsVerdict :
    (V : Vendor) (check : CheckDef) (baseline candidate : Measurement V.Json) (policy : Policy)
    → (f : Finding V.Json) × (compare_state V check baseline candidate policy ≡ ok f)
      × IsVerdict passed
          (resolve_severity check policy)
          ((value_is_flagged baseline.value check ≡ false)
            × (value_is_flagged candidate.value check ≡ false))
          f.status
unfolding compare_state start_finding
compare_state-IsVerdict V check baseline candidate policy =
    elim (Bool-cases (value_is_flagged baseline.value check)) [
      | inl eb ↦ rw eb (_, refl, inr ((λ h. false≢true (sym h.0)), refl))
      | inr nb ↦ elim (Bool-cases (value_is_flagged candidate.value check)) [
        | inl ec ↦ rw (nb, ec) (_, refl, inr ((λ h. false≢true (sym h.1)), refl))
        | inr nc ↦ rw (nb, nc) (_, refl, inl ((refl, refl), refl))
      ]
    ]
