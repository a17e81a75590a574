-- ===== src/Report/Worst.antt =====
-- The exit code of a run, src/report/model.cpp and src/cli/exit_code.cpp.
use mediadiff.Base.{
  Bool, List, [], arith, false, inl, inr, refl, sym, true, ℕ, ◌↔◌, ◌∷◌, ◌≡◌, ◌≤◌, ◌⊎◌,
}
use mediadiff.Core.Model.{Finding, Status, errored, failed, informed, passed, skipped, warned}
use mediadiff.Core.Registry.{Severity, fail, ignore, info, warn}
use mediadiff.Report.{
  Summary, accumulate, accumulate_status, empty_summary, exit_code_for_findings, exit_of,
  severity_rank, summarize, worse,
}
use mediadiff.Report.Totals.{rank-worse}
use mathlib.Core.Bool.{true≢false}

-- The statuses that gate a run.
abbrev pub Gates : Status → Type 0
Gates warned = Unit
Gates failed = Unit
Gates errored = Unit
Gates _ = ⊥

rank_of_worse :
    (rank : ℕ) (a b : Severity)
    → (rank ≤ severity_rank (worse a b))
      ↔ ((Unit {0} × (rank ≤ severity_rank a)) ⊎ (rank ≤ severity_rank b))
rank_of_worse rank a b = (
  λ h. elim (rank-worse a b).2 [
    | inl e ↦ inl (tt, omega (arith, h, e))
    | inr e ↦ inr (omega (arith, h, e))
  ],
  λ h. elim h [
    | inl (_, l) ↦ omega (arith, l, (rank-worse a b).0)
    | inr l ↦ omega (arith, l, (rank-worse a b).1)
  ],
)

regroup : {A B C D E : Type 0} → (A ↔ (B ⊎ C)) → (C ↔ (D ⊎ E)) → A ↔ ((D ⊎ B) ⊎ E)
regroup f g = (
  λ a. elim (f.0 a) [
    | inl b ↦ inl (inr b)
    | inr c ↦ elim (g.0 c) [ inl d ↦ inl (inl d) | inr e ↦ inr e ]
  ],
  λ h. elim h [
    | inl u ↦ elim u [ inl d ↦ f.1 (inr (g.1 (inl d))) | inr b ↦ f.1 (inl b) ]
    | inr e ↦ f.1 (inr (g.1 (inr e)))
  ],
)

accumulate-worst :
    (rank : ℕ) (status : Status) (severity : Severity) (s : Summary)
    → (rank ≤ severity_rank (accumulate_status status severity s).worst_gating)
      ↔ ((Gates status × (rank ≤ severity_rank severity)) ⊎ (rank ≤ severity_rank s.worst_gating))
accumulate-worst rank passed severity s = (inr, λ h. elim h [ inl n ↦ absurd n.0 | inr y ↦ y ])
accumulate-worst rank informed severity s = (inr, λ h. elim h [ inl n ↦ absurd n.0 | inr y ↦ y ])
accumulate-worst rank skipped severity s = (inr, λ h. elim h [ inl n ↦ absurd n.0 | inr y ↦ y ])
accumulate-worst rank warned severity s = rank_of_worse rank severity s.worst_gating
accumulate-worst rank failed severity s = rank_of_worse rank severity s.worst_gating
accumulate-worst rank errored severity s = rank_of_worse rank severity s.worst_gating

exit_of-gates :
    (w : Severity) (strict : Bool)
    → ((exit_of w strict ≡ 1) ↔ (3 ≤ severity_rank w))
      × ((exit_of w strict ≡ 2)
          ↔ ((strict ≡ true) × (2 ≤ severity_rank w) × ¬ (3 ≤ severity_rank w)))
exit_of-gates ignore strict = (
  (λ e. omega arith, λ l. omega arith),
  (λ e. absurd (omega (arith, e)), λ h. absurd (omega (arith, h.1))),
)
exit_of-gates info strict = (
  (λ e. omega arith, λ l. omega arith),
  (λ e. absurd (omega (arith, e)), λ h. absurd (omega (arith, h.1))),
)
exit_of-gates warn true =
    ((λ e. omega arith, λ l. omega arith), (λ e. (refl, omega arith, λ l. omega arith), λ h. refl))
exit_of-gates warn false = (
  (λ e. omega arith, λ l. omega arith),
  (λ e. absurd (omega (arith, e)), λ h. absurd (true≢false (sym h.0))),
)
exit_of-gates fail strict = (
  (λ e. omega arith, λ l. refl),
  (λ e. absurd (omega (arith, e)), λ h. absurd (h.2 (omega arith))),
)

module _ {Json : Type 0} where
  -- A finding of the list that gates with at least the severity.
  abbrev pub HasGating : ℕ → List (Finding Json) → Type 0
  HasGating rank [] = ⊥
  HasGating rank (f ∷ fs) = (Gates f.status × (rank ≤ severity_rank f.severity)) ⊎ HasGating rank fs

  summarize-worst-from :
      (rank : ℕ) (s : Summary) (fs : List (Finding Json))
      → (rank ≤ severity_rank (summarize s fs).worst_gating)
        ↔ (HasGating rank fs ⊎ (rank ≤ severity_rank s.worst_gating))
  unfolding summarize accumulate
  summarize-worst-from rank s [] = (inr, λ h. elim h [ inl n ↦ absurd n | inr y ↦ y ])
  summarize-worst-from rank s (f ∷ fs) =
      regroup (summarize-worst-from rank (accumulate_status f.status f.severity s) fs)
        (accumulate-worst rank f.status f.severity s)

  worst-HasGating :
      (rank : ℕ) (fs : List (Finding Json))
      → 1 ≤ rank
      → (rank ≤ severity_rank (summarize empty_summary fs).worst_gating) ↔ HasGating rank fs
  worst-HasGating rank fs pos_rank = (
    λ l. elim ((summarize-worst-from rank empty_summary fs).0 l) [
      | inl g ↦ g
      | inr z ↦ absurd (omega (arith, z, pos_rank))
    ],
    λ g. (summarize-worst-from rank empty_summary fs).1 (inl g),
  )

  -- The exit code is 1 exactly when a finding whose status is warn, fail or error has severity
  -- `fail`; it is 2 exactly when the run is strict, such a finding has at least severity `warn`,
  -- and none has severity `fail`. So a finding of status warn under severity `fail` makes it 1, and
  -- one of status fail under severity `warn` does not.
  pub exit_code-gates :
      (fs : List (Finding Json)) (strict : Bool)
      → ((exit_code_for_findings (summarize empty_summary fs) strict ≡ 1) ↔ HasGating 3 fs)
        × ((exit_code_for_findings (summarize empty_summary fs) strict ≡ 2)
            ↔ ((strict ≡ true) × HasGating 2 fs × ¬ HasGating 3 fs))
  unfolding exit_code_for_findings
  exit_code-gates fs strict =
      let w = (summarize empty_summary fs).worst_gating in
      let g = exit_of-gates w strict in
      let g3 = worst-HasGating 3 fs (omega arith) in
      let g2 = worst-HasGating 2 fs (omega arith) in
      (
        (λ e. g3.0 (g.0.0 e), λ h. g.0.1 (g3.1 h)),
        (
          λ e. ((g.1.0 e).0, g2.0 (g.1.0 e).1, λ h. (g.1.0 e).2 (g3.1 h)),
          λ h. g.1.1 (h.0, g2.1 h.1, λ l. h.2 (g3.0 l)),
        ),
      )
