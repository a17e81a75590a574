-- ===== src/Report/Totals.antt =====
-- The counts of src/report/model.cpp.
use mediadiff.Base.{
  Bool-cases, List, [], ap, ap₂, arith, inl, inr, length, ltb, refl, suc, sym, ℕ, ◌++◌, ◌+◌, ◌∙◌,
  ◌∷◌, ◌≡◌, ◌≤◌, ◌⊎◌,
}
use mediadiff.Core.Model.{Finding, Status, errored, failed, informed, passed, skipped, warned}
use mediadiff.Core.Registry.{Severity, fail, ignore, info, warn}
use mediadiff.Report.{
  Summary, accumulate, accumulate_status, combine_summary, empty_summary, severity_rank, summarize,
  worse,
}

abbrev pub total : Summary → ℕ
total s = s.passes + s.infos + s.warns + s.fails + s.skips + s.errors

accumulate-total :
    (status : Status) (severity : Severity) (s : Summary)
    → total (accumulate_status status severity s) ≡ suc (total s)
accumulate-total passed severity s = omega arith
accumulate-total informed severity s = omega arith
accumulate-total warned severity s = omega arith
accumulate-total failed severity s = omega arith
accumulate-total skipped severity s = omega arith
accumulate-total errored severity s = omega arith

summarize-total-from :
    {Json : Type 0} (s : Summary) (fs : List (Finding Json))
    → total (summarize s fs) ≡ total s + length fs
unfolding summarize accumulate
summarize-total-from s [] = omega arith
summarize-total-from s (f ∷ fs) = omega (
  arith,
  summarize-total-from (accumulate_status f.status f.severity s) fs,
  accumulate-total f.status f.severity s,
)

-- Every finding is counted once.
pub summarize-total :
    {Json : Type 0} (fs : List (Finding Json)) → total (summarize empty_summary fs) ≡ length fs
summarize-total fs = omega (arith, summarize-total-from empty_summary fs)

severity_rank_injective : (a b : Severity) → severity_rank a ≡ severity_rank b → a ≡ b
severity_rank_injective ignore ignore e = refl
severity_rank_injective info info e = refl
severity_rank_injective warn warn e = refl
severity_rank_injective fail fail e = refl
severity_rank_injective ignore info e = absurd (omega (arith, e))
severity_rank_injective ignore warn e = absurd (omega (arith, e))
severity_rank_injective ignore fail e = absurd (omega (arith, e))
severity_rank_injective info ignore e = absurd (omega (arith, e))
severity_rank_injective info warn e = absurd (omega (arith, e))
severity_rank_injective info fail e = absurd (omega (arith, e))
severity_rank_injective warn ignore e = absurd (omega (arith, e))
severity_rank_injective warn info e = absurd (omega (arith, e))
severity_rank_injective warn fail e = absurd (omega (arith, e))
severity_rank_injective fail ignore e = absurd (omega (arith, e))
severity_rank_injective fail info e = absurd (omega (arith, e))
severity_rank_injective fail warn e = absurd (omega (arith, e))

-- The rank of the worse severity is the maximum of the ranks.
pub rank-worse :
    (a b : Severity)
    → (severity_rank a ≤ severity_rank (worse a b))
      × (severity_rank b ≤ severity_rank (worse a b))
      × ((severity_rank (worse a b) ≡ severity_rank a)
          ⊎ (severity_rank (worse a b) ≡ severity_rank b))
rank-worse a b = elim (Bool-cases (ltb (severity_rank b) (severity_rank a))) [
  | inl e ↦ rw e (omega arith, ground arith, inl refl)
  | inr ne ↦ rw ne (ground arith, omega arith, inr refl)
]

worse_swap : (a b c : Severity) → worse a (worse b c) ≡ worse b (worse a c)
worse_swap a b c = severity_rank_injective (worse a (worse b c)) (worse b (worse a c)) (
    max_swap (rank-worse a (worse b c)) (rank-worse b c) (rank-worse b (worse a c))
      (rank-worse a c))
  where
    max_swap :
        {x y z u v w r : ℕ}
        → (x ≤ w) × (v ≤ w) × ((w ≡ x) ⊎ (w ≡ v))
        → (y ≤ v) × (z ≤ v) × ((v ≡ y) ⊎ (v ≡ z))
        → (y ≤ r) × (u ≤ r) × ((r ≡ y) ⊎ (r ≡ u))
        → (x ≤ u) × (z ≤ u) × ((u ≡ x) ⊎ (u ≡ z))
        → w ≡ r
    max_swap a b c d = omega (arith, a, b, c, d)

combine-accumulate :
    (s t : Summary) (status : Status) (severity : Severity)
    → combine_summary s (accumulate_status status severity t)
      ≡ accumulate_status status severity (combine_summary s t)
unfolding combine_summary
combine-accumulate s t passed severity =
    ap (λ n. record (combine_summary s t) { passes = n }) (omega arith)
combine-accumulate s t informed severity =
    ap (λ n. record (combine_summary s t) { infos = n }) (omega arith)
combine-accumulate s t skipped severity =
    ap (λ n. record (combine_summary s t) { skips = n }) (omega arith)
combine-accumulate s t warned severity =
    ap₂ (λ n w. record (combine_summary s t) { warns = n; worst_gating = w }) (omega arith)
      (worse_swap s.worst_gating severity t.worst_gating)
combine-accumulate s t failed severity =
    ap₂ (λ n w. record (combine_summary s t) { fails = n; worst_gating = w }) (omega arith)
      (worse_swap s.worst_gating severity t.worst_gating)
combine-accumulate s t errored severity =
    ap₂ (λ n w. record (combine_summary s t) { errors = n; worst_gating = w }) (omega arith)
      (worse_swap s.worst_gating severity t.worst_gating)

combine-summarize :
    {Json : Type 0} (s t : Summary) (fs : List (Finding Json))
    → combine_summary s (summarize t fs) ≡ summarize (combine_summary s t) fs
unfolding summarize accumulate
combine-summarize s t [] = refl
combine-summarize s t (f ∷ fs) =
    combine-summarize s (accumulate_status f.status f.severity t) fs
    ∙ ap (λ u. summarize u fs) (combine-accumulate s t f.status f.severity)

pub summarize-append-from :
    {Json : Type 0} (s : Summary) (xs ys : List (Finding Json))
    → summarize s (xs ++ ys) ≡ summarize (summarize s xs) ys
unfolding summarize
summarize-append-from s [] ys = refl
summarize-append-from s (x ∷ xs) ys = summarize-append-from (accumulate s x) xs ys

worse-ignore : (a : Severity) → worse a ignore ≡ a
worse-ignore ignore = refl
worse-ignore info = refl
worse-ignore warn = refl
worse-ignore fail = refl

add_zero : (n : ℕ) → n + 0 ≡ n
add_zero n = omega arith

combine_empty : (s : Summary) → combine_summary s empty_summary ≡ s
unfolding combine_summary
combine_empty s = λ i. record {
  passes = add_zero s.passes i;
  infos = add_zero s.infos i;
  warns = add_zero s.warns i;
  fails = add_zero s.fails i;
  skips = add_zero s.skips i;
  errors = add_zero s.errors i;
  worst_gating = worse-ignore s.worst_gating i;
}

pub combine-summarize-empty :
    {Json : Type 0} (s : Summary) (fs : List (Finding Json))
    → combine_summary s (summarize empty_summary fs) ≡ summarize s fs
combine-summarize-empty s fs =
    combine-summarize s empty_summary fs ∙ ap (λ t. summarize t fs) (combine_empty s)

-- The summary of two runs together is the combination of their summaries.
pub summarize-append :
    {Json : Type 0} (xs ys : List (Finding Json))
    → summarize empty_summary (xs ++ ys)
      ≡ combine_summary (summarize empty_summary xs) (summarize empty_summary ys)
summarize-append xs ys =
    summarize-append-from empty_summary xs ys
    ∙ ap (λ s. summarize s ys) (sym (combine_empty (summarize empty_summary xs)))
    ∙ sym (combine-summarize (summarize empty_summary xs) empty_summary ys)
