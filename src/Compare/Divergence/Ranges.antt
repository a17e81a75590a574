-- ===== src/Compare/Divergence/Ranges.antt =====
-- The ranges of `compute_divergence`, src/compare/hash.cpp, are those of the differing blocks.
use mediadiff.Base.{
  ==_iff, Bool, Bool-cases, List, Option, Text, [], ap, arith, false, get_elem?, inl, inr, ltb_ℤ,
  none, pos, refl, some, suc, sym, text_eq, text_eq_iff, true, zero, ℕ, ℤ, ◌++◌, ◌+◌, ◌<ℤ◌, ◌<◌,
  ◌==◌, ◌↔◌, ◌∙◌, ◌∷◌, ◌≡◌, ◌≢◌, ◌≤ℤ◌, ◌⊎◌,
}
use mediadiff.Compare.Divergence.{
  DivergenceReport, Scan, add_range, close_run, min_size, note_first, open_run, scan_block,
}
use mediadiff.Core.Model.{Vendor}
use mathlib.Core.Option.{some-injective}
use mathlib.Core.Bool.{false≢true}

-- The block stands in one of the ranges, which have no end.
abbrev pub InRanges : ℤ → List (ℤ × ℤ) → Type 0
InRanges i [] = ⊥
InRanges i ((start, stop) ∷ ranges) = ((start ≤ℤ i) × (i <ℤ stop)) ⊎ InRanges i ranges

-- The two sides have different blocks at the index, or one of them has none.
abbrev pub Differs : List Text → List Text → ℕ → Type 0
Differs bs cs i = get_elem? bs i ≢ get_elem? cs i

pub InRanges-append :
    (i : ℤ) (xs : List (ℤ × ℤ)) (start stop : ℤ)
    → InRanges i (xs ++ (start, stop) ∷ []) ↔ (InRanges i xs ⊎ ((start ≤ℤ i) × (i <ℤ stop)))
InRanges-append i [] start stop = (
  λ h. elim h [ inl r ↦ inr r | inr n ↦ absurd n ],
  λ h. elim h [ inl n ↦ absurd n | inr r ↦ inl r ],
)
InRanges-append i ((a, b) ∷ xs) start stop =
    let rest = InRanges-append i xs start stop in
    (
      λ h. elim h [
        | inl r ↦ inl (inl r)
        | inr t ↦ elim (rest.0 t) [ inl u ↦ inl (inr u) | inr u ↦ inr u ]
      ],
      λ h. elim h [
        | inl t ↦ elim t [ inl r ↦ inl r | inr u ↦ inr (rest.1 (inl u)) ]
        | inr u ↦ inr (rest.1 (inr u))
      ],
    )

-- The open run, up to the blocks that the loop has seen.
abbrev pub InRun : ℕ → Option ℤ → ℕ → Type 0
InRun n none j = ⊥
InRun n (some start) j = (start ≤ℤ pos j) × (j < n)

abbrev pub Covered : ℕ → Scan → ℕ → Type 0
Covered n s j = InRanges (pos j) s.report.divergent_ranges ⊎ InRun n s.run j

abbrev pub IsStarted : ℕ → Option ℤ → Type 0
IsStarted n none = Unit
IsStarted n (some start) = start ≤ℤ pos n

pub close_run-covers :
    (n : ℕ) (s : Scan) (j : ℕ)
    → InRanges (pos j) (close_run (pos n) s).report.divergent_ranges ↔ Covered n s j
unfolding close_run add_range
close_run-covers n s j = by_run s.report s.run
  where
    by_run :
        (report : DivergenceReport) (run : Option ℤ)
        → InRanges
            (pos j)
            (close_run (pos n) (record { report = report; run = run })).report.divergent_ranges
          ↔ Covered n (record { report = report; run = run }) j
    by_run report none = (λ h. inl h, λ h. elim h [ inl r ↦ r | inr x ↦ absurd x ])
    by_run report (some start) =
        let e = InRanges-append (pos j) report.divergent_ranges start (pos n) in
        (
          λ h. elim (e.0 h) [ inl r ↦ inl r | inr r ↦ inr (r.0, omega (arith, r.1)) ],
          λ h. elim h [ inl r ↦ e.1 (inl r) | inr r ↦ e.1 (inr (r.0, omega (arith, r.1))) ],
        )

module _ (V : Vendor) (stride : ℤ) (rate_hz : Option ℤ) where
  pub note_first-ranges :
      (i : ℤ) (report : DivergenceReport)
      → (note_first V stride rate_hz i report).divergent_ranges ≡ report.divergent_ranges
  unfolding note_first
  note_first-ranges i report = elim (Bool-cases (ltb_ℤ report.first_divergent_block (pos 0))) [
    | inl e ↦ rw e refl
    | inr e ↦ rw e refl
  ]

  open_run-covers :
      (n : ℕ) (run : Option ℤ) (j : ℕ)
      → IsStarted n run
      → InRun (suc n) (open_run (pos n) run) j ↔ (InRun n run j ⊎ (j ≡ n))
  open_run-covers n none j h =
      (λ r. inr (omega (arith, r)), λ r. elim r [ inl x ↦ absurd x | inr e ↦ omega (arith, e) ])
  open_run-covers n (some start) j h = (
    λ r. elim (Bool-cases (j == n)) [
      | inl e ↦ inr ((==_iff j n).0 e)
      | inr e ↦ inl (r.0, below e r.1)
    ],
    λ r. elim r [ inl x ↦ (x.0, omega (arith, x.1)) | inr e ↦ here e ],
  )
    where
      below : (j == n) ≡ false → j < suc n → j < n
      below e l = ground (arith, e, l)

      here : j ≡ n → (start ≤ℤ pos j) × (j < suc n)
      here e = (ground (arith, h, e), omega (arith, e))

  pub scan_block-same :
      (n : ℕ) (s : Scan) (j : ℕ)
      → Covered (suc n) (scan_block V stride rate_hz (pos n) false s) j ↔ Covered n s j
  unfolding scan_block
  scan_block-same n s j =
      let e = close_run-covers n s j in
      (λ h. elim h [ inl r ↦ e.0 r | inr r ↦ absurd (closed s.report s.run r) ], λ h. inl (e.1 h))
    where
      closed :
          (report : DivergenceReport) (run : Option ℤ)
          → InRun (suc n) (close_run (pos n) (record { report = report; run = run })).run j
          → ⊥
      closed report none r = r
      closed report (some start) r = r

  pub scan_block-differs :
      (n : ℕ) (s : Scan) (j : ℕ)
      → IsStarted n s.run
      → Covered (suc n) (scan_block V stride rate_hz (pos n) true s) j ↔ (Covered n s j ⊎ (j ≡ n))
  unfolding scan_block
  scan_block-differs n s j h =
      let e = open_run-covers n s.run j h in
      rw (note_first-ranges (pos n) s.report) (
        λ c. elim c [
          | inl r ↦ inl (inl r)
          | inr r ↦ elim (e.0 r) [ inl x ↦ inl (inr x) | inr x ↦ inr x ]
        ],
        λ c. elim c [
          | inl r ↦ elim r [ inl x ↦ inl x | inr x ↦ inr (e.1 (inl x)) ]
          | inr x ↦ inr (e.1 (inr x))
        ],
      )

  pub scan_block-IsStarted :
      (n : ℕ) (differs : Bool) (s : Scan)
      → IsStarted n s.run
      → IsStarted (suc n) (scan_block V stride rate_hz (pos n) differs s).run
  unfolding scan_block close_run
  scan_block-IsStarted n differs s h = by_case differs s.report s.run h
    where
      by_case :
          (differs : Bool) (report : DivergenceReport) (run : Option ℤ)
          → IsStarted n run
          → IsStarted
              (suc n)
              (scan_block V stride rate_hz
                (pos n)
                differs
                (record { report = report; run = run })).run
      by_case true report none h = omega arith
      by_case true report (some start) h = ground (arith, h)
      by_case false report none h = tt
      by_case false report (some start) h = tt

-- A block of the common prefix, from the one that the loop is at on, that differs.
abbrev pub Later : ℕ → List Text → List Text → ℕ → Type 0
Later n bs cs j = (k : ℕ) × (j ≡ n + k) × (k < min_size bs cs) × Differs bs cs k

pub Later-step :
    (n : ℕ) (b c : Text) (bs cs : List Text) (j : ℕ)
    → Later n (b ∷ bs) (c ∷ cs) j ↔ (((j ≡ n) × (text_eq b c ≡ false)) ⊎ Later (suc n) bs cs j)
unfolding min_size
Later-step n b c bs cs j = (to, from)
  where
    to : Later n (b ∷ bs) (c ∷ cs) j → ((j ≡ n) × (text_eq b c ≡ false)) ⊎ Later (suc n) bs cs j
    to (zero, e, l, d) = inl (
      omega (arith, e),
      elim (Bool-cases (text_eq b c)) [
        | inl t ↦ absurd (d (ap some ((text_eq_iff b c).0 t)))
        | inr f ↦ f
      ],
    )
    to (suc k, e, l, d) = inr (k, omega (arith, e), omega (arith, l), d)

    from : ((j ≡ n) × (text_eq b c ≡ false)) ⊎ Later (suc n) bs cs j → Later n (b ∷ bs) (c ∷ cs) j
    from (inl (e, f)) = (
      0,
      omega (arith, e),
      omega arith,
      λ p. false≢true (sym f ∙ (text_eq_iff b c).1 (some-injective b c p)),
    )
    from (inr (k, e, l, d)) = (suc k, omega (arith, e), omega (arith, l), d)
