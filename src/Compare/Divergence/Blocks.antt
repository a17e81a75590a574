-- ===== src/Compare/Divergence/Blocks.antt =====
-- What `compute_divergence` of src/compare/hash.cpp reports of two lists of block digests.
use mediadiff.Base.{
  Bool, Bool-cases, List, Option, Text, [], arith, false, get_elem?, inl, inr, is_empty, length,
  lt_or_le, ltb, none, not, pos, refl, subst, suc, sym, text_eq, true, zero, ℕ, ℤ, ◌<◌, ◌||◌, ◌↔◌,
  ◌∙◌, ◌∷◌, ◌≡◌, ◌≢◌, ◌≤◌, ◌⊎◌,
}
use mediadiff.Compare.Divergence.{
  Scan, add_range, add_tail, close_run, compute_divergence, max_size, min_size, no_divergence,
  report_of, scan_block, scan_blocks,
}
use mediadiff.Compare.Divergence.Ranges.{
  Covered, Differs, InRanges, InRanges-append, IsStarted, Later, Later-step, close_run-covers,
  note_first-ranges, scan_block-IsStarted, scan_block-differs, scan_block-same,
}
use mediadiff.Core.Model.{HashChain, Vendor}
use mathlib.Core.Bool.{false≢true}
use mathlib.Core.Option.{none-ne-some}

module _ (V : Vendor) (stride : ℤ) (rate_hz : Option ℤ) where
  ends :
      (n : ℕ) (bs cs : List Text) (s : Scan) (j : ℕ)
      → min_size bs cs ≡ 0
      → InRanges (pos j) (close_run (pos n) s).report.divergent_ranges
        ↔ (Covered n s j ⊎ Later n bs cs j)
  ends n bs cs s j e =
      let c = close_run-covers n s j in
      (
        λ h. inl (c.0 h),
        λ h. elim h [ inl x ↦ c.1 x | inr (k, p, l, d) ↦ absurd (omega (arith, e, l)) ],
      )

  -- One round of the loop, before the rest of it.
  round-ranges :
      (n : ℕ) (b c : Text) (bs cs : List Text) (s : Scan) (j : ℕ) (same : Bool)
      → text_eq b c ≡ same
      → IsStarted n s.run
      → ((after : Scan)
          → IsStarted (suc n) after.run
          → InRanges
              (pos j)
              (scan_blocks V stride rate_hz (suc n) bs cs after).report.divergent_ranges
            ↔ (Covered (suc n) after j ⊎ Later (suc n) bs cs j))
      → InRanges
          (pos j)
          (scan_blocks V stride rate_hz
            (suc n)
            bs
            cs
            (scan_block V stride rate_hz (pos n) (not same) s)).report.divergent_ranges
        ↔ (Covered n s j ⊎ Later n (b ∷ bs) (c ∷ cs) j)
  round-ranges n b c bs cs s j true e h k =
      let here = scan_block V stride rate_hz (pos n) false s in
      let rest = k here (scan_block-IsStarted V stride rate_hz n false s h) in
      let same = scan_block-same V stride rate_hz n s j in
      let step = Later-step n b c bs cs j in
      (
        λ r. elim (rest.0 r) [ inl x ↦ inl (same.0 x) | inr x ↦ inr (step.1 (inr x)) ],
        λ r. rest.1 (elim r [
          | inl x ↦ inl (same.1 x)
          | inr x ↦ elim (step.0 x) [ inl y ↦ absurd (false≢true (sym y.1 ∙ e)) | inr y ↦ inr y ]
        ]),
      )
  round-ranges n b c bs cs s j false e h k =
      let here = scan_block V stride rate_hz (pos n) true s in
      let rest = k here (scan_block-IsStarted V stride rate_hz n true s h) in
      let differs = scan_block-differs V stride rate_hz n s j h in
      let step = Later-step n b c bs cs j in
      (
        λ r. elim (rest.0 r) [
          | inl x ↦ elim (differs.0 x) [ inl y ↦ inl y | inr y ↦ inr (step.1 (inl (y, e))) ]
          | inr x ↦ inr (step.1 (inr x))
        ],
        λ r. rest.1 (elim r [
          | inl x ↦ inl (differs.1 (inl x))
          | inr x ↦ elim (step.0 x) [ inl y ↦ inl (differs.1 (inr y.0)) | inr y ↦ inr y ]
        ]),
      )

  scan_blocks-ranges :
      (n : ℕ) (bs cs : List Text) (s : Scan) (j : ℕ)
      → IsStarted n s.run
      → InRanges (pos j) (scan_blocks V stride rate_hz n bs cs s).report.divergent_ranges
        ↔ (Covered n s j ⊎ Later n bs cs j)
  unfolding scan_blocks min_size
  scan_blocks-ranges n [] cs s j h = ends n [] cs s j refl
  scan_blocks-ranges n (b ∷ bs) [] s j h = ends n (b ∷ bs) [] s j refl
  scan_blocks-ranges n (b ∷ bs) (c ∷ cs) s j h =
      round-ranges n b c bs cs s j (text_eq b c) refl h
        (λ after g. scan_blocks-ranges (suc n) bs cs after j g)

past_end : (xs : List Text) (j : ℕ) → length xs ≤ j → get_elem? xs j ≡ none
past_end [] j h = refl
past_end (x ∷ xs) zero h = absurd (omega (arith, h))
past_end (x ∷ xs) (suc j) h = past_end xs j (omega (arith, h))

inside : (xs : List Text) (j : ℕ) → j < length xs → get_elem? xs j ≢ none
inside [] j h e = absurd (omega (arith, h))
inside (x ∷ xs) zero h e = none-ne-some x (sym e)
inside (x ∷ xs) (suc j) h e = inside xs j (omega (arith, h)) e

-- Behind the common prefix all the blocks of the longer side differ.
tail-Differs :
    (bs cs : List Text) (j : ℕ) → min_size bs cs ≤ j → (j < max_size bs cs) ↔ Differs bs cs j
unfolding min_size max_size
tail-Differs [] cs j h = (
  λ l e. inside cs j l (sym e),
  λ d. elim (lt_or_le j (length cs)) [ inl l ↦ l | inr g ↦ absurd (d (sym (past_end cs j g))) ],
)
tail-Differs (b ∷ bs) [] j h = (
  λ l e. inside (b ∷ bs) j l e,
  λ d. elim (lt_or_le j (length (b ∷ bs))) [
    | inl l ↦ l
    | inr g ↦ absurd (d (past_end (b ∷ bs) j g))
  ],
)
tail-Differs (b ∷ bs) (c ∷ cs) zero h = absurd (omega (arith, h))
tail-Differs (b ∷ bs) (c ∷ cs) (suc j) h =
    let rest = tail-Differs bs cs j (omega (arith, h)) in
    (λ l. rest.0 (omega (arith, l)), λ d. omega (arith, rest.1 d))

min_size-le-max : (bs cs : List Text) → min_size bs cs ≤ max_size bs cs
unfolding min_size max_size
min_size-le-max [] cs = omega arith
min_size-le-max (b ∷ bs) [] = omega arith
min_size-le-max (b ∷ bs) (c ∷ cs) = omega (arith, min_size-le-max bs cs)

report_of-ranges :
    (V : Vendor) (stride : ℤ) (rate_hz : Option ℤ) (bs cs : List Text) (j : ℕ)
    → InRanges (pos j) (report_of V stride rate_hz bs cs).divergent_ranges ↔ Differs bs cs j
unfolding report_of add_tail add_range
report_of-ranges V stride rate_hz bs cs j =
    let start : Scan = record { report = no_divergence; run = none } in
    let scanned = scan_blocks-ranges V stride rate_hz 0 bs cs start j tt in
    let common = min_size bs cs in
    let all = max_size bs cs in
    let report = (scan_blocks V stride rate_hz 0 bs cs start).report in
    let le = min_size-le-max bs cs in
    let early = early_Differs scanned in
    elim (Bool-cases (ltb common all)) [
      | inl l ↦
          let added = InRanges-append (pos j) report.divergent_ranges (pos common) (pos all) in
          rw (l, note_first-ranges V stride rate_hz (pos common) report)
            (
              λ h. elim (added.0 h) [
                | inl r ↦ (early.0 r).1
                | inr r ↦ (tail-Differs bs cs j (omega (arith, r.0))).0 (omega (arith, r.1))
              ],
              λ d. elim (lt_or_le j common) [
                | inl b ↦ added.1 (inl (early.1 (b, d)))
                | inr g ↦
                    added.1 (inr (omega (arith, g), omega (arith, (tail-Differs bs cs j g).1 d)))
              ],
            )
      | inr e ↦ rw e (
        λ h. (early.0 h).1,
        λ d. elim (lt_or_le j common) [
          | inl b ↦ early.1 (b, d)
          | inr g ↦ absurd (ground (arith, e, g, (tail-Differs bs cs j g).1 d))
        ],
      )
    ]
  where
    early_Differs :
        {R : Type 0}
        → (R ↔ ((⊥ ⊎ ⊥) ⊎ Later 0 bs cs j))
        → R ↔ ((j < min_size bs cs) × Differs bs cs j)
    early_Differs h = (
      λ r. elim (h.0 r) [
        | inl x ↦ elim x [ inl y ↦ absurd y | inr y ↦ absurd y ]
        | inr (k, e, l, d) ↦ (omega (arith, e, l), subst (Differs bs cs) (omega (arith, e)) d)
      ],
      λ x. h.1 (inr (j, omega arith, x.0, x.1)),
    )

-- Where both sides have block digests, a block stands in one of the reported ranges exactly when
-- the two sides' digests at its index differ, or one side has no block there.
pub compute_divergence-ranges :
    (V : Vendor) (baseline candidate : HashChain) (rate_hz : Option ℤ)
    → is_empty baseline.block_digests || is_empty candidate.block_digests ≡ false
    → (i : ℕ)
    → InRanges (pos i) (compute_divergence V baseline candidate rate_hz).divergent_ranges
      ↔ Differs baseline.block_digests candidate.block_digests i
unfolding compute_divergence
compute_divergence-ranges V baseline candidate rate_hz e i =
    rw e (report_of-ranges V _ rate_hz baseline.block_digests candidate.block_digests i)
