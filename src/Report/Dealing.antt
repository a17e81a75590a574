-- ===== src/Report/Dealing.antt =====
-- The lists that the loop of src/report/model.cpp deals the findings to.
use mediadiff.Base.{
  List, [], ap, arith, false, inl, inr, subst, suc, sym, true, zero, ℕ, ◌++◌, ◌+◌, ◌<◌, ◌↔◌, ◌∙◌,
  ◌∷◌, ◌≡◌, ◌≢◌, ◌⊎◌,
}
use mediadiff.Core.Model.{Finding}
use mediadiff.Core.Registry.{CheckRegistry}
use mediadiff.Report.{group_for}
use mediadiff.Report.Deal.{
  Dealt, Entry, GroupBlock, count_finding, deal_finding, deal_findings, group_slot, sort_key,
  update_at,
}
use mediadiff.Report.Shown.{entry_findings}
use mathlib.Core.List.{Memᴰ}
use mathlib.Core.List.Memᴰ.{head, tail}

module _ {Json : Type 0} where
  -- A predicate at every slot of the two vectors, which have the same length.
  abbrev pub Slots :
      (ℕ → GroupBlock Json → List (Entry Json) → Type 0)
      → ℕ
      → List (GroupBlock Json)
      → List (List (Entry Json))
      → Type 0
  Slots P n [] lists = Unit
  Slots P n (b ∷ bs) [] = false ≡ true
  Slots P n (b ∷ bs) (es ∷ lists) = P n b es × Slots P (suc n) bs lists

  module _ (P Q : ℕ → GroupBlock Json → List (Entry Json) → Type 0) (t : ℕ)
      (keeps : (n : ℕ) (b : GroupBlock Json) (es : List (Entry Json))
        → n ≢ t
        → P n b es
        → Q n b es) where
    Slots-past :
        (n : ℕ) (bs : List (GroupBlock Json)) (lists : List (List (Entry Json)))
        → t < n
        → Slots P n bs lists
        → Slots Q n bs lists
    Slots-past n [] lists l h = tt
    Slots-past n (b ∷ bs) [] l h = h
    Slots-past n (b ∷ bs) (es ∷ lists) l (p, h) = (
      keeps n b es (λ e. omega (arith, e, l)) p,
      Slots-past (suc n) bs lists (omega (arith, l)) h,
    )

    Slots-update_at :
        (F : GroupBlock Json → GroupBlock Json) (G : List (Entry Json) → List (Entry Json))
        (n slot : ℕ) (bs : List (GroupBlock Json)) (lists : List (List (Entry Json)))
        → ((b : GroupBlock Json) (es : List (Entry Json)) → P t b es → Q t (F b) (G es))
        → n + slot ≡ t
        → Slots P n bs lists
        → Slots Q n (update_at slot F bs) (update_at slot G lists)
    unfolding update_at
    Slots-update_at F G n zero [] lists changes e h = tt
    Slots-update_at F G n (suc slot) [] lists changes e h = tt
    Slots-update_at F G n zero (b ∷ bs) [] changes e h = h
    Slots-update_at F G n (suc slot) (b ∷ bs) [] changes e h = h
    Slots-update_at F G n zero (b ∷ bs) (es ∷ lists) changes e (p, h) =
        let here : t ≡ n = omega (arith, e) in
        (
          subst (λ i. Q i (F b) (G es)) here (changes b es (subst (λ i. P i b es) (sym here) p)),
          Slots-past (suc n) bs lists (omega (arith, e)) h,
        )
    Slots-update_at F G n (suc slot) (b ∷ bs) (es ∷ lists) changes e (p, h) = (
      keeps n b es (λ d. omega (arith, d, e)) p,
      Slots-update_at F G (suc n) slot bs lists changes (omega (arith, e)) h,
    )

  Slots-map :
      (P Q : ℕ → GroupBlock Json → List (Entry Json) → Type 0) (n : ℕ) (bs : List (GroupBlock Json))
      (lists : List (List (Entry Json)))
      → ((n : ℕ) (b : GroupBlock Json) (es : List (Entry Json)) → P n b es → Q n b es)
      → Slots P n bs lists
      → Slots Q n bs lists
  Slots-map P Q n [] lists f h = tt
  Slots-map P Q n (b ∷ bs) [] f h = h
  Slots-map P Q n (b ∷ bs) (es ∷ lists) f (p, h) = (f n b es p, Slots-map P Q (suc n) bs lists f h)

  -- At a slot: the block of that slot's group, which shows nothing yet, and the list of the
  -- findings seen that belong to the group.
  abbrev pub IsSlot : (Finding Json → Type 0) → ℕ → GroupBlock Json → List (Entry Json) → Type 0
  IsSlot Seen n b es =
      (group_slot b.group ≡ n)
      × (b.findings ≡ [])
      × ((x : Finding Json)
          → Memᴰ x (entry_findings es) ↔ (Seen x × (group_slot (group_for x.id) ≡ n)))

  snoc-holds :
      (x : Finding Json) (e : Entry Json) (es : List (Entry Json))
      → Memᴰ x (entry_findings (es ++ e ∷ [])) ↔ (Memᴰ x (entry_findings es) ⊎ (x ≡ e.finding))
  snoc-holds x e [] = (
    λ m. elim m [ head p ↦ inr p | tail n ↦ inl n ],
    λ c. elim c [ inl n ↦ tail n | inr p ↦ head p ],
  )
  snoc-holds x e (o ∷ os) =
      let h = snoc-holds x e os in
      (
        λ m. elim m [
          | head p ↦ inl (head p)
          | tail n ↦ elim (h.0 n) [ inl k ↦ inl (tail k) | inr p ↦ inr p ]
        ],
        λ c. elim c [
          | inl m ↦ elim m [ head p ↦ head p | tail n ↦ tail (h.1 (inl n)) ]
          | inr p ↦ tail (h.1 (inr p))
        ],
      )

  deal_finding-Slots :
      (Seen : Finding Json → Type 0) (registry : CheckRegistry) (i : ℕ) (dealt : Dealt Json)
      (f : Finding Json)
      → Slots (IsSlot Seen) 0 dealt.groups dealt.per_group
      → Slots
          (IsSlot (λ x. Seen x ⊎ (x ≡ f)))
          0
          (deal_finding registry i dealt f).groups
          (deal_finding registry i dealt f).per_group
  unfolding deal_finding
  deal_finding-Slots Seen registry i dealt f h =
      let slot = group_slot (group_for f.id) in
      let entry : Entry Json = record { key = sort_key registry i f; finding = f } in
      Slots-update_at (IsSlot Seen) (IsSlot (λ x. Seen x ⊎ (x ≡ f))) slot
        (λ n b es d (g, nothing, m). (
          g,
          nothing,
          λ x. (
            λ k. (inl ((m x).0 k).0, ((m x).0 k).1),
            λ (c, e). elim c [
              | inl seen ↦ (m x).1 (seen, e)
              | inr p ↦ absurd (d (sym e ∙ ap (λ y. group_slot (group_for y.id)) p))
            ],
          ),
        ))
        (count_finding f) (λ entries. entries ++ entry ∷ []) 0 slot dealt.groups dealt.per_group
        (λ b es (g, nothing, m). (
          g,
          nothing,
          λ x. (
            λ k. elim ((snoc-holds x entry es).0 k) [
              | inl n ↦ (inl ((m x).0 n).0, ((m x).0 n).1)
              | inr p ↦ (inr p, ap (λ y. group_slot (group_for y.id)) p)
            ],
            λ (c, e).
                (snoc-holds x entry es).1
                  (elim c [ inl seen ↦ inl ((m x).1 (seen, e)) | inr p ↦ inr p ]),
          ),
        ))
        (omega arith) h

  pub deal_findings-Slots :
      (fs : List (Finding Json)) (Seen All_seen : Finding Json → Type 0) (registry : CheckRegistry)
      (i : ℕ) (dealt : Dealt Json)
      → ((x : Finding Json) → All_seen x ↔ (Seen x ⊎ Memᴰ x fs))
      → Slots (IsSlot Seen) 0 dealt.groups dealt.per_group
      → Slots
          (IsSlot All_seen)
          0
          (deal_findings registry i dealt fs).groups
          (deal_findings registry i dealt fs).per_group
  unfolding deal_findings
  deal_findings-Slots [] Seen All_seen registry i dealt c h =
      Slots-map (IsSlot Seen) (IsSlot All_seen) 0 dealt.groups dealt.per_group
        (λ n b es (g, nothing, m). (
          g,
          nothing,
          λ x. (
            λ k. ((c x).1 (inl ((m x).0 k).0), ((m x).0 k).1),
            λ (s, e). elim ((c x).0 s) [ inl y ↦ (m x).1 (y, e) | inr k ↦ elim k [ ] ],
          ),
        ))
        h
  deal_findings-Slots (f ∷ fs) Seen All_seen registry i dealt c h =
      deal_findings-Slots fs (λ x. Seen x ⊎ (x ≡ f)) All_seen registry (suc i)
        (deal_finding registry i dealt f)
        (λ x. (
          λ s. elim ((c x).0 s) [
            | inl y ↦ inl (inl y)
            | inr m ↦ elim m [ head p ↦ inl (inr p) | tail n ↦ inr n ]
          ],
          λ d. (c x).1 (elim d [
            | inl y ↦ elim y [ inl z ↦ inl z | inr p ↦ inr (head p) ]
            | inr n ↦ inr (tail n)
          ]),
        ))
        (deal_finding-Slots Seen registry i dealt f h)
