-- ===== src/Report/Shown.antt =====
-- What sorting and hiding leave of a list of findings, src/report/model.cpp.
use mediadiff.Base.{
  Bool-cases, List, [], false, inl, inr, past_back, past_front, subst, sym, ◌↔◌, ◌∙◌, ◌∷◌, ◌≡◌,
}
use mediadiff.Core.Model.{Finding}
use mediadiff.Report.{RenderOptions, before, is_hidden}
use mediadiff.Report.Build.{insert_entry, shown, sort_entries}
use mediadiff.Report.Deal.{Entry}
use mathlib.Core.Bool.{false≢true}
use mathlib.Core.List.{Memᴰ}
use mathlib.Core.List.Memᴰ.{head, tail}

module _ {A : Type 0} where
  -- Membership behind one more element that is kept exactly when the test holds.
  kept :
      (P : A → Type 0) (x y : A) (ys zs : List A)
      → P y
      → (Memᴰ x zs ↔ (Memᴰ x ys × P x))
      → Memᴰ x (y ∷ zs) ↔ (Memᴰ x (y ∷ ys) × P x)
  kept P x y ys zs py h = (
    λ m. elim m [ head p ↦ (head p, subst P (sym p) py) | tail n ↦ (tail (h.0 n).0, (h.0 n).1) ],
    λ (m, px). elim m [ head p ↦ head p | tail n ↦ tail (h.1 (n, px)) ],
  )

  dropped :
      (P : A → Type 0) (x y : A) (ys zs : List A)
      → ¬ P y
      → (Memᴰ x zs ↔ (Memᴰ x ys × P x))
      → Memᴰ x zs ↔ (Memᴰ x (y ∷ ys) × P x)
  dropped P x y ys zs npy h = (
    λ m. (tail (h.0 m).0, (h.0 m).1),
    λ (m, px). elim m [ head p ↦ absurd (npy (subst P p px)) | tail n ↦ h.1 (n, px) ],
  )

module _ {Json : Type 0} where
  abbrev pub entry_findings : List (Entry Json) → List (Finding Json)
  entry_findings [] = []
  entry_findings (entry ∷ entries) = entry.finding ∷ entry_findings entries

  insert_entry-holds :
      (e : Entry Json) (x : Finding Json) (es : List (Entry Json))
      → Memᴰ x (entry_findings (insert_entry e es)) ↔ Memᴰ x (e.finding ∷ entry_findings es)
  unfolding insert_entry
  insert_entry-holds e x [] = (λ m. m, λ m. m)
  insert_entry-holds e x (o ∷ os) = elim (Bool-cases (before o.key e.key)) [
    | inl b ↦ rw b (
      past_front x e.finding o.finding (entry_findings (insert_entry e os)) (entry_findings os)
          (insert_entry-holds e x os).0,
      past_back x e.finding o.finding (entry_findings (insert_entry e os)) (entry_findings os)
          (insert_entry-holds e x os).1,
    )
    | inr nb ↦ rw nb (λ m. m, λ m. m)
  ]

  pub sort_entries-holds :
      (x : Finding Json) (es : List (Entry Json))
      → Memᴰ x (entry_findings (sort_entries es)) ↔ Memᴰ x (entry_findings es)
  unfolding sort_entries
  sort_entries-holds x [] = (λ m. m, λ m. m)
  sort_entries-holds x (e ∷ es) =
      let i = insert_entry-holds e x (sort_entries es) in
      (
        λ m. elim (i.0 m) [ head p ↦ head p | tail n ↦ tail ((sort_entries-holds x es).0 n) ],
        λ m. elim m [ head p ↦ i.1 (head p) | tail n ↦ i.1 (tail ((sort_entries-holds x es).1 n)) ],
      )

  pub shown-holds :
      (options : RenderOptions) (x : Finding Json) (es : List (Entry Json))
      → Memᴰ x (shown options es) ↔ (Memᴰ x (entry_findings es) × (is_hidden x options ≡ false))
  unfolding shown
  shown-holds options x [] = (λ m. elim m [ ], λ h. h.0)
  shown-holds options x (e ∷ es) =
      let P : Finding Json → Type 0 = λ f. is_hidden f options ≡ false in
      elim (Bool-cases (is_hidden e.finding options)) [
        | inl b ↦ rw b (
            dropped P x e.finding (entry_findings es) (shown options es)
              (λ n. false≢true (sym n ∙ b)) (shown-holds options x es))
        | inr nb ↦ rw nb (
            kept P x e.finding (entry_findings es) (shown options es) nb (shown-holds options x es))
      ]
