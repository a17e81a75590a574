-- ===== src/Compare/Dist/Names.antt =====
-- The order of names in src/compare/dist.cpp is a strict total order.
use mediadiff.Base.{
  ==_iff, Bool, Bool-cases, Text, [], ap₂, arith, false, inl, inr, refl, subst, sym, text_eq,
  text_eq_iff, true, ℕ, ◌<◌, ◌==◌, ◌↔◌, ◌∙◌, ◌∷◌, ◌≡◌, ◌⊎◌,
}
use mediadiff.Compare.Dist.{text_lt}
use mathlib.Core.Bool.{false≢true}

text_lt-cons :
    (c d : ℕ) (s t : Text)
    → (text_lt (c ∷ s) (d ∷ t) ≡ true) ↔ ((c < d) ⊎ ((c ≡ d) × (text_lt s t ≡ true)))
unfolding text_lt
text_lt-cons c d s t = elim (Bool-cases (c == d)) [
  | inl e ↦ rw e (
    λ h. inr ((==_iff c d).0 e, h),
    λ h. elim h [ inl l ↦ absurd (ground (arith, e, l)) | inr p ↦ p.1 ],
  )
  | inr n ↦ rw n (
    λ h. inl (ground (arith, h)),
    λ h. elim h [
      | inl l ↦ ground (arith, l)
      | inr p ↦ absurd (false≢true (sym n ∙ (==_iff c d).1 p.0))
    ],
  )
]

pub text_lt_irrefl : (s : Text) → text_lt s s ≡ false
unfolding text_lt
text_lt_irrefl [] = refl
text_lt_irrefl (c ∷ s) = rw ((==_iff c c).1 refl) (text_lt_irrefl s)

pub text_lt_trans : (s t u : Text) → text_lt s t ≡ true → text_lt t u ≡ true → text_lt s u ≡ true
unfolding text_lt
text_lt_trans [] [] u h k = absurd (false≢true h)
text_lt_trans [] (d ∷ t) [] h k = absurd (false≢true k)
text_lt_trans [] (d ∷ t) (e ∷ u) h k = refl
text_lt_trans (c ∷ s) [] u h k = absurd (false≢true h)
text_lt_trans (c ∷ s) (d ∷ t) [] h k = absurd (false≢true k)
text_lt_trans (c ∷ s) (d ∷ t) (e ∷ u) h k =
    (text_lt-cons c e s u).1 (elim ((text_lt-cons c d s t).0 h) [
      | inl l ↦ elim ((text_lt-cons d e t u).0 k) [
        | inl m ↦ inl (omega (arith, l, m))
        | inr m ↦ inl (omega (arith, l, m.0))
      ]
      | inr l ↦ elim ((text_lt-cons d e t u).0 k) [
        | inl m ↦ inl (omega (arith, l.0, m))
        | inr m ↦ inr (l.0 ∙ m.0, text_lt_trans s t u l.1 m.1)
      ]
    ])

pub text_lt_tri : (s t : Text) → text_lt s t ≡ false → text_lt t s ≡ false → s ≡ t
unfolding text_lt
text_lt_tri [] [] h k = refl
text_lt_tri [] (d ∷ t) h k = absurd (false≢true (sym h))
text_lt_tri (c ∷ s) [] h k = absurd (false≢true (sym k))
text_lt_tri (c ∷ s) (d ∷ t) h k =
    let l = no_lt (c ∷ s) (d ∷ t) h in
    let m = no_lt (d ∷ t) (c ∷ s) k in
    let same =
      equal (λ p. l ((text_lt-cons c d s t).1 (inl p)))
        (λ p. m ((text_lt-cons d c t s).1 (inl p))) in
    ap₂ (λ x (xs : Text). x ∷ xs) same
      (text_lt_tri s t (is_false (λ p. l ((text_lt-cons c d s t).1 (inr (same, p)))))
        (is_false (λ p. m ((text_lt-cons d c t s).1 (inr (sym same, p))))))
  where
    no_lt : (x y : Text) → text_lt x y ≡ false → ¬ (text_lt x y ≡ true)
    no_lt x y e p = false≢true (sym e ∙ p)

    equal : {a b : ℕ} → ¬ (a < b) → ¬ (b < a) → a ≡ b
    equal p q = ground (arith, p, q)

    is_false : {b : Bool} → ¬ (b ≡ true) → b ≡ false
    is_false {b = b} p = elim (Bool-cases b) [ inl e ↦ absurd (p e) | inr e ↦ e ]

-- A name below another is another name.
pub text_lt-neq : (s t : Text) → text_lt s t ≡ true → (text_eq s t ≡ false) × (text_eq t s ≡ false)
text_lt-neq s t h = (
  elim (Bool-cases (text_eq s t)) [ inl e ↦ absurd (same ((text_eq_iff s t).0 e)) | inr n ↦ n ],
  elim (Bool-cases (text_eq t s)) [
    | inl e ↦ absurd (same (sym ((text_eq_iff t s).0 e)))
    | inr n ↦ n
  ],
)
  where
    same : ¬ (s ≡ t)
    same e = false≢true (sym (text_lt_irrefl s) ∙ subst (λ x. text_lt s x ≡ true) (sym e) h)
