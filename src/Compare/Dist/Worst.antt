-- ===== src/Compare/Dist/Worst.antt =====
-- The loop of src/compare/dist.cpp over the combined bins finds a bin with the largest difference.
use mediadiff.Base.{
  All, Bool-cases, Option, Text, [], abs_ℤ, ap, ap₂, arith, false, inl, inr, is_empty, is_some,
  lt_or_le, ltb_ℤ, none, pos, refl, some, subst, suc, sym, true, ℕ, ℤ, ◌*ℤ◌, ◌*◌, ◌+◌, ◌-ℤ◌, ◌<◌,
  ◌↔◌, ◌∙◌, ◌∷◌, ◌≡◌, ◌≤◌, ◌⊎◌,
}
use mediadiff.Compare.Dist.{
  Combined, WorstBin, abs_difference, worse_bin, worst_denom, worst_loop, worst_num, worst_step,
}
use mediadiff.Compare.Verdict.{Ranged, in_range, out_of_range, range_then, ranged_then}
use mediadiff.Core.CheckedArith.{checked_mul, checked_negate, checked_sub}
use mediadiff.Core.CheckedArith.Exact.{checked_mul-some, checked_sub-some, mul-pos}
use mathlib.Core.Bool.{false≢true}
use mathlib.Core.List.{Memᴰ}
use mathlib.Core.List.Memᴰ.{head, tail}
use mathlib.Core.Path.{subst₂}
use native.Mathlib.Nat.{mul-le-mul_right}

-- What a computation in int64_t that stayed in range went through.
pub range_then-in_range :
    {A B : Type 0} (what : Text) (o : Option A) (f : A → Ranged B) (r : B)
    → range_then what o f ≡ in_range r
    → (a : A) × (o ≡ some a) × (f a ≡ in_range r)
range_then-in_range what (some a) f r e = (a, refl, e)
range_then-in_range what none f r e = cc

pub ranged_then-in_range :
    {A B : Type 0} (o : Ranged A) (f : A → Ranged B) (r : B)
    → ranged_then o f ≡ in_range r
    → (a : A) × (o ≡ in_range a) × (f a ≡ in_range r)
ranged_then-in_range (in_range a) f r e = (a, refl, e)
ranged_then-in_range (out_of_range what) f r e = cc

pub in_range-injective : {A : Type 0} (a b : A) → in_range a ≡ in_range b → a ≡ b
in_range-injective a b e = cc

abs_difference-exact : (d r : ℤ) → abs_difference d ≡ some r → r ≡ pos (abs_ℤ d)
unfolding abs_difference checked_negate ◌-ℤ◌
abs_difference-exact d r e = ground (arith, e)

le_of_products : (m n d : ℕ) → 0 < d → n * d ≤ m * d → n ≤ m
le_of_products m n d p h = elim (lt_or_le m n) [
  | inl l ↦ absurd (omega (arith, h, p, mul-le-mul_right d l, suc_mul))
  | inr g ↦ g
]
  where
    suc_mul : suc m * d ≡ m * d + d
    suc_mul = omega arith

module _ (A B : ℕ) (positive : 0 < A * B) where
  -- The difference of the two proportions of a bin, over A * B.
  abbrev pub gap : ℤ × ℤ → ℕ
  gap (a, b) = abs_ℤ ((a *ℤ pos B) -ℤ (b *ℤ pos A))

  -- The worst bin so far.
  abbrev pub IsWorst : Option WorstBin → Type 0
  IsWorst none = Unit
  IsWorst (some w) = (w.num ≡ pos (abs_ℤ w.num)) × (w.denom ≡ pos (A * B))

  abbrev pub size_of : Option WorstBin → ℕ
  size_of w = abs_ℤ (worst_num w)

  -- What a round with a difference makes of the worst bin.
  abbrev pub Rounds : Option WorstBin → ℕ → WorstBin → Type 0
  Rounds worst n w =
      IsWorst (some w)
      × (n ≤ size_of (some w))
      × (size_of worst ≤ size_of (some w))
      × ((size_of (some w) ≡ n) ⊎ ((is_some worst ≡ true) × (size_of (some w) ≡ size_of worst)))

  abbrev bin_of : Text → ℕ → WorstBin
  bin_of name n = record { name = name; num = pos n; denom = pos (A * B) }

  worse_bin-Rounds :
      (worst : Option WorstBin) (name : Text) (n : ℕ) (lhs rhs : ℤ)
      → IsWorst worst
      → lhs ≡ pos n *ℤ worst_denom worst
      → rhs ≡ worst_num worst *ℤ pos (A * B)
      → Rounds worst n (worse_bin worst (bin_of name n) lhs rhs)
  worse_bin-Rounds none name n lhs rhs h el er =
      ((ap pos (omega arith), refl), omega arith, omega arith, inl (omega arith))
  worse_bin-Rounds (some w) name n lhs rhs h el er =
      let l = el ∙ ap (λ d. pos n *ℤ d) h.1 ∙ mul-pos n (A * B) in
      let r = er ∙ ap (λ m. m *ℤ pos (A * B)) h.0 ∙ mul-pos (abs_ℤ w.num) (A * B) in
      elim (Bool-cases (ltb_ℤ rhs lhs)) [
        | inl t ↦ rw t (
          (ap pos (omega arith), refl),
          omega arith,
          omega (
            arith,
            le_of_products n (abs_ℤ w.num) (A * B) positive
                (ground (arith, subst₂ (λ x y. ltb_ℤ x y ≡ true) r l t)),
          ),
          inl (omega arith),
        )
        | inr f ↦ rw f (
          h,
          le_of_products (abs_ℤ w.num) n (A * B) positive
              (ground (arith, subst₂ (λ x y. ltb_ℤ x y ≡ false) r l f)),
          omega arith,
          inr (refl, refl),
        )
      ]

  pub worst_step-Rounds :
      (worst : Option WorstBin) (name : Text) (counts : ℤ × ℤ) (w : WorstBin)
      → IsWorst worst
      → worst_step (pos A) (pos B) worst name counts ≡ in_range w
      → Rounds worst (gap counts) w
  unfolding worst_step
  worst_step-Rounds worst name (a, b) w h e =
      let s1 = range_then-in_range _ (checked_mul a (pos B)) _ w e in
      let s2 = range_then-in_range _ (checked_mul b (pos A)) _ w s1.2 in
      let s3 = range_then-in_range _ (checked_sub s1.0 s2.0) _ w s2.2 in
      let s4 = range_then-in_range _ (abs_difference s3.0) _ w s3.2 in
      let s5 = range_then-in_range _ (checked_mul (pos A) (pos B)) _ w s4.2 in
      let s6 = range_then-in_range _ (checked_mul s4.0 (worst_denom worst)) _ w s5.2 in
      let s7 = range_then-in_range _ (checked_mul (worst_num worst) s5.0) _ w s6.2 in
      let diff =
        checked_sub-some s1.0 s2.0 s3.0 s3.1
        ∙ ap₂ (λ x y. x -ℤ y) (checked_mul-some a (pos B) s1.0 s1.1)
            (checked_mul-some b (pos A) s2.0 s2.1) in
      let num : s4.0 ≡ pos (gap (a, b)) =
        abs_difference-exact s3.0 s4.0 s4.1 ∙ ap (λ d. pos (abs_ℤ d)) diff in
      let denom : s5.0 ≡ pos (A * B) = checked_mul-some (pos A) (pos B) s5.0 s5.1 ∙ mul-pos A B in
      subst (Rounds worst (gap (a, b)))
        (ap₂ (λ x y. worse_bin worst (record { name = name; num = x; denom = y }) s6.0 s7.0)
            (sym num) (sym denom)
          ∙ in_range-injective _ w s7.2)
        (worse_bin-Rounds worst name (gap (a, b)) s6.0 s7.0 h
          (checked_mul-some s4.0 (worst_denom worst) s6.0 s6.1
            ∙ ap (λ x. x *ℤ worst_denom worst) num)
          (checked_mul-some (worst_num worst) s5.0 s7.0 s7.1
            ∙ ap (λ x. worst_num worst *ℤ x) denom))

  -- What the loop finds: no bin has a larger difference, and one has that of the worst bin.
  abbrev pub FindsWorst : Option WorstBin → Combined → Option WorstBin → Type 0
  FindsWorst worst c result =
      IsWorst result
      × All (λ e. gap e.1 ≤ size_of result) c
      × (size_of worst ≤ size_of result)
      × ((is_some result ≡ true) ↔ ((is_some worst ≡ true) ⊎ (is_empty c ≡ false)))
      × ((size_of result ≡ size_of worst)
          ⊎ ((e : Text × (ℤ × ℤ)) × Memᴰ e c × (size_of result ≡ gap e.1)))

  pub worst_loop-FindsWorst :
      (worst : Option WorstBin) (c : Combined) (result : Option WorstBin)
      → IsWorst worst
      → worst_loop (pos A) (pos B) worst c ≡ in_range result
      → FindsWorst worst c result
  unfolding worst_loop
  worst_loop-FindsWorst worst [] result h e =
      subst (FindsWorst worst []) (in_range-injective worst result e) (
        h,
        tt,
        omega arith,
        (λ s. inl s, λ s. elim s [ inl x ↦ x | inr n ↦ absurd (false≢true (sym n)) ]),
        inl refl,
      )
  worst_loop-FindsWorst worst ((name, counts) ∷ c) result h e =
      let s = ranged_then-in_range (worst_step (pos A) (pos B) worst name counts) _ result e in
      let r = worst_step-Rounds worst name counts s.0 h s.1 in
      let later = worst_loop-FindsWorst (some s.0) c result r.0 s.2 in
      (
        later.0,
        (omega (arith, r.1, later.2), later.1),
        omega (arith, r.2, later.2),
        (λ x. inr refl, λ x. later.3.1 (inl refl)),
        elim later.4 [
          | inl same ↦ elim r.3 [
            | inl here ↦ inr ((name, counts), head refl, same ∙ here)
            | inr old ↦ inl (same ∙ old.1)
          ]
          | inr (f, m, q) ↦ inr (f, tail m, q)
        ],
      )
