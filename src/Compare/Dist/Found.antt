-- ===== src/Compare/Dist/Found.antt =====
-- What the worst bin of src/compare/dist.cpp is worst of: the names of the two sides.
use mediadiff.Base.{
  All, Bool-cases, List, Option, Text, [], abs_ℤ, and_then-some, ap, arith, inl, inr, ltb_ℤ, negsuc,
  none, pos, refl, some, subst, sym, text_eq, ℕ, ℤ, ◌*ℤ◌, ◌*◌, ◌+ℤ◌, ◌-ℤ◌, ◌<◌, ◌∙◌, ◌∷◌, ◌≡◌, ◌≤ℤ◌,
  ◌≤◌,
}
use mediadiff.Compare.Dist.{
  Combined, WorstBin, add_bins, add_first, add_second, positive_or_one, sum_bins, worst_loop,
  worst_of,
}
use mediadiff.Compare.Dist.Bins.{
  +ℤ_assoc, +ℤ_zero, IsSorted, combined-slots, count_of, slot_of, zero_+ℤ,
}
use mediadiff.Compare.Dist.Worst.{FindsWorst, gap, range_then-in_range, worst_loop-FindsWorst}
use mediadiff.Compare.Verdict.{in_range}
use mediadiff.Core.CheckedArith.{checked_add}
use mediadiff.Core.CheckedArith.Exact.{checked_add-some, mul-pos}
use mediadiff.Core.Tolerance.{Tolerance}
use mathlib.Core.Path.{subst₂}
use mathlib.Core.Option.{some-injective}
use native.Mathlib.Nat.{mul-le-mul_right}

-- The sum of all the counts, and the total that the proportions are over.

unfoldable pub bin_total : List (Text × ℤ) → ℤ
unfolding ◌+ℤ◌
bin_total [] = pos 0
bin_total ((name, amount) ∷ rest) = amount +ℤ bin_total rest

abbrev pub whole : List (Text × ℤ) → ℤ
whole bins = positive_or_one (bin_total bins)

-- The two proportions of a name differ by at most the tolerance in percent, multiplied out.
abbrev pub IsNear : Tolerance → ℤ → ℤ → ℤ × ℤ → Type 0
IsNear t a_whole b_whole (a, b) =
    ((pos (abs_ℤ ((a *ℤ b_whole) -ℤ (b *ℤ a_whole))) *ℤ t.den) *ℤ pos 100)
    ≤ℤ (t.num *ℤ (a_whole *ℤ b_whole))

abbrev pub IsNearAt : Tolerance → List (Text × ℤ) → List (Text × ℤ) → Text → Type 0
IsNearAt t bs cs name = IsNear t (whole bs) (whole cs) (count_of name bs, count_of name cs)

sum_bins-total :
    (sum : ℤ) (bins : List (Text × ℤ)) (r : ℤ)
    → sum_bins sum bins ≡ some r
    → r ≡ sum +ℤ bin_total bins
unfolding sum_bins bin_total
sum_bins-total sum [] r e = sym (some-injective _ _ e) ∙ sym (+ℤ_zero sum)
sum_bins-total sum ((name, amount) ∷ rest) r e =
    let s = and_then-some (checked_add sum amount) (λ t. sum_bins t rest) r e in
    sum_bins-total s.0 rest r s.2
    ∙ ap (λ x. x +ℤ bin_total rest) (checked_add-some sum amount s.0 s.1)
    ∙ +ℤ_assoc sum amount (bin_total rest)

positive_or_one-pos : (x : ℤ) → (n : ℕ) × (positive_or_one x ≡ pos n) × (0 < n)
positive_or_one-pos (pos n) = elim (Bool-cases (ltb_ℤ (pos 0) (pos n))) [
  | inl e ↦ rw e (n, refl, ground (arith, e))
  | inr e ↦ rw e (1, refl, omega arith)
]
positive_or_one-pos (negsuc n) = (1, ground arith, omega arith)

pub pos_of : (x : ℤ) → pos 0 ≤ℤ x → (n : ℕ) × (x ≡ pos n)
pos_of (pos n) h = (n, refl)
pos_of (negsuc n) h = absurd (omega (arith, h))

-- What the computation of the worst bin finds, over the two totals.
pub record Found (bs cs : List (Text × ℤ)) (worst : Option WorstBin) : Type 0 where
  pub a : ℕ
  pub b : ℕ
  pub whole_a : whole bs ≡ pos a
  pub whole_b : whole cs ≡ pos b
  pub positive : 0 < a * b
  pub bins : Combined
  pub sorted : IsSorted bins
  pub slots : (m : Text) → slot_of m bins ≡ (count_of m bs, count_of m cs)
  pub finds : FindsWorst a b positive none bins worst

pub worst_of-Found :
    (bs cs : List (Text × ℤ)) (worst : Option WorstBin)
    → worst_of bs cs ≡ in_range worst
    → Found bs cs worst
unfolding worst_of
worst_of-Found bs cs worst e =
    let s1 = range_then-in_range _ (sum_bins (pos 0) bs) _ worst e in
    let s2 = range_then-in_range _ (sum_bins (pos 0) cs) _ worst s1.2 in
    let s3 = range_then-in_range _ (add_bins add_first bs []) _ worst s2.2 in
    let s4 = range_then-in_range _ (add_bins add_second cs s3.0) _ worst s3.2 in
    let a = positive_or_one-pos s1.0 in
    let b = positive_or_one-pos s2.0 in
    let slots = combined-slots bs cs s3.0 s4.0 s3.1 s4.1 in
    let positive = product_positive a.2 b.2 in
    record {
      a = a.0;
      b = b.0;
      whole_a = ap positive_or_one (sym (total_is bs s1.0 s1.1)) ∙ a.1;
      whole_b = ap positive_or_one (sym (total_is cs s2.0 s2.1)) ∙ b.1;
      positive = positive;
      bins = s4.0;
      sorted = slots.0;
      slots = slots.1;
      finds =
          worst_loop-FindsWorst a.0 b.0 positive none s4.0 worst tt
            (subst₂ (λ x y. worst_loop x y none s4.0 ≡ in_range worst) a.1 b.1 s4.2);
    }
  where
    product_positive : {m n : ℕ} → 0 < m → 0 < n → 0 < m * n
    product_positive {n = n} h k = omega (arith, k, mul-le-mul_right n h)

    total_is :
        (bins : List (Text × ℤ)) (r : ℤ) → sum_bins (pos 0) bins ≡ some r → r ≡ bin_total bins
    total_is bins r h = sum_bins-total (pos 0) bins r h ∙ zero_+ℤ (bin_total bins)

no_gap : (x y : ℤ) → abs_ℤ ((pos 0 *ℤ x) -ℤ (pos 0 *ℤ y)) ≡ 0
unfolding ◌*ℤ◌ ◌-ℤ◌
no_gap x y = ground arith

pub gap-slot_of :
    (a b : ℕ) (positive : 0 < a * b) (most : ℕ) (name : Text) (c : Combined)
    → All (λ e. gap a b positive e.1 ≤ most) c
    → gap a b positive (slot_of name c) ≤ most
unfolding slot_of
gap-slot_of a b positive most name [] h = omega (arith, no_gap (pos b) (pos a))
gap-slot_of a b positive most name ((other, slot) ∷ rest) h =
    elim (Bool-cases (text_eq other name)) [
      | inl e ↦ rw e h.0
      | inr n ↦ rw n (gap-slot_of a b positive most name rest h.1)
    ]

-- A smaller difference is within the same tolerance.
pub near_mono :
    (g h : ℕ) (den r : ℤ)
    → pos 0 ≤ℤ den
    → g ≤ h
    → ((pos h *ℤ den) *ℤ pos 100) ≤ℤ r
    → ((pos g *ℤ den) *ℤ pos 100) ≤ℤ r
near_mono g h den r p l k =
    let d = pos_of den p in
    subst (λ x. x ≤ℤ r) (sym (product g d.0 den d.1))
      (omega (arith, mul-le-mul_right d.0 l, subst (λ x. x ≤ℤ r) (product h d.0 den d.1) k))
  where
    product : (n d : ℕ) (den : ℤ) → den ≡ pos d → (pos n *ℤ den) *ℤ pos 100 ≡ pos ((n * d) * 100)
    product n d den e =
        ap (λ x. (pos n *ℤ x) *ℤ pos 100) e
        ∙ ap (λ x. x *ℤ pos 100) (mul-pos n d)
        ∙ mul-pos (n * d) 100
