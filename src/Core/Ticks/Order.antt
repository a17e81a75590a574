-- ===== src/Core/Ticks/Order.antt =====
-- What the tick comparisons of src/core/rational.h decide.
use mediadiff.Base.{
  Option, Option-cases, arith, false, inl, inr, negsuc, none, pos, refl, some, ℤ, ◌*ℤ◌, ◌<ℤ◌, ◌≡◌,
  ◌⊎◌,
}
use mediadiff.Core.CheckedArith.{checked_mul}
use mediadiff.Core.CheckedArith.Exact.{checked_mul-some}
use mediadiff.Core.Ticks.{
  Ticks, checked_mul3, checked_order, compare_signs, compare_ticks, compare_ticks_checked, order_of,
  order_or,
}

-- The cross-multiplied value of one side.
abbrev pub cross : Ticks → Ticks → ℤ
cross a b = a.value *ℤ a.tb.num *ℤ b.tb.den

checked_mul3-some : (a b c r : ℤ) → checked_mul3 a b c ≡ some r → r ≡ a *ℤ b *ℤ c
unfolding checked_mul3
checked_mul3-some a b c r h = elim (Option-cases (checked_mul a b)) [
  | inl e ↦ let h' : none ≡ some r = rw (e, checked_mul3) at h in cc
  | inr (p, e) ↦
      let h' : checked_mul p c ≡ some r = rw (e, checked_mul3) at h in
      rw (← checked_mul-some a b p e) (checked_mul-some p c r h')
]

-- How `order` relates the two sides.
abbrev pub IsTickOrder : ℤ → ℤ → ℤ → Type 0
IsTickOrder o l r = (o ≡ negsuc 0) × (l <ℤ r) ⊎ (o ≡ pos 0) × (l ≡ r) ⊎ (o ≡ pos 1) × (r <ℤ l)

order_of-IsTickOrder : (l r : ℤ) → IsTickOrder (order_of l r) l r
order_of-IsTickOrder l r = ground arith

checked_order-IsTickOrder :
    (lhs rhs : Option ℤ) (l r : ℤ)
    → ((v : ℤ) → lhs ≡ some v → v ≡ l)
    → ((v : ℤ) → rhs ≡ some v → v ≡ r)
    → (checked_order lhs rhs).overflowed ≡ false
    → IsTickOrder (checked_order lhs rhs).order l r
unfolding checked_order
checked_order-IsTickOrder none rhs l r hl hr h = cc
checked_order-IsTickOrder (some l') none l r hl hr h = cc
checked_order-IsTickOrder (some l') (some r') l r hl hr h =
    rw (← hl l' refl, ← hr r' refl) (order_of-IsTickOrder l' r')

-- Without overflow the order is that of the cross-multiplied values.
pub compare_ticks_checked-IsTickOrder :
    (a b : Ticks)
    → (compare_ticks_checked a b).overflowed ≡ false
    → IsTickOrder (compare_ticks_checked a b).order (cross a b) (cross b a)
unfolding compare_ticks_checked
compare_ticks_checked-IsTickOrder a b =
    checked_order-IsTickOrder (checked_mul3 a.value a.tb.num b.tb.den)
      (checked_mul3 b.value b.tb.num a.tb.den) (cross a b) (cross b a)
      (checked_mul3-some a.value a.tb.num b.tb.den) (checked_mul3-some b.value b.tb.num a.tb.den)

order_or-checked_order :
    (fallback : ℤ) (lhs rhs : Option ℤ)
    → (checked_order lhs rhs).overflowed ≡ false
    → order_or fallback lhs rhs ≡ (checked_order lhs rhs).order
unfolding order_or checked_order
order_or-checked_order fallback none rhs h = cc
order_or-checked_order fallback (some l) none h = cc
order_or-checked_order fallback (some l) (some r) h = refl

-- Where nothing overflows the two comparisons agree.
pub compare_ticks-eq-checked :
    (a b : Ticks)
    → (compare_ticks_checked a b).overflowed ≡ false
    → compare_ticks a b ≡ (compare_ticks_checked a b).order
unfolding compare_ticks compare_ticks_checked
compare_ticks-eq-checked a b h = order_or-checked_order (compare_signs a b) _ _ h
