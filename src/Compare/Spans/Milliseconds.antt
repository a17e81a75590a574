-- ===== src/Compare/Spans/Milliseconds.antt =====
-- src/compare/span.cpp on spans in milliseconds, which is what the analyzers produce: no comparison
-- overflows, and each one compares the numbers.
-- A number of milliseconds over the timebase 1/1.
use mediadiff.Base.{
  Bool, Bool-cases, ap, ap₂, arith, false, if◌then◌else◌, inl, inr, leb_ℤ, ltb_ℤ, negsuc, none, pos,
  refl, some, true, ℤ, ◌&&◌, ◌*ℤ◌, ◌+ℤ◌, ◌<ℤ◌, ◌∙◌, ◌≡◌,
}
use mediadiff.Compare.Spans.{adjacent_or_overlapping, overlaps, ticks_less, to_ticks}
use mediadiff.Compare.Values.{rational_eq}
use mediadiff.Core.CheckedArith.{IsInt64, checked_add, checked_mul, fits_int64, int64_max}
use mediadiff.Core.Model.{RationalValue, Span}
use mediadiff.Core.Ticks.{Rational, checked_mul3, checked_order, compare_ticks_checked, order_of}

abbrev pub IsMs : RationalValue → Type 0
IsMs v = (v.tb.num ≡ pos 1) × (v.tb.den ≡ pos 1) × IsInt64 v.num

-- One tick more than the end is an int64_t too.
abbrev pub IsMsSpan : Span → Type 0
IsMsSpan s = IsMs s.start × IsMs s.finish × (s.finish.num <ℤ int64_max)

times_one : (a : ℤ) → a *ℤ pos 1 ≡ a
unfolding ◌*ℤ◌
times_one (pos a) = ground arith
times_one (negsuc a) = ground arith

checked_mul-one : (a : ℤ) → IsInt64 a → checked_mul a (pos 1) ≡ some a
unfolding checked_mul
checked_mul-one a h =
    ap (λ p. if fits_int64 p then some p else none) (times_one a)
    ∙ ap (λ t. if t then some a else none) fits
  where
    fits : fits_int64 a ≡ true
    fits = ground (arith, h)

checked_mul3-ones : (a n d : ℤ) → n ≡ pos 1 → d ≡ pos 1 → IsInt64 a → checked_mul3 a n d ≡ some a
unfolding checked_mul3
checked_mul3-ones a n d en ed h =
    ap₂ (checked_mul3 a) en ed ∙ rw (checked_mul-one a h, checked_mul3) (checked_mul-one a h)

compare-ms :
    (a b : RationalValue)
    → IsMs a
    → IsMs b
    → compare_ticks_checked (to_ticks a) (to_ticks b)
      ≡ record { order = order_of a.num b.num; overflowed = false }
unfolding compare_ticks_checked checked_order
compare-ms a b ha hb =
    ap₂ checked_order (checked_mul3-ones a.num a.tb.num b.tb.den ha.0 hb.1 ha.2)
      (checked_mul3-ones b.num b.tb.num a.tb.den hb.0 ha.1 hb.2)

pub ticks_less-ms :
    (a b : RationalValue) (overflowed : Bool)
    → IsMs a
    → IsMs b
    → ticks_less a b overflowed ≡ (ltb_ℤ a.num b.num, overflowed)
unfolding ticks_less
ticks_less-ms a b overflowed ha hb =
    rw (compare-ms a b ha hb) (ap (λ t. (t, overflowed)) (less a.num b.num))
  where
    less : (x y : ℤ) → ltb_ℤ (order_of x y) (pos 0) ≡ ltb_ℤ x y
    less x y = ground arith

checked_add-one : (v : ℤ) → IsInt64 v → v <ℤ int64_max → checked_add v (pos 1) ≡ some (v +ℤ pos 1)
unfolding checked_add ◌+ℤ◌
checked_add-one v h l = ground (arith, h, l)

pub adjacent-ms :
    (last after : Span) (overflowed : Bool)
    → IsMsSpan last
    → IsMsSpan after
    → adjacent_or_overlapping last after overflowed
      ≡ (leb_ℤ after.start.num (last.finish.num +ℤ pos 1), overflowed)
unfolding adjacent_or_overlapping
adjacent-ms last after overflowed hl hn =
    rw
      (same_tb last.finish.tb after.start.tb hl.1 hn.0, checked_add-one last.finish.num hl.1.2 hl.2)
      refl
  where
    same_tb :
        (s t : Rational)
        → (s.num ≡ pos 1) × (s.den ≡ pos 1) × IsInt64 last.finish.num
        → (t.num ≡ pos 1) × (t.den ≡ pos 1) × IsInt64 after.start.num
        → rational_eq s t ≡ true
    same_tb s t (a, b, x) (c, d, y) = rw (a, b, c, d) refl

pub overlaps-ms :
    (a b : Span) (overflowed : Bool)
    → IsMsSpan a
    → IsMsSpan b
    → overlaps a b overflowed
      ≡ (ltb_ℤ a.start.num b.finish.num && ltb_ℤ b.start.num a.finish.num, overflowed)
unfolding overlaps
overlaps-ms a b overflowed ha hb =
    rw (ticks_less-ms a.start b.finish overflowed ha.0 hb.1)
      (elim (Bool-cases (ltb_ℤ a.start.num b.finish.num)) [
        | inl e ↦ rw e (ticks_less-ms b.start a.finish overflowed hb.0 ha.1)
        | inr n ↦ rw n refl
      ])
