-- ===== src/Compare/Spans/Merge.antt =====
-- What `merge_spans` of src/compare/span.cpp makes of sorted spans in milliseconds.
-- The span lies within another one, and within one of a list.
use mediadiff.Base.{
  All, Bool, Bool-cases, List, [], ap, arith, false, inl, inr, leb_ℤ, ltb_ℤ, pos, refl, subst, sym,
  true, ℤ, ◌+ℤ◌, ◌<ℤ◌, ◌∙◌, ◌∷◌, ◌≡◌, ◌≤ℤ◌, ◌⊎◌,
}
use mediadiff.Compare.Spans.{extended, merge_from}
use mediadiff.Compare.Spans.Milliseconds.{IsMsSpan, adjacent-ms, ticks_less-ms}
use mediadiff.Core.Model.{RationalValue, Span}

abbrev pub Within : Span → Span → Type 0
Within s o = (o.start.num ≤ℤ s.start.num) × (s.finish.num ≤ℤ o.finish.num)

abbrev pub WithinAny : Span → List Span → Type 0
WithinAny s [] = ⊥
WithinAny s (o ∷ outs) = Within s o ⊎ WithinAny s outs

-- The first span of the list starts more than a tick behind the end.
abbrev pub StartsApart : ℤ → List Span → Type 0
StartsApart finish [] = Unit
StartsApart finish (o ∷ outs) = (finish +ℤ pos 1) <ℤ o.start.num

abbrev pub IsApart : List Span → Type 0
IsApart [] = Unit
IsApart (o ∷ outs) = StartsApart o.finish.num outs × IsApart outs

-- Increasing starts.
abbrev pub IsByStart : List Span → Type 0
IsByStart [] = Unit
IsByStart (s ∷ rest) = All (λ o. s.start.num ≤ℤ o.start.num) rest × IsByStart rest

-- A span of the list has the property.
abbrev pub AnySpan : (Span → Type 0) → List Span → Type 0
AnySpan P [] = ⊥
AnySpan P (s ∷ spans) = P s ⊎ AnySpan P spans

-- The tick lies in the span, its ends included.
abbrev pub HoldsTick : ℤ → Span → Type 0
HoldsTick v s = (s.start.num ≤ℤ v) × (v ≤ℤ s.finish.num)

-- The span starts where one of the list starts, and ends where one of the list ends.
abbrev pub HasEndsOf : List Span → Span → Type 0
HasEndsOf spans o =
    AnySpan (λ s. s.start.num ≡ o.start.num) spans
    × AnySpan (λ s. s.finish.num ≡ o.finish.num) spans

-- Every span of the input lies within a merged one, the merged ones stand apart, and they hold no
-- tick that no span of the input holds.
pub record MergedFrom (last : Span) (rest : List Span) (overflowed : Bool) (out : List Span × Bool)
    : Type 0 where
  pub same_flag : out.1 ≡ overflowed
  pub here : WithinAny last out.0
  pub covers : All (λ s. WithinAny s out.0) rest
  pub apart : IsApart out.0
  pub starts : (v : ℤ) → (v +ℤ pos 1) <ℤ last.start.num → StartsApart v out.0
  pub ticks : (v : ℤ) → AnySpan (HoldsTick v) out.0 → AnySpan (HoldsTick v) (last ∷ rest)
  pub ends : All (HasEndsOf (last ∷ rest)) out.0
  pub spans : All IsMsSpan out.0

Within-trans : (s t : Span) (outs : List Span) → Within s t → WithinAny t outs → WithinAny s outs
Within-trans s t [] h k = k
Within-trans s t (o ∷ outs) h k = elim k [
  | inl w ↦ inl (omega (arith, h, w))
  | inr w ↦ inr (Within-trans s t outs h w)
]

-- The longer of the two, from the start of the first.
extended-Within :
    (last after : Span)
    → IsMsSpan last
    → IsMsSpan after
    → last.start.num ≤ℤ after.start.num
    → Within last (extended last after (ltb_ℤ last.finish.num after.finish.num))
      × Within after (extended last after (ltb_ℤ last.finish.num after.finish.num))
      × IsMsSpan (extended last after (ltb_ℤ last.finish.num after.finish.num))
extended-Within last after hl ha h = elim (Bool-cases (ltb_ℤ last.finish.num after.finish.num)) [
  | inl e ↦ rw e ((omega arith, ground (arith, e)), (h, omega arith), (hl.0, ha.1, ha.2))
  | inr n ↦ rw n ((omega arith, omega arith), (h, ground (arith, n)), hl)
]

extended-start : (last after : Span) (t : Bool) → (extended last after t).start ≡ last.start
extended-start last after true = refl
extended-start last after false = refl

All-later :
    (last after : Span) (t : Bool) (rest : List Span)
    → All (λ o. last.start.num ≤ℤ o.start.num) rest
    → All (λ o. (extended last after t).start.num ≤ℤ o.start.num) rest
All-later last after true rest h = h
All-later last after false rest h = h

-- The ticks and the ends of two spans that are joined are those of the two.
extended-ticks :
    (last after : Span) (v : ℤ)
    → leb_ℤ after.start.num (last.finish.num +ℤ pos 1) ≡ true
    → HoldsTick v (extended last after (ltb_ℤ last.finish.num after.finish.num))
    → HoldsTick v last ⊎ HoldsTick v after
unfolding ◌+ℤ◌
extended-ticks last after v t h = elim (Bool-cases (ltb_ℤ last.finish.num after.finish.num)) [
  | inl e ↦
      let k = subst (λ b. HoldsTick v (extended last after b)) e h in
      elim (Bool-cases (leb_ℤ v last.finish.num)) [
        | inl l ↦ inl (k.0, ground (arith, l))
        | inr l ↦ inr (ground (arith, l, t), k.1)
      ]
  | inr n ↦ inl (subst (λ b. HoldsTick v (extended last after b)) n h)
]

extended-finish :
    (last after : Span) (b : Bool) (v : ℤ)
    → (extended last after b).finish.num ≡ v
    → (last.finish.num ≡ v) ⊎ (after.finish.num ≡ v)
extended-finish last after true v e = inr e
extended-finish last after false v e = inl e

AnySpan-join :
    (P : Span → Type 0) (joined last after : Span) (rest : List Span)
    → (P joined → P last ⊎ P after)
    → AnySpan P (joined ∷ rest)
    → AnySpan P (last ∷ after ∷ rest)
AnySpan-join P joined last after rest f (inl h) = elim (f h) [ inl x ↦ inl x | inr x ↦ inr (inl x) ]
AnySpan-join P joined last after rest f (inr h) = inr (inr h)

HasEndsOf-join :
    (last after : Span) (b : Bool) (rest : List Span) (o : Span)
    → HasEndsOf (extended last after b ∷ rest) o
    → HasEndsOf (last ∷ after ∷ rest) o
HasEndsOf-join last after b rest o (f, g) = (
  AnySpan-join (λ s. s.start.num ≡ o.start.num) (extended last after b) last after rest
      (λ e. inl (ap (λ (x : RationalValue). x.num) (sym (extended-start last after b)) ∙ e)) f,
  AnySpan-join (λ s. s.finish.num ≡ o.finish.num) (extended last after b) last after rest
      (extended-finish last after b o.finish.num) g,
)

pub All-HasEndsOf :
    (xs ys outs : List Span)
    → ((o : Span) → HasEndsOf xs o → HasEndsOf ys o)
    → All (HasEndsOf xs) outs
    → All (HasEndsOf ys) outs
All-HasEndsOf xs ys [] f h = tt
All-HasEndsOf xs ys (o ∷ outs) f (h, hs) = (f o h, All-HasEndsOf xs ys outs f hs)

pub merge_from-MergedFrom :
    (last : Span) (rest : List Span) (overflowed : Bool)
    → IsMsSpan last
    → All IsMsSpan rest
    → IsByStart (last ∷ rest)
    → MergedFrom last rest overflowed (merge_from last rest overflowed)
unfolding merge_from
merge_from-MergedFrom last [] overflowed hl hr hs = record {
  same_flag = refl;
  here = inl (omega arith, omega arith);
  covers = tt;
  apart = (tt, tt);
  starts = λ v h. h;
  ticks = λ v h. h;
  ends = ((inl refl, inl refl), tt);
  spans = (hl, tt);
}
merge_from-MergedFrom last (after ∷ rest) overflowed hl (ha, hr) ((first, others), hs) =
    let longer = ltb_ℤ last.finish.num after.finish.num in
    let e = extended-Within last after hl ha first in
    let joined =
      merge_from-MergedFrom (extended last after longer) rest overflowed e.2 hr
        (All-later last after longer rest others, hs.1) in
    let apart = merge_from-MergedFrom after rest overflowed ha hr hs in
    rw (adjacent-ms last after overflowed hl ha)
      (elim (Bool-cases (leb_ℤ after.start.num (last.finish.num +ℤ pos 1))) [
        | inl t ↦
            rw (t, ticks_less-ms last.finish after.finish overflowed hl.1 ha.1)
              (record {
                same_flag = joined.same_flag;
                here = Within-trans last (extended last after longer) _ e.0 joined.here;
                covers = (
                  Within-trans after (extended last after longer) _ e.1 joined.here,
                  joined.covers,
                );
                apart = joined.apart;
                starts = λ v h. joined.starts v (
                    subst (λ (x : RationalValue). (v +ℤ pos 1) <ℤ x.num)
                      (sym (extended-start last after longer)) h);
                ticks = λ v h.
                    AnySpan-join (HoldsTick v) (extended last after longer) last after rest
                      (extended-ticks last after v t) (joined.ticks v h);
                ends =
                    All-HasEndsOf (extended last after longer ∷ rest) (last ∷ after ∷ rest) _
                      (HasEndsOf-join last after longer rest) joined.ends;
                spans = joined.spans;
              })
        | inr n ↦ rw n (record {
          same_flag = apart.same_flag;
          here = inl (omega arith, omega arith);
          covers = (inr apart.here, further last rest _ apart.covers);
          apart = (apart.starts last.finish.num (ground (arith, n)), apart.apart);
          starts = λ v h. h;
          ticks = λ v h. elim h [ inl k ↦ inl k | inr k ↦ inr (apart.ticks v k) ];
          ends = (
            (inl refl, inl refl),
            All-HasEndsOf (after ∷ rest) (last ∷ after ∷ rest) _ (λ o e. (inr e.0, inr e.1))
                apart.ends,
          );
          spans = (hl, apart.spans);
        })
      ])
  where
    further :
        (o : Span) (ss outs : List Span)
        → All (λ s. WithinAny s outs) ss
        → All (λ s. WithinAny s (o ∷ outs)) ss
    further o [] outs h = tt
    further o (s ∷ ss) outs h = (inr h.0, further o ss outs h.1)
