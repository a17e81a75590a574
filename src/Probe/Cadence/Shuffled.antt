-- ===== src/Probe/Cadence/Shuffled.antt =====
-- `derive_cadence` does not depend on the order in which the packets were read.
use mediadiff.Base.{
  Bool-cases, List, [], ap, arith, eqb_ℤ, if◌then◌else◌, inl, inr, leb, length, lt_or_le, refl, suc,
  sym, ℕ, ℤ, ◌+◌, ◌<◌, ◌∙◌, ◌∷◌, ◌≡◌,
}
use mediadiff.Core.CheckedArith.{int64_min}
use mediadiff.Core.Ticks.{Rational}
use mediadiff.Probe.Cadence.{
  Cadence, CadenceAxis, cadence_dts, cadence_pts, count_usable, count_usable_from, start_cadence,
  timestamp_on,
}
use mediadiff.Probe.Cadence.Derive.{derive_cadence, derive_on, with_axis}
use mediadiff.Probe.Cadence.Sorting.{length-sort_timestamps, sorted-Perm}
use mediadiff.Probe.Cadence.Timestamps.{sort_timestamps, usable_timestamps}
use mediadiff.Timeline.{PacketRecord}
use mathlib.Core.List.{Permᴰ}
use mathlib.Core.List.Permᴰ.{nil, cons, swap, trans}

-- A count up to the cap.
abbrev capped : ℕ → ℕ → ℕ
capped cap n = if leb cap n then cap else n

count_usable_from-capped :
    (n : ℕ) (packets : List PacketRecord) (axis : CadenceAxis) (cap : ℕ)
    → n < cap
    → count_usable_from n packets axis cap
      ≡ capped cap (n + length (usable_timestamps axis packets))
unfolding count_usable_from usable_timestamps
count_usable_from-capped n [] axis cap h = ground (arith, h)
count_usable_from-capped n (p ∷ packets) axis cap h =
    elim (Bool-cases (eqb_ℤ (timestamp_on axis p) int64_min)) [
      | inl e ↦ rw e (count_usable_from-capped n packets axis cap h)
      | inr e ↦ elim (lt_or_le (suc n) cap) [
        | inl l ↦
            let i = count_usable_from-capped (suc n) packets axis cap l in
            rw e (ground (arith, i, l))
        | inr l ↦ rw e (ground (arith, h, l))
      ]
    ]

sort-counts : (times : List ℤ) → 0 + length times ≡ length (sort_timestamps times)
sort-counts times = let e = length-sort_timestamps times in omega (arith, e)

count_usable-sorted :
    (packets : List PacketRecord) (axis : CadenceAxis)
    → count_usable packets axis 2
      ≡ capped 2 (length (sort_timestamps (usable_timestamps axis packets)))
unfolding count_usable
count_usable-sorted packets axis =
    count_usable_from-capped 0 packets axis 2 (omega arith)
    ∙ ap (λ n. capped 2 n) (sort-counts (usable_timestamps axis packets))

count_usable-Perm :
    {ps qs : List PacketRecord} (axis : CadenceAxis)
    → Permᴰ ps qs
    → count_usable ps axis 2 ≡ count_usable qs axis 2
count_usable-Perm {ps} {qs} axis m =
    count_usable-sorted ps axis
    ∙ ap (λ times. capped 2 (length times)) (sorted-Perm axis m)
    ∙ sym (count_usable-sorted qs axis)

length-Perm : {ps qs : List PacketRecord} → Permᴰ ps qs → length ps ≡ length qs
length-Perm nil = refl
length-Perm (cons e m) = ap suc (length-Perm m)
length-Perm (swap e f) = refl
length-Perm (trans m n) = length-Perm m ∙ length-Perm n

derive_on-Perm :
    {ps qs : List PacketRecord} (axis : CadenceAxis) (n : ℕ) (result : Cadence)
    → Permᴰ ps qs
    → derive_on axis n ps result ≡ derive_on axis n qs result
unfolding derive_on
derive_on-Perm axis n result m = rw (sorted-Perm axis m) refl

with_axis-Perm :
    {ps qs : List PacketRecord} (m n : ℕ) (result : Cadence)
    → Permᴰ ps qs
    → with_axis m n ps result ≡ with_axis m n qs result
unfolding with_axis
with_axis-Perm m n result h =
    rw (derive_on-Perm cadence_pts m result h, derive_on-Perm cadence_dts n result h) refl

-- The cadence of a scan is the same for every order in which its packets were read.
pub derive_cadence-Perm :
    {ps qs : List PacketRecord} (tb : Rational)
    → Permᴰ ps qs
    → derive_cadence ps tb ≡ derive_cadence qs tb
unfolding derive_cadence
derive_cadence-Perm {ps} {qs} tb m =
    rw
      (
        length-Perm m,
        count_usable-Perm cadence_pts m,
        count_usable-Perm cadence_dts m,
        with_axis-Perm (count_usable qs cadence_pts 2) (count_usable qs cadence_dts 2)
            (start_cadence tb) m,
      )
      refl
