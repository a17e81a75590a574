-- ===== src/Timeline/Jumps/Found.antt =====
-- `detect_jumps` against exact arithmetic.
use mediadiff.Base.{
  Bool, List, [], and_then, and_then-some, ap, ap₂, arith, false, if◌then◌else◌, inl, inr, ltb_ℤ,
  map, none, pos, refl, some, sym, true, ℕ, ℤ, ◌*ℤ◌, ◌-ℤ◌, ◌∙◌, ◌∷◌, ◌≡◌,
}
use mediadiff.Core.CheckedArith.{checked_sub}
use mediadiff.Core.CheckedArith.Exact.{checked_sub-some}
use mediadiff.Core.Ticks.{Rational, TickOrder, compare_ticks_checked}
use mediadiff.Core.Ticks.Order.{IsTickOrder, compare_ticks_checked-IsTickOrder, cross}
use mediadiff.Timeline.{AxisSample, AxisView}
use mediadiff.Timeline.Durations.{ticks_to_ms}
use mediadiff.Timeline.Jumps.{
  DetectedJump, add_jump, detect_jumps, jump_between, jumps_from, jumps_in, threshold,
}
use mediadiff.Timeline.Monotonic.{sort_samples}
use mathlib.Core.Option.{none-ne-some, some-injective}

-- The interval, in seconds, is above a quarter of a second; the timebase is cross-multiplied.
abbrev pub exceeds : AxisSample → AxisSample → Rational → Bool
exceeds prev cur tb =
    ltb_ℤ (pos 250 *ℤ pos 1 *ℤ tb.den) ((cur.value -ℤ prev.value) *ℤ tb.num *ℤ pos 1000)

-- The indices of the packets behind an interval that exceeds the threshold.
abbrev pub far_sides : AxisSample → List AxisSample → Rational → List ℕ
far_sides prev [] tb = []
far_sides prev (cur ∷ others) tb =
    let rest = far_sides cur others tb in
    if exceeds prev cur tb then cur.packet_index ∷ rest else rest

abbrev pub far_sides_in : List AxisSample → Rational → List ℕ
far_sides_in [] tb = []
far_sides_in (s ∷ others) tb = far_sides s others tb

abbrev pub indices_of : List DetectedJump → List ℕ
indices_of jumps = map (λ jump. jump.cur_packet_index) jumps

order-exceeds : (o l r : ℤ) → IsTickOrder o l r → ltb_ℤ (pos 0) o ≡ ltb_ℤ r l
order-exceeds o l r (inl (e, h)) = rw e (ground (arith, h))
order-exceeds o l r (inr (inl (e, h))) = rw (e, h) (ground arith)
order-exceeds o l r (inr (inr (e, h))) = rw e (ground (arith, h))

jump_between-index :
    (prev cur : AxisSample) (tb : Rational) (jump : DetectedJump)
    → jump_between prev cur tb ≡ some jump
    → jump.cur_packet_index ≡ cur.packet_index
unfolding jump_between
jump_between-index prev cur tb jump e =
    let (start_ms, _, f) = and_then-some (ticks_to_ms prev.value tb) _ jump e in
    let (end_ms, _, g) = and_then-some (ticks_to_ms cur.value tb) _ jump f in
    ap (λ j. j.cur_packet_index) (sym (some-injective _ _ g))

-- The indices after the step to a sample, by whether its interval exceeds the threshold.
abbrev index_if : Bool → ℕ → List ℕ → List ℕ
index_if b i rest = if b then i ∷ rest else rest

add_jump-indices :
    (prev cur : AxisSample) (tb : Rational) (order : TickOrder) (jumps out : List DetectedJump)
    → add_jump prev cur tb order jumps ≡ some out
    → (order.overflowed ≡ false)
      × (indices_of out ≡ index_if (ltb_ℤ (pos 0) order.order) cur.packet_index (indices_of jumps))
unfolding add_jump
add_jump-indices prev cur tb order jumps out e =
    by_tests order.overflowed (ltb_ℤ (pos 0) order.order) e
  where
    by_tests :
        (o b : Bool)
        → (if o
            then none
            else if b
            then and_then (jump_between prev cur tb) (λ jump. some (jump ∷ jumps))
            else some jumps)
          ≡ some out
        → (o ≡ false) × (indices_of out ≡ index_if b cur.packet_index (indices_of jumps))
    by_tests true b f = absurd (none-ne-some out f)
    by_tests false true f =
        let (jump, g, h) = and_then-some (jump_between prev cur tb) _ out f in
        (
          refl,
          ap indices_of (sym (some-injective _ _ h))
              ∙ ap (λ i. i ∷ indices_of jumps) (jump_between-index prev cur tb jump g),
        )
    by_tests false false f = (refl, ap indices_of (sym (some-injective _ _ f)))

jumps_from-indices :
    (prev : AxisSample) (others : List AxisSample) (tb : Rational) (out : List DetectedJump)
    → jumps_from prev others tb ≡ some out
    → indices_of out ≡ far_sides prev others tb
unfolding jumps_from
jumps_from-indices prev [] tb out e = ap indices_of (sym (some-injective _ _ e))
jumps_from-indices prev (cur ∷ others) tb out e =
    let (interval, f, g) = and_then-some (checked_sub cur.value prev.value) _ out e in
    let (jumps, h, k) = and_then-some (jumps_from cur others tb) _ out g in
    let order = compare_ticks_checked (record { value = interval; tb = tb }) threshold in
    let (o, i) = add_jump-indices prev cur tb order jumps out k in
    let t =
      order-exceeds order.order (cross (record { value = interval; tb = tb }) threshold)
        (cross threshold (record { value = interval; tb = tb }))
        (compare_ticks_checked-IsTickOrder (record { value = interval; tb = tb }) threshold o) in
    i
    ∙ ap₂ (λ b rest. index_if b cur.packet_index rest)
        (t
          ∙ ap (λ v. ltb_ℤ (pos 250 *ℤ pos 1 *ℤ tb.den) (v *ℤ tb.num *ℤ pos 1000))
              (checked_sub-some cur.value prev.value interval f))
        (jumps_from-indices cur others tb jumps h)

jumps_in-indices :
    (found : List AxisSample) (tb : Rational) (out : List DetectedJump)
    → jumps_in found tb ≡ some out
    → indices_of out ≡ far_sides_in found tb
unfolding jumps_in
jumps_in-indices [] tb out e = ap indices_of (sym (some-injective _ _ e))
jumps_in-indices (s ∷ others) tb out e = jumps_from-indices s others tb out e

-- Where nothing overflows, the jumps are exactly those to the samples that lie, in presentation
-- order, more than a quarter of a second behind the one before them.
pub detect_jumps-far_sides :
    (view : AxisView) (tb : Rational) (out : List DetectedJump)
    → detect_jumps view tb ≡ some out
    → indices_of out ≡ far_sides_in (sort_samples view.samples) tb
unfolding detect_jumps
detect_jumps-far_sides view tb out e = jumps_in-indices (sort_samples view.samples) tb out e
