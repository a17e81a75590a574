-- ===== src/Core/Accum/Root.antt =====
-- `try_isqrt` of src/core/rational.h is the floor of the square root.
use mediadiff.Base.{
  Bool-cases, Option, abs_ℤ, ap, arith, false, inl, inr, leb, ltb, ltb_ℤ, none, pos, pos_part, refl,
  some, suc, sym, true, zero, ℕ, ℤ, ◌*◌, ◌+◌, ◌-◌, ◌/◌, ◌<ℤ◌, ◌<◌, ◌==◌, ◌^◌, ◌≡◌, ◌≤ℤ◌, ◌≤◌, ◌⊎◌,
}
use mediadiff.Core.Accum.{Int128Accum, isqrt_loop, narrow_root, try_isqrt, u128}
use native.Mathlib.Nat.{pow-suc, one-le-pow, le_trans}
use native.Mathlib.Decide.{dec_le}

-- The loop returns the floor of the root of `total`.
abbrev pub IsFloorRoot : ℕ → Option ℕ → Type 0
IsFloorRoot total r = (s : ℕ) × (r ≡ some s) × (s * s ≤ total) × (total < suc s * suc s)

-- The loop's bit with `j` rounds left.
abbrev bit_at : ℕ → ℕ
bit_at zero = 0
bit_at (suc i) = 2 ^ i * 2 ^ i

bit_at-suc : (j : ℕ) → bit_at (suc j) / 4 ≡ bit_at j
bit_at-suc zero = refl
bit_at-suc (suc i) = rw pow-suc (omega arith)

pos_square : (e : ℕ) → 1 ≤ e → 0 < e * e
pos_square zero h = elim h [ ]
pos_square (suc e) h = omega arith

bit_at-pos : (i : ℕ) → 0 < bit_at (suc i)
bit_at-pos i = pos_square (2 ^ i) (one-le-pow i 2 (omega arith))

isqrt_loop_taken :
    (fuel n root bit : ℕ)
    → 0 < bit
    → root + bit < 2 ^ 128
    → root + bit ≤ n
    → isqrt_loop (suc fuel) n root bit
      ≡ isqrt_loop fuel (n - (root + bit)) (root / 2 + bit) (bit / 4)
unfolding isqrt_loop
isqrt_loop_taken fuel n root bit hb hr h =
    let e : u128 (root + bit) ≡ root + bit = omega arith in
    let e' : u128 (root / 2 + bit) ≡ root / 2 + bit = omega arith in
    let ne : (bit == 0) ≡ false = ground arith in
    let le : leb (root + bit) n ≡ true = ground arith in rw (ne, e, e', le)

isqrt_loop_skipped :
    (fuel n root bit : ℕ)
    → 0 < bit
    → root + bit < 2 ^ 128
    → n < root + bit
    → isqrt_loop (suc fuel) n root bit ≡ isqrt_loop fuel n (root / 2) (bit / 4)
unfolding isqrt_loop
isqrt_loop_skipped fuel n root bit hb hr h =
    let e : u128 (root + bit) ≡ root + bit = omega arith in
    let ne : (bit == 0) ≡ false = ground arith in
    let gt : leb (root + bit) n ≡ false = ground arith in rw (ne, e, gt)

-- The loop's invariant: `p` is the partial root, a multiple of 2 ^ j with `j` rounds left.
record IsPartial (j p n root total : ℕ) : Type 0 where
  scaled : root ≡ p * 2 ^ j
  split : p * p + n ≡ total
  close : total < (p + 2 ^ j) * (p + 2 ^ j)
  small_root : root ≤ total
  small_total : total < 2 ^ 127

IsPartial-taken :
    (i p n root total : ℕ)
    → IsPartial (suc i) p n root total
    → root + bit_at (suc i) ≤ n
    → IsPartial i (p + 2 ^ i) (n - (root + bit_at (suc i))) (root / 2 + bit_at (suc i)) total
IsPartial-taken i p n root total h le =
    let scaled : root ≡ p * (2 ^ i * 2) = rw pow-suc at h.scaled in
    let close : total < (p + 2 ^ i * 2) * (p + 2 ^ i * 2) = rw pow-suc at h.close in
    record {
      scaled = omega (arith, scaled);
      split = omega (arith, scaled, h.split);
      close = omega (arith, close);
      small_root = omega (arith, h.split);
      small_total = h.small_total;
    }

IsPartial-skipped :
    (i p n root total : ℕ)
    → IsPartial (suc i) p n root total
    → n < root + bit_at (suc i)
    → IsPartial i p n (root / 2) total
IsPartial-skipped i p n root total h lt =
    let scaled : root ≡ p * (2 ^ i * 2) = rw pow-suc at h.scaled in
    record {
      scaled = omega (arith, scaled);
      split = h.split;
      close = omega (arith, scaled, h.split);
      small_root = omega (arith, h.small_root);
      small_total = h.small_total;
    }

isqrt_loop-IsFloorRoot :
    (j fuel p n root total : ℕ)
    → j < fuel
    → bit_at j ≤ 2 ^ 126
    → IsPartial j p n root total
    → IsFloorRoot total (isqrt_loop fuel n root (bit_at j))
isqrt_loop-IsFloorRoot j zero p n root total lt hb h = absurd (omega arith)
isqrt_loop-IsFloorRoot zero (suc fuel) p n root total lt hb h =
    let e : p ≡ root = omega (arith, h.scaled) in
    (
      root,
      unfold isqrt_loop in refl,
      rw e at (let below : p * p ≤ total = omega (arith, h.split) in below),
      rw e at (let above : total < suc p * suc p = omega (arith, h.close) in above),
    )
isqrt_loop-IsFloorRoot (suc i) (suc fuel) p n root total lt hb h =
    elim (dec_le (root + bit_at (suc i)) n) [
      | yes le ↦
          rw
            (
              isqrt_loop_taken fuel n root (bit_at (suc i)) (bit_at-pos i) (omega arith) le,
              bit_at-suc,
            )
            (isqrt_loop-IsFloorRoot i fuel (p + 2 ^ i) (n - (root + bit_at (suc i)))
              (root / 2 + bit_at (suc i)) total (omega arith) (omega (arith, bit_at-suc i))
              (IsPartial-taken i p n root total h le))
      | no gt ↦
          rw
            (
              isqrt_loop_skipped fuel n root (bit_at (suc i)) (bit_at-pos i) (omega arith)
                  (omega arith),
              bit_at-suc,
            )
            (isqrt_loop-IsFloorRoot i fuel p n (root / 2) total (omega arith)
              (omega (arith, bit_at-suc i)) (IsPartial-skipped i p n root total h (omega arith)))
    ]

-- What `try_isqrt` promises: the floor of the root of a sum that is not negative, if it is an
-- int64_t, and otherwise nothing.
abbrev pub IsRootResult : ℤ → Option ℤ → Type 0
IsRootResult v (some r) =
    (s : ℕ) × (r ≡ pos s)
    × (pos 0 ≤ℤ v)
    × (s * s ≤ abs_ℤ v)
    × (abs_ℤ v < suc s * suc s)
    × (s < 2 ^ 63)
IsRootResult v none = (v <ℤ pos 0) ⊎ (2 ^ 63 * 2 ^ 63 ≤ abs_ℤ v)

square_mono : (a b : ℕ) → a ≤ b → a * a ≤ b * b
square_mono a b h = grind arith

narrow_root-IsRootResult :
    (v : ℤ) (o : Option ℕ) → pos 0 ≤ℤ v → IsFloorRoot (abs_ℤ v) o → IsRootResult v (narrow_root o)
unfolding narrow_root
narrow_root-IsRootResult v none h (s, e, lo, hi) = absurd (cc)
narrow_root-IsRootResult v (some root) h (s, e, lo, hi) =
    let e' : s ≡ root = ground arith in
    elim (Bool-cases (ltb (2 ^ 63 - 1) root)) [
      | inl big ↦ rw big (inr (le_trans (square_mono (2 ^ 63) s (ground arith)) lo))
      | inr fits ↦ rw fits (s, ap pos (sym e'), h, lo, hi, ground arith)
    ]

-- For a sum in the 128-bit range, `try_isqrt` returns the floor of the square root, exactly when
-- the sum is not negative and the root is an int64_t; its 64 rounds are enough.
pub try_isqrt-IsRootResult :
    (s : Int128Accum) → abs_ℤ s.value < 2 ^ 127 → IsRootResult s.value (try_isqrt s)
unfolding try_isqrt
try_isqrt-IsRootResult s h = elim (Bool-cases (ltb_ℤ s.value (pos 0))) [
  | inl neg ↦ rw neg (inl (ground arith))
  | inr nonneg ↦ rw nonneg (
      narrow_root-IsRootResult s.value (isqrt_loop 65 (pos_part s.value) 0 (2 ^ 126)) (ground arith)
        (floor (ground arith)))
]
  where
    start : pos_part s.value ≡ abs_ℤ s.value → IsPartial 64 0 (pos_part s.value) 0 (abs_ℤ s.value)
    start e = record {
      scaled = omega arith;
      split = omega (arith, e);
      close = omega (arith, h);
      small_root = omega arith;
      small_total = h;
    }

    floor :
        pos_part s.value ≡ abs_ℤ s.value
        → IsFloorRoot (abs_ℤ s.value) (isqrt_loop 65 (pos_part s.value) 0 (2 ^ 126))
    floor e =
        isqrt_loop-IsFloorRoot 64 65 0 (pos_part s.value) 0 (abs_ℤ s.value) (omega arith)
          (omega arith) (start e)
