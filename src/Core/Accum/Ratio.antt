-- ===== src/Core/Accum/Ratio.antt =====
-- `try_reduce_ratio` of src/core/rational.h returns the fraction in lowest terms.
use mediadiff.Base.{
  Bool-cases, Option, abs_ℤ, ap, ap₂, arith, eqb_ℤ, eqb_ℤ_iff, false, if◌then◌else◌, inl, inr, ltb,
  ltb_ℤ, neg_ℕ, negsuc, none, pos, refl, some, subst, suc, sym, true, zero, ℕ, ℤ, ◌%◌, ◌*ℤ◌, ◌*◌,
  ◌+◌, ◌-ℤ◌, ◌-◌, ◌/◌, ◌<ℤ◌, ◌<◌, ◌==◌, ◌^◌, ◌||◌, ◌∙◌, ◌≡◌, ◌≢◌, ◌≤◌, ◌⊎◌,
}
use mediadiff.Core.Accum.{Int128Accum, gcd_loop, reduce_by, try_reduce_ratio}
use mediadiff.Core.CheckedArith.{IsInt64}
use mathlib.Core.Bool.{false≢true}
use native.Mathlib.Nat.{
  div-add-mod, mod-lt, mod-eq-sub-mul-div, mul-sub, mul_assoc, mul-div_cancel_left,
}

-- `d` divides `n`.
abbrev pub Divides : ℕ → ℕ → Type 0
Divides d n = (q : ℕ) × (n ≡ d * q)

-- A greatest common divisor, by divisibility.
pub record IsGcd (a b g : ℕ) : Type 0 where
  pub left : Divides g a
  pub right : Divides g b
  pub greatest : (d : ℕ) → Divides d a → Divides d b → Divides d g

Divides-mod : (d a b : ℕ) → Divides d a → Divides d b → Divides d (a % b)
Divides-mod d a b (qa, ea) (qb, eb) = (
  qa - qb * (a / b),
  mod-eq-sub-mul-div a b
      ∙ ap₂ ◌-◌ ea (ap (λ t. t * (a / b)) eb ∙ mul_assoc d qb (a / b))
      ∙ sym (mul-sub d qa (qb * (a / b))),
)

Divides-of_mod : (d a b : ℕ) → Divides d b → Divides d (a % b) → Divides d a
Divides-of_mod d a b (qb, eb) (qm, em) =
    (qb * (a / b) + qm, sym (div-add-mod a b) ∙ ap₂ ◌+◌ (ap (λ t. t * (a / b)) eb) em ∙ omega arith)

IsGcd-mod : (a b g : ℕ) → IsGcd b (a % b) g → IsGcd a b g
IsGcd-mod a b g h = record {
  left = Divides-of_mod g a b h.left h.right;
  right = h.left;
  greatest = λ d da db. h.greatest d db (Divides-mod d a b da db);
}

IsGcd-zero : (a : ℕ) → IsGcd a 0 a
IsGcd-zero a = record {
  left = (1, omega arith);
  right = (0, omega arith);
  greatest = λ d da db. da;
}

-- Euclid's loop ends within one round more than its second argument.
pub gcd_loop-IsGcd :
    (fuel a b : ℕ) → b < fuel → (g : ℕ) × (gcd_loop fuel a b ≡ some g) × IsGcd a b g
unfolding gcd_loop
gcd_loop-IsGcd zero a b h = absurd (omega arith)
gcd_loop-IsGcd (suc fuel) a zero h = (a, refl, IsGcd-zero a)
gcd_loop-IsGcd (suc fuel) a (suc b) h =
    let below : a % suc b < suc b = mod-lt a (omega arith) in
    let ih = gcd_loop-IsGcd fuel (suc b) (a % suc b) (omega arith) in
    let more : (suc b == 0) ≡ false = ground arith in
    (ih.0, rw more ih.1, IsGcd-mod a (suc b) ih.0 ih.2)

-- The fraction `num / den` in lowest terms, as an int64_t pair with a positive denominator.
pub record IsReduced (num den : ℤ) (r : ℤ × ℤ) : Type 0 where
  pub positive : pos 0 <ℤ r.1
  pub same : r.0 *ℤ den ≡ num *ℤ r.1
  pub num_fits : IsInt64 r.0
  pub den_fits : IsInt64 r.1
  pub lowest : (d : ℕ) → Divides d (abs_ℤ r.0) → Divides d (abs_ℤ r.1) → d ≡ 1

-- The magnitudes of a fraction divided by their greatest common divisor.
pub record IsLowest (a b x y : ℕ) : Type 0 where
  pub y_pos : 0 < y
  pub cross_eq : x * b ≡ a * y
  pub lowest : (d : ℕ) → Divides d x → Divides d y → d ≡ 1

cancel_one : (g d q : ℕ) → 0 < g → g ≡ g * d * q → d ≡ 1
cancel_one g zero q hg e = absurd (omega (arith, e))
cancel_one g (suc zero) q hg e = refl
cancel_one g (suc (suc d)) zero hg e = absurd (omega (arith, e))
cancel_one g (suc (suc d)) (suc q) hg e = absurd (omega (arith, e))

IsGcd-IsLowest : (a b g : ℕ) → 0 < b → IsGcd a b g → IsLowest a b (a / g) (b / g)
IsGcd-IsLowest a b zero hb h = absurd (omega (arith, h.right.1))
IsGcd-IsLowest a b (suc g) hb h =
    let ex : a / suc g ≡ h.left.0 =
      ap (λ t. t / suc g) h.left.1 ∙ mul-div_cancel_left h.left.0 (omega arith) in
    let ey : b / suc g ≡ h.right.0 =
      ap (λ t. t / suc g) h.right.1 ∙ mul-div_cancel_left h.right.0 (omega arith) in
    rw (ex, ey)
      record {
        y_pos = pos_factor (suc g) h.right.0 (omega (arith, h.right.1));
        cross_eq = cross_factors (suc g) h.left.0 h.right.0 a b h.left.1 h.right.1;
        lowest = λ d dx dy.
            let common =
              h.greatest (suc g * d)
                (dx.0, h.left.1 ∙ ap (λ t. suc g * t) dx.1 ∙ sym (mul_assoc (suc g) d dx.0))
                (dy.0, h.right.1 ∙ ap (λ t. suc g * t) dy.1 ∙ sym (mul_assoc (suc g) d dy.0)) in
            cancel_one (suc g) d common.0 (omega arith) common.1;
      }
  where
    pos_factor : (k y : ℕ) → 0 < k * y → 0 < y
    pos_factor k zero h = absurd (omega arith)
    pos_factor k (suc y) h = omega arith

    cross_factors : (k x y a b : ℕ) → a ≡ k * x → b ≡ k * y → x * b ≡ a * y
    cross_factors k x y a b ea eb = rw (ea, eb) (omega arith)

signed_cross :
    (num den : ℤ) (x y : ℕ)
    → den ≢ pos 0
    → x * abs_ℤ den ≡ abs_ℤ num * y
    → (if ltb_ℤ (if ltb_ℤ den (pos 0) then pos 0 -ℤ num else num) (pos 0) then neg_ℕ x else pos x)
        *ℤ den
      ≡ num *ℤ pos y
unfolding ◌*ℤ◌ ◌-ℤ◌
signed_cross (pos n) (pos zero) x y ne h = absurd (ne refl)
signed_cross (pos n) (pos (suc d)) x y ne h = ground arith
signed_cross (pos zero) (negsuc d) zero y ne h = ground arith
signed_cross (pos zero) (negsuc d) (suc x) y ne h = absurd (omega arith)
signed_cross (pos (suc n)) (negsuc d) zero y ne h = ground arith
signed_cross (pos (suc n)) (negsuc d) (suc x) y ne h = ground arith
signed_cross (negsuc n) (pos zero) x y ne h = absurd (ne refl)
signed_cross (negsuc n) (pos (suc d)) zero y ne h = ground arith
signed_cross (negsuc n) (pos (suc d)) (suc x) y ne h = ground arith
signed_cross (negsuc n) (negsuc d) x y ne h = ground arith

-- What `try_reduce_ratio` promises: the fraction in lowest terms, and nothing where the
-- denominator is zero or a magnitude in lowest terms is no int64_t.
abbrev pub IsRatioResult : ℤ → ℤ → Option (ℤ × ℤ) → Type 0
IsRatioResult num den (some r) = IsReduced num den r
IsRatioResult num den none =
    (den ≡ pos 0)
    ⊎ ((x : ℕ) × (y : ℕ) × IsLowest (abs_ℤ num) (abs_ℤ den) x y × ((2 ^ 63 ≤ x) ⊎ (2 ^ 63 ≤ y)))

-- The numerator with the sign of the fraction.
abbrev folded : ℤ → ℤ → ℤ
folded num den = if ltb_ℤ den (pos 0) then pos 0 -ℤ num else num

IsReduced-of_lowest :
    (num den : ℤ) (x y : ℕ)
    → den ≢ pos 0
    → IsLowest (abs_ℤ num) (abs_ℤ den) x y
    → x < 2 ^ 63
    → y < 2 ^ 63
    → IsReduced num den ((if ltb_ℤ (folded num den) (pos 0) then neg_ℕ x else pos x), pos y)
IsReduced-of_lowest num den x y ne l hx hy = record {
  positive = omega (arith, l.y_pos);
  same = signed_cross num den x y ne l.cross_eq;
  num_fits = ground arith;
  den_fits = omega arith;
  lowest = λ d dx dy.
      l.lowest d (subst (Divides d) (ground arith) dx) (subst (Divides d) (omega arith) dy);
}

reduce_by-IsRatioResult :
    (num den : ℤ) (g : ℕ)
    → den ≢ pos 0
    → IsGcd (abs_ℤ num) (abs_ℤ den) g
    → IsRatioResult num den
        (reduce_by (ltb_ℤ (folded num den) (pos 0)) (abs_ℤ num) (abs_ℤ den) (some g))
unfolding reduce_by
reduce_by-IsRatioResult num den g ne h =
    let x = abs_ℤ num / g in
    let y = abs_ℤ den / g in
    let l = IsGcd-IsLowest (abs_ℤ num) (abs_ℤ den) g (abs_pos den ne) h in
    elim (Bool-cases (ltb (2 ^ 63 - 1) (abs_ℤ num / g))) [
      | inl big ↦ rw big (inr (x, y, l, inl (ground arith)))
      | inr small ↦
          rw small (elim (Bool-cases (abs_ℤ den / g == 0 || ltb (2 ^ 63 - 1) (abs_ℤ den / g))) [
            | inl big ↦ rw big (inr (x, y, l, inr (too_big (abs_ℤ den / g) l.y_pos big)))
            | inr fits ↦ rw fits (
                IsReduced-of_lowest num den x y ne l (ground arith) (in_range (abs_ℤ den / g) fits))
          ])
    ]
  where
    abs_pos : (d : ℤ) → d ≢ pos 0 → 0 < abs_ℤ d
    abs_pos (pos zero) ne = absurd (ne refl)
    abs_pos (pos (suc n)) ne = omega arith
    abs_pos (negsuc n) ne = omega arith

    too_big : (y : ℕ) → 0 < y → (y == 0 || ltb (2 ^ 63 - 1) y) ≡ true → 2 ^ 63 ≤ y
    too_big y h e = ground arith

    in_range : (y : ℕ) → (y == 0 || ltb (2 ^ 63 - 1) y) ≡ false → y < 2 ^ 63
    in_range y e = ground arith

-- For sums above -2^127 and below 2^127, whose negations the 128-bit type has too,
-- `try_reduce_ratio` returns the fraction in lowest terms with a positive denominator, exactly when
-- the denominator is not zero and both reduced magnitudes fit an int64_t; Euclid's loop ends.
pub try_reduce_ratio-IsRatioResult :
    (s denominator : Int128Accum)
    → abs_ℤ s.value < 2 ^ 127
    → abs_ℤ denominator.value < 2 ^ 127
    → IsRatioResult s.value denominator.value (try_reduce_ratio s denominator)
unfolding try_reduce_ratio
try_reduce_ratio-IsRatioResult s d hs hd = elim (Bool-cases (eqb_ℤ d.value (pos 0))) [
  | inl z ↦ rw z (inl ((eqb_ℤ_iff d.value (pos 0)).0 z))
  | inr nz ↦ rw nz (ratio (λ e. false≢true (sym nz ∙ (eqb_ℤ_iff d.value (pos 0)).1 e)))
]
  where
    abs-folded : abs_ℤ (folded s.value d.value) ≡ abs_ℤ s.value
    abs-folded = unfold ◌-ℤ◌ in ground arith

    ratio :
        d.value ≢ pos 0
        → IsRatioResult s.value d.value (
            reduce_by
              (ltb_ℤ (folded s.value d.value) (pos 0))
              (abs_ℤ (folded s.value d.value))
              (abs_ℤ d.value)
              (gcd_loop (suc (abs_ℤ d.value)) (abs_ℤ (folded s.value d.value)) (abs_ℤ d.value)))
    ratio ne =
        let g =
          gcd_loop-IsGcd (suc (abs_ℤ d.value)) (abs_ℤ s.value) (abs_ℤ d.value) (omega arith) in
        rw (abs-folded, g.1) (reduce_by-IsRatioResult s.value d.value g.0 ne g.2)
