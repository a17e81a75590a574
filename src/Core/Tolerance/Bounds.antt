-- ===== src/Core/Tolerance/Bounds.antt =====
-- What a parsed tolerance of src/core/tolerance.cpp is sure to be.
use mediadiff.Base.{
  Accepts, Bool-cases, Option, Option-cases, Returns, Returns-and_then, Text, [], arith, inl, inr,
  negsuc, none, pos, some, suc, true, zero, ℕ, ℤ, ◌*ℤ◌, ◌+ℤ◌, ◌-ℤ◌, ◌-◌, ◌<ℤ◌, ◌∷◌, ◌≡◌, ◌≤ℤ◌,
}
use mediadiff.Core.CheckedArith.{checked_add, checked_mul, int64_max}
use mediadiff.Core.Registry.{CheckUnit}
use mediadiff.Core.Tolerance.{decimal_den, is_digit, or_usage, push_digit, scan_digits, usage_error}

-- The value of an int64_t that is not negative.
abbrev pub IsNatural64 : ℤ → Type 0
IsNatural64 a = (pos 0 ≤ℤ a) × (a ≤ℤ int64_max)

pub checked_mul-bounds :
    (a b r : ℤ) → pos 0 ≤ℤ a → pos 0 ≤ℤ b → checked_mul a b ≡ some r → IsNatural64 r
unfolding checked_mul ◌*ℤ◌
checked_mul-bounds (pos a) (pos b) r ha hb h = ground arith
checked_mul-bounds (pos a) (negsuc b) r ha hb h = absurd (omega arith)
checked_mul-bounds (negsuc a) b r ha hb h = absurd (omega arith)

pub checked_add-bounds :
    (a b r : ℤ) → IsNatural64 a → IsNatural64 b → checked_add a b ≡ some r → IsNatural64 r
unfolding checked_add ◌+ℤ◌ ◌-ℤ◌
checked_add-bounds a b r ha hb h = ground arith

pub Accepts-or_usage :
    {A : Type 0} (P : A → Type 0) (unit : CheckUnit) (detail : Text) (o : Option A)
    → Returns P o
    → Accepts P (or_usage unit detail o)
unfolding or_usage usage_error
Accepts-or_usage P unit detail none h = tt
Accepts-or_usage P unit detail (some a) h = h

pub Returns-checked_mul :
    (a b : ℤ) → pos 0 ≤ℤ a → pos 0 ≤ℤ b → Returns IsNatural64 (checked_mul a b)
Returns-checked_mul a b ha hb = elim (Option-cases (checked_mul a b)) [
  | inl e ↦ rw e tt
  | inr (r, e) ↦ rw e (checked_mul-bounds a b r ha hb e)
]

pub Returns-checked_add :
    (a b : ℤ) → IsNatural64 a → IsNatural64 b → Returns IsNatural64 (checked_add a b)
Returns-checked_add a b ha hb = elim (Option-cases (checked_add a b)) [
  | inl e ↦ rw e tt
  | inr (r, e) ↦ rw e (checked_add-bounds a b r ha hb e)
]

digit_bounds : (c : ℕ) → is_digit c ≡ true → IsNatural64 (pos (c - b'0'))
digit_bounds c h = ground arith

push_digit-bounds :
    (value : ℤ) (c : ℕ)
    → IsNatural64 value
    → is_digit c ≡ true
    → Returns IsNatural64 (push_digit value c)
unfolding push_digit
push_digit-bounds value c h d =
    Returns-and_then IsNatural64 IsNatural64 (checked_mul value (pos 10))
      (λ scaled. checked_add scaled (pos (c - b'0')))
      (Returns-checked_mul value (pos 10) h.0 (omega arith))
      λ scaled hs. Returns-checked_add scaled (pos (c - b'0')) hs (digit_bounds c d)

-- What a scan of digits returns.
abbrev pub IsScan : ℤ × ℕ × Text → Type 0
IsScan r = IsNatural64 r.0

pub scan_digits-bounds :
    (value : ℤ) (digits : ℕ) (s : Text)
    → IsNatural64 value
    → Returns IsScan (scan_digits value digits s)
unfolding scan_digits
scan_digits-bounds value digits [] h = h
scan_digits-bounds value digits (c ∷ s) h = elim (Bool-cases (is_digit c)) [
  | inr no_digit ↦ rw no_digit h
  | inl yes_digit ↦ rw yes_digit (
      Returns-and_then IsNatural64 IsScan (push_digit value c)
        (λ next. scan_digits next (suc digits) s) (push_digit-bounds value c h yes_digit)
        λ next hn. scan_digits-bounds next (suc digits) s hn)
]

abbrev pub IsDen : ℤ → Type 0
IsDen d = (pos 0 <ℤ d) × (d ≤ℤ int64_max)

scale_step : (d r : ℤ) → IsDen d → checked_mul d (pos 10) ≡ some r → IsDen r
unfolding checked_mul ◌*ℤ◌
scale_step d r h e = ground arith

pub decimal_den-bounds : (k : ℕ) (d : ℤ) → IsDen d → Returns IsDen (decimal_den k d)
unfolding decimal_den
decimal_den-bounds zero d h = h
decimal_den-bounds (suc k) d h = elim (Option-cases (checked_mul d (pos 10))) [
  | inl e ↦ rw e tt
  | inr (r, e) ↦ rw e (decimal_den-bounds k r (scale_step d r h e))
]
