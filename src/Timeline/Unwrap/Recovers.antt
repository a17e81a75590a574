-- ===== src/Timeline/Unwrap/Recovers.antt =====
-- Unwrapping recovers the timestamps that a 33-bit clock has wrapped.
use mediadiff.Base.{
  List, [], arith, false, ltb, map, pos, some, ℕ, ℤ, ◌%◌, ◌*◌, ◌+ℤ◌, ◌+◌, ◌-ℤ◌, ◌-◌, ◌/◌, ◌<◌, ◌^◌,
  ◌∷◌, ◌≡◌, ◌≤◌,
}
use mediadiff.Core.CheckedArith.{checked_add, checked_sub}
use mediadiff.Timeline.Unwrap.{
  UnwrapResult, apply_wrap_step, count_if, step_to, unwrap_from, unwrap_ts_timestamps,
}
use mathlib.Core.Path.{subst₂}

abbrev pub wire : ℕ → ℤ
wire t = pos (t % 2 ^ 33)

abbrev pub epoch : ℕ → ℕ
epoch t = t / 2 ^ 33

-- From one timestamp to the next the time moves by less than the half range forward, by at most
-- the half range back, and never back over a wrap.
abbrev pub Steady : ℕ → ℕ → Type 0
Steady t u = (epoch t ≤ epoch u) × (u < t + 2 ^ 32) × (t ≤ u + 2 ^ 32) × (u < 2 ^ 63)

abbrev pub SteadyFrom : ℕ → List ℕ → Type 0
SteadyFrom t [] = Unit
SteadyFrom t (u ∷ times) = Steady t u × SteadyFrom u times

abbrev pub last_after : ℕ → List ℕ → ℕ
last_after t [] = t
last_after t (u ∷ times) = last_after u times

sub_wire : (t u : ℕ) → checked_sub (wire u) (wire t) ≡ some (wire u -ℤ wire t)
unfolding checked_sub ◌-ℤ◌
sub_wire t u = ground arith

step_to-wire :
    (t u : ℕ)
    → Steady t u
    → step_to (pos (epoch t * 2 ^ 33)) (some (wire t)) (wire u) ≡ record {
      next_offset = pos (epoch u * 2 ^ 33);
      wrapped = ltb (epoch t) (epoch u);
      overflowed = false;
    }
unfolding step_to apply_wrap_step checked_sub checked_add ◌-ℤ◌ ◌+ℤ◌
step_to-wire t u (e, f, b, s) = ground arith

checked_add-wire :
    (t : ℕ) → t < 2 ^ 63 → checked_add (wire t) (pos (epoch t * 2 ^ 33)) ≡ some (pos t)
unfolding checked_add ◌-ℤ◌ ◌+ℤ◌
checked_add-wire t h = ground arith

epoch-last_after :
    (t : ℕ) (times : List ℕ) → SteadyFrom t times → epoch t ≤ epoch (last_after t times)
epoch-last_after t [] h = omega arith
epoch-last_after t (u ∷ times) ((e, _, _, _), h) =
    let i = epoch-last_after u times h in omega (arith, e, i)

-- The result of unwrapping the wrapped times after a time without an overflow.
abbrev recovered_after : ℕ → List ℕ → UnwrapResult
recovered_after t times = record {
  unwrapped = map pos times;
  wrap_events = epoch (last_after t times) - epoch t;
  overflowed = false;
}

count_if-epoch :
    (t u last : ℕ)
    → Steady t u
    → epoch u ≤ epoch last
    → count_if (ltb (epoch t) (epoch u)) (epoch last - epoch u) ≡ epoch last - epoch t
count_if-epoch t u last (e, f, b, s) h = ground arith

unwrap_from-wire :
    (t : ℕ) (times : List ℕ)
    → SteadyFrom t times
    → unwrap_from (pos (epoch t * 2 ^ 33)) (some (wire t)) (map wire times)
      ≡ recovered_after t times
unfolding unwrap_from
unwrap_from-wire t [] h = ground arith
unwrap_from-wire t (u ∷ times) (h, hs) = rw (
  step_to-wire t u h,
  checked_add-wire u h.3,
  unwrap_from-wire u times hs,
  count_if-epoch t u (last_after u times) h (epoch-last_after u times hs),
)

first_offset : (t : ℕ) → t < 2 ^ 33 → epoch t * 2 ^ 33 ≡ 0
first_offset t h = omega (arith, h)

first_wraps : (t n : ℕ) → t < 2 ^ 33 → n - epoch t ≡ n
first_wraps t n h = omega (arith, h)

in_first_epoch :
    (t : ℕ) (times : List ℕ)
    → t < 2 ^ 33
    → SteadyFrom t times
    → unwrap_from (pos 0) (some (wire t)) (map wire times) ≡ record {
      unwrapped = map pos times;
      wrap_events = epoch (last_after t times);
      overflowed = false;
    }
in_first_epoch t times h hs =
    subst₂
      (λ o w.
        unwrap_from (pos o) (some (wire t)) (map wire times)
        ≡ record { unwrapped = map pos times; wrap_events = w; overflowed = false })
      (first_offset t h) (first_wraps t (epoch (last_after t times)) h)
      (unwrap_from-wire t times hs)

add_zero-wire : (t : ℕ) → t < 2 ^ 33 → wire t +ℤ pos 0 ≡ pos t
unfolding ◌+ℤ◌
add_zero-wire t h = ground arith

-- Let the first of some times lie below 2^33, and let each next one be less than 2^32 later, at
-- most 2^32 earlier, in the same or a later 2^33 epoch, and below 2^63. Unwrapping the times modulo
-- 2^33 gives the times back, without an overflow, and counts a wrap for each epoch that the last
-- time lies after the first.
pub unwrap_ts_timestamps-Recovers :
    (t : ℕ) (times : List ℕ)
    → t < 2 ^ 33
    → SteadyFrom t times
    → unwrap_ts_timestamps (map wire (t ∷ times)) ≡ record {
      unwrapped = map pos (t ∷ times);
      wrap_events = epoch (last_after t times);
      overflowed = false;
    }
unfolding unwrap_ts_timestamps unwrap_from step_to
unwrap_ts_timestamps-Recovers t times h hs = rw (add_zero-wire t h, in_first_epoch t times h hs)
