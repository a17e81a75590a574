-- ===== src/Base/Lists.antt =====
-- Lists measured and indexed by native numbers, under the library's names.
use Prim.Native.Nat.{ℕ, zero, suc, ◌+◌}
use mathlib.Core.Path.{◌≡◌}
use mathlib.Core.List.{Memᴰ, List, [], ◌∷◌, ◌++◌}
use mathlib.Core.List.Memᴰ.{head, tail}
use mathlib.Core.Option.{Option, none, some}
use mathlib.Core.Bool.{Bool, true, false}
use native.Mathlib.Omega.{arith}

module _ {ℓ} {A : Type ℓ} where
  abbrev pub length : List A → ℕ
  length [] = 0
  length (x ∷ xs) = suc (length xs)

  abbrev pub get_elem? : List A → ℕ → Option A
  get_elem? [] i = none
  get_elem? (x ∷ xs) zero = some x
  get_elem? (x ∷ xs) (suc i) = get_elem? xs i

  -- A predicate at every element; it computes to a tuple.
  abbrev pub All {κ} : (A → Type κ) → List A → Type κ
  All P [] = Unit
  All P (x ∷ xs) = P x × All P xs

  pub length-append : (xs ys : List A) → length (xs ++ ys) ≡ length xs + length ys
  length-append [] ys = omega arith
  length-append (x ∷ xs) ys = omega (arith, length-append xs ys)

  abbrev pub is_empty : List A → Bool
  is_empty [] = true
  is_empty (x ∷ xs) = false

module _ {ℓ} {A : Type ℓ} where
  -- Membership past an element that stands before an inserted one.
  pub past_front :
      (x e o : A) (later os : List A)
      → (Memᴰ x later → Memᴰ x (e ∷ os))
      → Memᴰ x (o ∷ later)
      → Memᴰ x (e ∷ o ∷ os)
  past_front x e o later os h (head p) = tail (head p)
  past_front x e o later os h (tail m) = elim (h m) [ head p ↦ head p | tail n ↦ tail (tail n) ]

  pub past_back :
      (x e o : A) (later os : List A)
      → (Memᴰ x (e ∷ os) → Memᴰ x later)
      → Memᴰ x (e ∷ o ∷ os)
      → Memᴰ x (o ∷ later)
  past_back x e o later os h (head p) = tail (h (head p))
  past_back x e o later os h (tail (head p)) = head p
  past_back x e o later os h (tail (tail m)) = tail (h (tail m))
