-- ===== src/Base/Result.antt =====
-- `mediadiff::expected<T, Error>` (src/util/expected.h) with the error of src/core/error.h.
use mathlib.Core.Logic.{◌⊎◌, inl, inr}
use mathlib.Core.Path.{◌≡◌, refl}
use mathlib.Core.Option.{Option, none, some}
use mediadiff.Base.Bytes.{Text}
use mathlib.Core.Bool.{Bool, true, false}
use mediadiff.Base.Tests.{and_then, if◌then◌else◌}

pub data ErrorKind : Type 0 where
  usage input_open input_unsupported decode internal : ErrorKind

pub record Error : Type 0 where
  pub kind : ErrorKind
  pub message : Text

pub data Expected {ℓ} (A : Type ℓ) : Type ℓ where
  ok : A → Expected A
  err : Error → Expected A
  -- An exception of a library call, which leaves the function.
  thrown : Expected A

-- `if (!result) return unexpected(result.error()); …`
infixl 5 ◌>>=◌
abbrev pub ◌>>=◌ {κ ℓ} :
    {T : Type κ} {U : Type ℓ} (result : Expected T) (next : T → Expected U) → Expected U
err error >>= next = err error
thrown >>= next = thrown
ok value >>= next = next value

-- A result that is there has the property.
abbrev pub Returns {ℓ κ} : {A : Type ℓ} → (A → Type κ) → Option A → Type κ
Returns P none = Unit
Returns P (some a) = P a

abbrev pub Accepts {ℓ κ} : {A : Type ℓ} → (A → Type κ) → Expected A → Type κ
Accepts P (err e) = Unit
Accepts P thrown = Unit
Accepts P (ok a) = P a

pub Accepts-bind :
    {A B : Type 0} (P : A → Type 0) (Q : B → Type 0) (m : Expected A) (f : A → Expected B)
    → Accepts P m
    → ((a : A) → P a → Accepts Q (f a))
    → Accepts Q (m >>= f)
Accepts-bind P Q (ok a) f h k = k a h
Accepts-bind P Q (err e) f h k = tt
Accepts-bind P Q thrown f h k = tt

pub Returns-and_then :
    {A B : Type 0} (P : A → Type 0) (Q : B → Type 0) (o : Option A) (f : A → Option B)
    → Returns P o
    → ((a : A) → P a → Returns Q (f a))
    → Returns Q (and_then o f)
Returns-and_then P Q none f h k = tt
Returns-and_then P Q (some a) f h k = k a h

pub Accepts-if {ℓ κ} :
    {A : Type ℓ} (P : A → Type κ) (b : Bool) (x y : Expected A)
    → (b ≡ true → Accepts P x)
    → (b ≡ false → Accepts P y)
    → Accepts P (if b then x else y)
Accepts-if P true x y hx hy = hx refl
Accepts-if P false x y hx hy = hy refl

pub Accepts-all {ℓ} : {A : Type ℓ} (m : Expected A) → Accepts {ℓ, 0} (λ a. Unit) m
Accepts-all (ok a) = tt
Accepts-all (err e) = tt
Accepts-all thrown = tt

-- A stronger property of the result that is there.
pub Accepts-map {ℓ κ} :
    {A : Type ℓ} (P Q : A → Type κ) (m : Expected A)
    → Accepts P m
    → ((a : A) → P a → Q a)
    → Accepts Q m
Accepts-map P Q (ok a) h k = k a h
Accepts-map P Q (err e) h k = tt
Accepts-map P Q thrown h k = tt

pub bind_cong {ℓ} :
    {A : Type ℓ} (m : Expected A) (f g h : A → Expected A)
    → ((a : A) → g a ≡ (f a >>= h))
    → (m >>= g) ≡ (m >>= f >>= h)
bind_cong (ok a) f g h k = k a
bind_cong (err e) f g h k = refl
bind_cong thrown f g h k = refl

pub Expected-cases {ℓ} :
    {A : Type ℓ} (m : Expected A)
    → ((a : A) × (m ≡ ok a)) ⊎ (((e : Error) × (m ≡ err e)) ⊎ (m ≡ thrown))
Expected-cases (ok a) = inl (a, refl)
Expected-cases (err e) = inr (inl (e, refl))
Expected-cases thrown = inr (inr refl)

-- The computation returns a result, and no error.
abbrev pub Returned {ℓ} : {A : Type ℓ} → Expected A → Type ℓ
Returned {A = A} m = (a : A) × (m ≡ ok a)

pub Returned-bind {ℓ κ} :
    {A : Type ℓ} {B : Type κ} (m : Expected A) (f : A → Expected B)
    → Returned m
    → ((a : A) → Returned (f a))
    → Returned (m >>= f)
Returned-bind (ok a) f r k = k a
Returned-bind (err e) f (a, h) k = cc
Returned-bind thrown f (a, h) k = cc
