-- ===== src/Core/ExactInt/Product.antt =====
-- The schoolbook product of src/core/exact_int.h.
use mediadiff.Base.{
  All, List, [], ap, arith, false, if◌then◌else◌, length, length-append, refl, suc, zero, ℕ, ◌*◌,
  ◌++◌, ◌+◌, ◌-◌, ◌<◌, ◌==◌, ◌^◌, ◌∷◌, ◌≡◌, ◌≤◌,
}
use mediadiff.Core.ExactInt.{high_limb, low_limb, mul_row, mul_rows, u64, zeros}
use mediadiff.Core.ExactInt.Value.{IsLimb, limbs_value}
use mathlib.Core.List.{append-nil, append_assoc}

mul_bound : (a b : ℕ) → a < 2 ^ 32 → b < 2 ^ 32 → a * b ≤ (2 ^ 32 - 1) * (2 ^ 32 - 1)
mul_bound a b ha hb = grind arith

-- The step of a row wraps nowhere in uint64_t.
step_fits :
    (x y p c : ℕ)
    → IsLimb x
    → IsLimb y
    → IsLimb p
    → IsLimb c
    → u64 (u64 (u64 (x * y) + p) + c) ≡ x * y + p + c
step_fits x y p c hx hy hp hc = omega (arith, mul_bound x y hx hy)

-- What one row makes of the limbs `qs` at its place and of the untouched limb behind them.
pub record IsRow (limb : ℕ) (bs qs zs : List ℕ) (carry : ℕ) (row : List ℕ) : Type 0 where
  pub out : List ℕ
  pub last : ℕ
  pub shape : row ≡ out ++ last ∷ zs
  pub width : length out ≡ length bs
  pub limbs : All IsLimb out
  pub last_limb : IsLimb last
  pub total : limbs_value (out ++ last ∷ []) ≡ limb * limbs_value bs + limbs_value qs + carry

pub mul_row-IsRow :
    (limb : ℕ) (bs qs zs : List ℕ) (carry : ℕ)
    → IsLimb limb
    → All IsLimb bs
    → All IsLimb qs
    → length qs ≡ length bs
    → IsLimb carry
    → IsRow limb bs qs zs carry (mul_row limb bs (qs ++ 0 ∷ zs) carry)
unfolding mul_row limbs_value
mul_row-IsRow limb [] [] zs carry hl hb hq e hc = record {
  out = [];
  last = carry;
  shape = refl;
  width = refl;
  limbs = tt;
  last_limb = hc;
  total = omega arith;
}
mul_row-IsRow limb [] (q ∷ qs) zs carry hl hb hq e hc = absurd (omega arith)
mul_row-IsRow limb (b ∷ bs) [] zs carry hl hb hq e hc = absurd (omega arith)
mul_row-IsRow limb (b ∷ bs) (q ∷ qs) zs carry hl hb hq e hc =
    let fits = step_fits limb b q carry hl hb.0 hq.0 hc in
    let bound = mul_bound limb b hl hb.0 in
    let t : ℕ = u64 (u64 (u64 (limb * b) + q) + carry) in
    let ih = mul_row-IsRow limb bs qs zs (high_limb t) hl hb.1 hq.1 (omega arith) (omega arith) in
    record {
      out = low_limb t ∷ ih.out;
      last = ih.last;
      shape = ap (◌∷◌ (low_limb t)) ih.shape;
      width = ap suc ih.width;
      limbs = (omega arith, ih.limbs);
      last_limb = ih.last_limb;
      total = omega (arith, ih.total);
    }

limbs_value-append_zero : (qs : List ℕ) → limbs_value (qs ++ 0 ∷ []) ≡ limbs_value qs
unfolding limbs_value
limbs_value-append_zero [] = refl
limbs_value-append_zero (q ∷ qs) = omega (arith, limbs_value-append_zero qs)

-- The row that the loop takes for a limb, also where the limb is zero and the row is skipped.
abbrev row_of : ℕ → List ℕ → List ℕ → List ℕ
row_of limb bs product = if limb == 0 then product else mul_row limb bs product 0

row_of-IsRow :
    (limb : ℕ) (bs qs zs : List ℕ)
    → IsLimb limb
    → All IsLimb bs
    → All IsLimb qs
    → length qs ≡ length bs
    → IsRow limb bs qs zs 0 (row_of limb bs (qs ++ 0 ∷ zs))
row_of-IsRow zero bs qs zs hl hb hq e = record {
  out = qs;
  last = 0;
  shape = refl;
  width = e;
  limbs = hq;
  last_limb = omega arith;
  total = omega (arith, limbs_value-append_zero qs);
}
row_of-IsRow (suc limb) bs qs zs hl hb hq e =
    let runs : (suc limb == 0) ≡ false = ground arith in
    rw runs (mul_row-IsRow (suc limb) bs qs zs 0 hl hb hq e (omega arith))

-- The limbs of a finished product.
pub record IsProduct (xs bs qs out : List ℕ) : Type 0 where
  pub width : length out ≡ length qs + length xs
  pub limbs : All IsLimb out
  pub total : limbs_value out ≡ limbs_value xs * limbs_value bs + limbs_value qs

All-IsLimb-append : (xs ys : List ℕ) → All IsLimb xs → All IsLimb ys → All IsLimb (xs ++ ys)
All-IsLimb-append [] ys hx hy = hy
All-IsLimb-append (x ∷ xs) ys hx hy = (hx.0, All-IsLimb-append xs ys hx.1 hy)

mul_rows_step :
    (x : ℕ) (xs bs : List ℕ) (p : ℕ) (ps : List ℕ) (o : ℕ) (rest : List ℕ)
    → row_of x bs (p ∷ ps) ≡ o ∷ rest
    → mul_rows (x ∷ xs) bs (p ∷ ps) ≡ o ∷ mul_rows xs bs rest
unfolding mul_rows
mul_rows_step x xs bs p ps o rest e = rw (e, mul_rows)

-- One row in front of a product of the remaining limbs.
IsProduct-cons :
    (x : ℕ) (xs bs qs : List ℕ) (o : ℕ) (os : List ℕ) (last : ℕ) (rest : List ℕ)
    → length qs ≡ suc (length os)
    → IsLimb o
    → limbs_value (o ∷ os ++ last ∷ []) ≡ x * limbs_value bs + limbs_value qs + 0
    → IsProduct xs bs (os ++ last ∷ []) rest
    → IsProduct (x ∷ xs) bs qs (o ∷ rest)
unfolding limbs_value
IsProduct-cons x xs bs qs o os last rest e ho total ih = record {
  width = omega (arith, ih.width, length-append os (last ∷ []));
  limbs = (ho, ih.limbs);
  total = omega (arith, ih.total);
}

-- The induction step of the product, with the row's first limb split off.
module _ (x : ℕ) (xs bs : List ℕ) (q : ℕ) (qs : List ℕ) where
  mul_rows_first :
      (out : List ℕ) (last : ℕ)
      → row_of x bs (q ∷ qs ++ 0 ∷ zeros (length xs)) ≡ out ++ last ∷ zeros (length xs)
      → length out ≡ length (q ∷ qs)
      → All IsLimb out
      → limbs_value (out ++ last ∷ []) ≡ x * limbs_value bs + limbs_value (q ∷ qs) + 0
      → ((os : List ℕ)
          → length os ≡ length qs
          → All IsLimb os
          → IsProduct xs bs
              (os ++ last ∷ [])
              (mul_rows xs bs ((os ++ last ∷ []) ++ zeros (length xs))))
      → IsProduct (x ∷ xs) bs (q ∷ qs) (mul_rows (x ∷ xs) bs (q ∷ qs ++ 0 ∷ zeros (length xs)))
  mul_rows_first [] last shape width limbs total rest = absurd (omega arith)
  mul_rows_first (o ∷ os) last shape width limbs total rest =
      rw
        (mul_rows_step x xs bs q (qs ++ 0 ∷ zeros (length xs)) o (os ++ last ∷ zeros (length xs))
          shape)
        (IsProduct-cons x xs bs (q ∷ qs) o os last (mul_rows xs bs (os ++ last ∷ zeros (length xs)))
          (omega arith) limbs.0 total
          (rw (← append_assoc os (last ∷ []) (zeros (length xs))) (rest os (omega arith) limbs.1)))

pub mul_rows-IsProduct :
    (xs bs qs : List ℕ)
    → All IsLimb xs
    → All IsLimb bs
    → All IsLimb qs
    → length qs ≡ length bs
    → 0 < length bs
    → IsProduct xs bs qs (mul_rows xs bs (qs ++ zeros (length xs)))
mul_rows-IsProduct [] bs qs hx hb hq e h = record {
  width = unfold mul_rows in omega (arith, length-append qs (zeros 0));
  limbs = unfold mul_rows in All-IsLimb-append qs [] hq tt;
  total = unfold mul_rows limbs_value in rw append-nil (omega arith);
}
mul_rows-IsProduct (x ∷ xs) bs [] hx hb hq e h = absurd (omega arith)
mul_rows-IsProduct (x ∷ xs) bs (q ∷ qs) hx hb hq e h =
    let row = row_of-IsRow x bs (q ∷ qs) (zeros (length xs)) hx.0 hb hq e in
    mul_rows_first x xs bs q qs row.out row.last row.shape (omega (arith, row.width)) row.limbs
      row.total
      λ os width limbs.
        mul_rows-IsProduct xs bs (os ++ row.last ∷ []) hx.1 hb
          (All-IsLimb-append os (row.last ∷ []) limbs (row.last_limb, tt))
          (omega (arith, length-append os (row.last ∷ []))) h
