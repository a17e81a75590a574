-- ===== src/Compare/Dist/Bins.antt =====
-- `combined` of src/compare/dist.cpp: under each name the two sides' counts.
use mediadiff.Base.{
  +ℤ_parts, All, Bool-cases, List, Option, Text, [], and_then-some, ap, ap₂, arith, eq_of_parts,
  false, if◌then◌else◌, inl, inr, pos, refl, some, subst, sym, text_eq, text_eq_iff, text_eq_refl,
  true, ℤ, ◌+ℤ◌, ◌∙◌, ◌∷◌, ◌≡◌,
}
use mediadiff.Compare.Dist.{Combined, add_bin, add_bins, add_first, add_second, text_lt}
use mediadiff.Compare.Dist.Names.{text_lt-neq, text_lt_trans, text_lt_tri}
use mediadiff.Core.CheckedArith.{checked_add}
use mediadiff.Core.CheckedArith.Exact.{checked_add-some}
use mathlib.Core.Option.{some-injective}

-- The sum of the counts under a name.
unfoldable pub count_of : Text → List (Text × ℤ) → ℤ
unfolding ◌+ℤ◌
count_of name [] = pos 0
count_of name ((other, amount) ∷ rest) =
    let later = count_of name rest in if text_eq other name then amount +ℤ later else later

-- The counts of a name, which are zero where the name is missing.
unfoldable pub slot_of : Text → Combined → ℤ × ℤ
slot_of name [] = (pos 0, pos 0)
slot_of name ((other, slot) ∷ rest) =
    let later = slot_of name rest in if text_eq other name then slot else later

abbrev pub Above : Text → Combined → Type 0
Above name c = All (λ e. text_lt name e.0 ≡ true) c

abbrev pub IsSorted : Combined → Type 0
IsSorted [] = Unit
IsSorted ((name, slot) ∷ rest) = Above name rest × IsSorted rest

Above-trans : (m n : Text) (c : Combined) → text_lt m n ≡ true → Above n c → Above m c
Above-trans m n [] l h = tt
Above-trans m n (e ∷ c) l h = (text_lt_trans m n e.0 l h.0, Above-trans m n c l h.1)

slot_of-Above : (name : Text) (c : Combined) → Above name c → slot_of name c ≡ (pos 0, pos 0)
unfolding slot_of
slot_of-Above name [] h = refl
slot_of-Above name ((other, slot) ∷ rest) h =
    rw ((text_lt-neq name other h.0).1) (slot_of-Above name rest h.1)

-- What adding a count under a name does.
record Adds (step : ℤ × ℤ → Option (ℤ × ℤ)) (name : Text) (c new : Combined) : Type 0 where
  pub sorted : IsSorted new
  pub here : step (slot_of name c) ≡ some (slot_of name new)
  pub others : (m : Text) → text_eq name m ≡ false → slot_of m new ≡ slot_of m c
  pub above : (m : Text) → text_lt m name ≡ true → Above m c → Above m new

add_bin-Adds :
    (step : ℤ × ℤ → Option (ℤ × ℤ)) (name : Text) (c new : Combined)
    → IsSorted c
    → add_bin step name c ≡ some new
    → Adds step name c new
unfolding add_bin slot_of
add_bin-Adds step name [] new h = λ e.
    let r = and_then-some (step (pos 0, pos 0)) (λ slot. some ((name, slot) ∷ [])) new e in
    subst (Adds step name []) (some-injective _ _ r.2) (record {
      sorted = (tt, tt);
      here = rw (text_eq_refl name) r.1;
      others = λ m n. rw n refl;
      above = λ m l a. (l, tt);
    })
add_bin-Adds step name ((other, slot) ∷ rest) new h = elim (Bool-cases (text_lt other name)) [
  | inl l ↦ rw l (λ e.
      let r = and_then-some (add_bin step name rest) (λ r. some ((other, slot) ∷ r)) new e in
      let a = add_bin-Adds step name rest r.0 h.1 r.1 in
      let ne = (text_lt-neq other name l).0 in
      subst (Adds step name ((other, slot) ∷ rest)) (some-injective _ _ r.2) (record {
        sorted = (a.above other l h.0, a.sorted);
        here = rw ne a.here;
        others = λ m n. elim (Bool-cases (text_eq other m)) [
          | inl q ↦ rw q refl
          | inr q ↦ rw q (a.others m n)
        ];
        above = λ m k u. (u.0, a.above m k u.1);
      }))
  | inr nl ↦ elim (Bool-cases (text_lt name other)) [
    | inl g ↦
        rw (nl, g)
          (λ e.
            let r =
              and_then-some (step (pos 0, pos 0)) (λ s. some ((name, s) ∷ (other, slot) ∷ rest)) new
                e in
            let ne = (text_lt-neq name other g).1 in
            let up = Above-trans name other rest g h.0 in
            subst (Adds step name ((other, slot) ∷ rest)) (some-injective _ _ r.2) (record {
              sorted = ((g, up), h);
              here = rw (text_eq_refl name, ne, slot_of-Above name rest up) r.1;
              others = λ m n. rw n refl;
              above = λ m k u. (k, u);
            }))
    | inr ng ↦
        rw (nl, ng)
          (λ e.
            let r = and_then-some (step slot) (λ s. some ((other, s) ∷ rest)) new e in
            let same = text_lt_tri other name nl ng in
            subst (Adds step name ((other, slot) ∷ rest)) (some-injective _ _ r.2) (record {
              sorted = h;
              here = rw ((text_eq_iff other name).1 same) r.1;
              others = λ m n. rw (subst (λ x. text_eq x m ≡ false) (sym same) n) refl;
              above = λ m k u. u;
            }))
  ]
]

-- A step that adds its count to the slot.
module _ (step : ℤ → ℤ × ℤ → Option (ℤ × ℤ)) (put : ℤ → ℤ × ℤ → ℤ × ℤ)
    (is_exact : (n : ℤ) (s r : ℤ × ℤ) → step n s ≡ some r → r ≡ put n s)
    (put_zero : (s : ℤ × ℤ) → put (pos 0) s ≡ s)
    (put_put : (m n : ℤ) (s : ℤ × ℤ) → put n (put m s) ≡ put (m +ℤ n) s) where
  add_bins-slots :
      (bins : List (Text × ℤ)) (c new : Combined)
      → IsSorted c
      → add_bins step bins c ≡ some new
      → IsSorted new × ((m : Text) → slot_of m new ≡ put (count_of m bins) (slot_of m c))
  unfolding add_bins count_of
  add_bins-slots [] c new h e =
      let same = some-injective _ _ e in
      (subst IsSorted same h, λ m. ap (slot_of m) (sym same) ∙ sym (put_zero (slot_of m c)))
  add_bins-slots ((name, amount) ∷ rest) c new h e =
      let r = and_then-some (add_bin (step amount) name c) (λ x. add_bins step rest x) new e in
      let a = add_bin-Adds (step amount) name c r.0 h r.1 in
      let later = add_bins-slots rest r.0 new a.sorted r.2 in
      (
        later.0,
        λ m. later.1 m ∙ elim (Bool-cases (text_eq name m)) [
          | inl q ↦
              let same = (text_eq_iff name m).0 q in
              rw q (
                ap (put (count_of m rest)) (
                  subst (λ x. slot_of x r.0 ≡ put amount (slot_of x c)) same
                    (is_exact amount (slot_of name c) (slot_of name r.0) a.here))
                ∙ put_put amount (count_of m rest) (slot_of m c))
          | inr n ↦ rw n (ap (put (count_of m rest)) (a.others m n))
        ],
      )

pub +ℤ_zero : (a : ℤ) → a +ℤ pos 0 ≡ a
unfolding ◌+ℤ◌
+ℤ_zero a = ground arith

pub zero_+ℤ : (a : ℤ) → pos 0 +ℤ a ≡ a
unfolding ◌+ℤ◌
zero_+ℤ a = ground arith

pub +ℤ_assoc : (a b c : ℤ) → (a +ℤ b) +ℤ c ≡ a +ℤ (b +ℤ c)
+ℤ_assoc a b c =
    eq_of_parts ((a +ℤ b) +ℤ c) (a +ℤ (b +ℤ c))
      (omega (arith, +ℤ_parts (a +ℤ b) c, +ℤ_parts a b, +ℤ_parts a (b +ℤ c), +ℤ_parts b c))

abbrev put_first : ℤ → ℤ × ℤ → ℤ × ℤ
put_first n (a, b) = (a +ℤ n, b)

abbrev put_second : ℤ → ℤ × ℤ → ℤ × ℤ
put_second n (a, b) = (a, b +ℤ n)

add_first-exact : (n : ℤ) (s r : ℤ × ℤ) → add_first n s ≡ some r → r ≡ put_first n s
add_first-exact n (a, b) r e =
    let x = and_then-some (checked_add a n) (λ s. some (s, b)) r e in
    sym (some-injective _ _ x.2) ∙ ap (λ s. (s, b)) (checked_add-some a n x.0 x.1)

add_second-exact : (n : ℤ) (s r : ℤ × ℤ) → add_second n s ≡ some r → r ≡ put_second n s
add_second-exact n (a, b) r e =
    let x = and_then-some (checked_add b n) (λ s. some (a, s)) r e in
    sym (some-injective _ _ x.2) ∙ ap (λ s. (a, s)) (checked_add-some b n x.0 x.1)

-- The combined bins are sorted, and under every name they hold the two sides' sums.
pub combined-slots :
    (bs cs : List (Text × ℤ)) (c new : Combined)
    → add_bins add_first bs [] ≡ some c
    → add_bins add_second cs c ≡ some new
    → IsSorted new × ((m : Text) → slot_of m new ≡ (count_of m bs, count_of m cs))
unfolding slot_of
combined-slots bs cs c new e k =
    let first =
      add_bins-slots add_first put_first add_first-exact (λ (a, b). ap (λ x. (x, b)) (+ℤ_zero a))
        (λ m n (a, b). ap (λ x. (x, b)) (+ℤ_assoc a m n)) bs [] c tt e in
    let second =
      add_bins-slots add_second put_second add_second-exact (λ (a, b). ap (λ x. (a, x)) (+ℤ_zero b))
        (λ m n (a, b). ap (λ x. (a, x)) (+ℤ_assoc b m n)) cs c new first.0 k in
    (
      second.0,
      λ m.
          second.1 m
          ∙ ap (put_second (count_of m cs)) (first.1 m)
          ∙ ap₂ (λ x y. (x, y)) (zero_+ℤ (count_of m bs)) (zero_+ℤ (count_of m cs)),
    )

-- An entry of sorted bins is the one that its name finds.
pub entries-slots : (c : Combined) → IsSorted c → All (λ e. slot_of e.0 c ≡ e.1) c
unfolding slot_of
entries-slots [] h = tt
entries-slots ((name, slot) ∷ rest) h =
    (rw (text_eq_refl name) refl, behind rest h.0 (entries-slots rest h.1))
  where
    behind :
        (es : Combined)
        → Above name es
        → All (λ e. slot_of e.0 rest ≡ e.1) es
        → All (λ e. slot_of e.0 ((name, slot) ∷ rest) ≡ e.1) es
    behind [] a s = tt
    behind (e ∷ es) a s = (rw ((text_lt-neq name e.0 a.0).0) s.0, behind es a.1 s.1)
