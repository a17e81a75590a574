-- ===== src/Timeline/Monotonic/Sorting.antt =====
-- The sort by value and index of src/analyzers/timeline/monotonic.cpp keeps the samples and orders
-- their values.
use mediadiff.Base.{
  Bool, List, [], arith, eqb_ℤ, eqb_ℤ_iff, false, if◌then◌else◌, past_back, past_front, refl, true,
  ◌↔◌, ◌∷◌, ◌≡◌, ◌≤ℤ◌,
}
use mediadiff.Timeline.{AxisSample}
use mediadiff.Timeline.Monotonic.{insert_sample, sample_lt, sort_samples}
use mathlib.Core.List.{Memᴰ}
use mathlib.Core.List.Memᴰ.{head, tail}

-- Two entries of a list, in either order.
pub data TwoOf {ℓ} {A : Type ℓ} (a b : A) : List A → Type ℓ where
  in_front : {x : A} {xs : List A} → a ≡ x → Memᴰ b xs → TwoOf a b (x ∷ xs)
  in_back : {x : A} {xs : List A} → b ≡ x → Memᴰ a xs → TwoOf a b (x ∷ xs)
  in_rest : {x : A} {xs : List A} → TwoOf a b xs → TwoOf a b (x ∷ xs)

-- No value is below the one before it.
abbrev pub OrderedAfter : AxisSample → List AxisSample → Type 0
OrderedAfter prev [] = Unit
OrderedAfter prev (s ∷ others) = (prev.value ≤ℤ s.value) × OrderedAfter s others

abbrev pub Ordered : List AxisSample → Type 0
Ordered [] = Unit
Ordered (s ∷ others) = OrderedAfter s others

-- The step of an insertion by its test.
abbrev inserted_by :
    Bool → AxisSample → AxisSample → List AxisSample → List AxisSample → List AxisSample
inserted_by b s o others later = if b then o ∷ later else s ∷ o ∷ others

module _ (x : AxisSample) where
  Mem-step :
      (b : Bool) (s o : AxisSample) (others later : List AxisSample)
      → (Memᴰ x later ↔ Memᴰ x (s ∷ others))
      → Memᴰ x (inserted_by b s o others later) ↔ Memᴰ x (s ∷ o ∷ others)
  Mem-step true s o others later i =
      (past_front x s o later others i.0, past_back x s o later others i.1)
  Mem-step false s o others later i = (λ m. m, λ m. m)

  pub insert_sample-Mem :
      (s : AxisSample) (others : List AxisSample)
      → Memᴰ x (insert_sample s others) ↔ Memᴰ x (s ∷ others)
  unfolding insert_sample
  insert_sample-Mem s [] = (λ m. m, λ m. m)
  insert_sample-Mem s (o ∷ others) =
      Mem-step (sample_lt o s) s o others (insert_sample s others) (insert_sample-Mem s others)

module _ (a b : AxisSample) where
  TwoOf-step :
      (t : Bool) (s o : AxisSample) (others later : List AxisSample)
      → ((x : AxisSample) → Memᴰ x later ↔ Memᴰ x (s ∷ others))
      → (TwoOf a b later ↔ TwoOf a b (s ∷ others))
      → TwoOf a b (inserted_by t s o others later) ↔ TwoOf a b (s ∷ o ∷ others)
  TwoOf-step true s o others later m i = (two_out, two_in)
    where
      after_o :
          (x y : AxisSample)
          → x ≡ o
          → Memᴰ y (s ∷ others)
          → (TwoOf x y (s ∷ o ∷ others)) × (TwoOf y x (s ∷ o ∷ others))
      after_o x y e (head f) = (in_back f (head e), in_front f (head e))
      after_o x y e (tail k) = (in_rest (in_front e k), in_rest (in_back e k))

      two_swap : TwoOf a b (s ∷ others) → TwoOf a b (s ∷ o ∷ others)
      two_swap (in_front e k) = in_front e (tail k)
      two_swap (in_back e k) = in_back e (tail k)
      two_swap (in_rest k) = in_rest (in_rest k)

      two_out : TwoOf a b (o ∷ later) → TwoOf a b (s ∷ o ∷ others)
      two_out (in_front e k) = (after_o a b e ((m b).0 k)).0
      two_out (in_back e k) = (after_o b a e ((m a).0 k)).1
      two_out (in_rest k) = two_swap (i.0 k)

      two_in : TwoOf a b (s ∷ o ∷ others) → TwoOf a b (o ∷ later)
      two_in (in_front e (head f)) = in_back f ((m a).1 (head e))
      two_in (in_front e (tail k)) = in_rest (i.1 (in_front e k))
      two_in (in_back e (head f)) = in_front f ((m b).1 (head e))
      two_in (in_back e (tail k)) = in_rest (i.1 (in_back e k))
      two_in (in_rest (in_front e k)) = in_front e ((m b).1 (tail k))
      two_in (in_rest (in_back e k)) = in_back e ((m a).1 (tail k))
      two_in (in_rest (in_rest k)) = in_rest (i.1 (in_rest k))
  TwoOf-step false s o others later m i = (λ k. k, λ k. k)

  insert_sample-TwoOf :
      (s : AxisSample) (others : List AxisSample)
      → TwoOf a b (insert_sample s others) ↔ TwoOf a b (s ∷ others)
  unfolding insert_sample
  insert_sample-TwoOf s [] = (λ k. k, λ k. k)
  insert_sample-TwoOf s (o ∷ others) =
      TwoOf-step (sample_lt o s) s o others (insert_sample s others)
        (λ x. insert_sample-Mem x s others) (insert_sample-TwoOf s others)

sort_samples-Mem :
    (x : AxisSample) (found : List AxisSample) → Memᴰ x (sort_samples found) ↔ Memᴰ x found
unfolding sort_samples
sort_samples-Mem x [] = (λ m. m, λ m. m)
sort_samples-Mem x (s ∷ others) =
    let i = insert_sample-Mem x s (sort_samples others) in
    let r = sort_samples-Mem x others in
    (
      λ m. elim (i.0 m) [ head e ↦ head e | tail k ↦ tail (r.0 k) ],
      λ m. i.1 (elim m [ head e ↦ head e | tail k ↦ tail (r.1 k) ]),
    )

-- Sorting keeps every two entries.
pub sort_samples-TwoOf :
    (a b : AxisSample) (found : List AxisSample) → TwoOf a b (sort_samples found) ↔ TwoOf a b found
unfolding sort_samples
sort_samples-TwoOf a b [] = (λ k. k, λ k. k)
sort_samples-TwoOf a b (s ∷ others) =
    let i = insert_sample-TwoOf a b s (sort_samples others) in
    let r = sort_samples-TwoOf a b others in
    let ma = sort_samples-Mem a others in
    let mb = sort_samples-Mem b others in
    (
      λ m. elim (i.0 m) [
        | in_front e k ↦ in_front e (mb.0 k)
        | in_back e k ↦ in_back e (ma.0 k)
        | in_rest k ↦ in_rest (r.0 k)
      ],
      λ m. i.1 (elim m [
        | in_front e k ↦ in_front e (mb.1 k)
        | in_back e k ↦ in_back e (ma.1 k)
        | in_rest k ↦ in_rest (r.1 k)
      ]),
    )

order_by_test :
    (o s : AxisSample) (t : Bool)
    → eqb_ℤ o.value s.value ≡ t
    → (sample_lt o s ≡ true → o.value ≤ℤ s.value) × (sample_lt o s ≡ false → s.value ≤ℤ o.value)
order_by_test o s true e =
    let v = (eqb_ℤ_iff o.value s.value).0 e in (λ _. rw v (omega arith), λ _. rw v (omega arith))
order_by_test o s false e = rw e (λ h. ground (arith, h), λ h. ground (arith, h))

-- What the comparison says of the values.
sample_order :
    (o s : AxisSample)
    → (sample_lt o s ≡ true → o.value ≤ℤ s.value) × (sample_lt o s ≡ false → s.value ≤ℤ o.value)
sample_order o s = order_by_test o s (eqb_ℤ o.value s.value) refl

-- An insertion after a sample that is not above either list keeps the order.
Ordered-step :
    (t : Bool) (p s o : AxisSample) (others later : List AxisSample)
    → sample_lt o s ≡ t
    → p.value ≤ℤ s.value
    → OrderedAfter p (o ∷ others)
    → (o.value ≤ℤ s.value → OrderedAfter o later)
    → OrderedAfter p (inserted_by t s o others later)
Ordered-step true p s o others later e h (k, ks) i = (k, i ((sample_order o s).0 e))
Ordered-step false p s o others later e h (k, ks) i = (h, ((sample_order o s).1 e, ks))

insert_sample-OrderedAfter :
    (p s : AxisSample) (others : List AxisSample)
    → p.value ≤ℤ s.value
    → OrderedAfter p others
    → OrderedAfter p (insert_sample s others)
unfolding insert_sample
insert_sample-OrderedAfter p s [] h k = (h, tt)
insert_sample-OrderedAfter p s (o ∷ others) h k =
    Ordered-step (sample_lt o s) p s o others (insert_sample s others) refl h k
      (λ l. insert_sample-OrderedAfter o s others l k.1)

insert_sample-Ordered :
    (s : AxisSample) (others : List AxisSample) → Ordered others → Ordered (insert_sample s others)
unfolding insert_sample
insert_sample-Ordered s [] k = tt
insert_sample-Ordered s (o ∷ others) k = first_place (sample_lt o s) refl
  where
    first_place :
        (t : Bool) → sample_lt o s ≡ t → Ordered (inserted_by t s o others (insert_sample s others))
    first_place true e = insert_sample-OrderedAfter o s others ((sample_order o s).0 e) k
    first_place false e = ((sample_order o s).1 e, k)

-- Sorting orders the values.
pub sort_samples-Ordered : (found : List AxisSample) → Ordered (sort_samples found)
unfolding sort_samples
sort_samples-Ordered [] = tt
sort_samples-Ordered (s ∷ others) =
    insert_sample-Ordered s (sort_samples others) (sort_samples-Ordered others)
