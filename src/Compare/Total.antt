-- ===== src/Compare/Total.antt =====
-- When `compare_fingerprints` of src/compare/engine.cpp returns findings, and what stops it.
use mediadiff.Base.{
  All, Bool, Bool-cases, Expected, List, Option, Option-cases, Returned, Text, [], ap, err, false,
  if◌then◌else◌, inl, inr, is_empty, map, none, not, ok, refl, some, subst, sym, thrown, true, ℕ,
  ◌>>=◌, ◌||◌, ◌∷◌, ◌≡◌, ◌⊎◌,
}
use mediadiff.Compare.{Comparator}
use mediadiff.Compare.Engine.{
  KeyMap, PairKey, all_keys, find_key, index_from, insert_pair, key_for, key_lt,
}
use mediadiff.Compare.Family.{resolve_family}
use mediadiff.Compare.Findings.{
  is_program, observed_mismatch, pair_evidence, unpaired, with_evidence,
}
use mediadiff.Compare.Keys.{HasKey, all_keys-IsAscending}
use mediadiff.Compare.Pairs.{
  compare_check, compare_fingerprints, compare_key, compare_keys, compare_paired, compare_sides,
  compare_values, complete_policy, is_demoted,
}
use mediadiff.Compare.Semantics.{comparator_for}
use mediadiff.Core.Model.{Fingerprint, Measurement, Vendor, is_not_skipped}
use mediadiff.Core.Policy.{Policy}
use mediadiff.Core.Registry.{CheckDef, CheckRegistry, Semantic, at}
use mathlib.Core.List.{Memᴰ}
use mathlib.Core.List.Memᴰ.{head, tail}
use mathlib.Core.Option.{none-ne-some, some-injective}

-- The key's check is in the registry.
abbrev pub InRegistry : CheckRegistry → ℕ → Type 0
InRegistry registry index = (check : CheckDef) × (at registry index ≡ some check)

HasKey-InRegistry :
    {Json : Type 0} (registry : CheckRegistry) (k : PairKey)
    (measurements : List (Measurement Json))
    → All (λ m. InRegistry registry m.check_index) measurements
    → HasKey k measurements
    → InRegistry registry k.check_index
HasKey-InRegistry registry k [] h n = absurd n
HasKey-InRegistry registry k (m ∷ rest) h (inl e) =
    subst (λ (x : PairKey). InRegistry registry x.check_index) (sym e) h.0
HasKey-InRegistry registry k (m ∷ rest) h (inr n) = HasKey-InRegistry registry k rest h.1 n

-- The second computation stops as the first does: with its error, or with an exception.
abbrev pub StopsAlike : {A B : Type 0} → Expected A → Expected B → Type 0
StopsAlike (ok a) m = ⊥
StopsAlike (err e) m = m ≡ err e
StopsAlike thrown m = m ≡ thrown

StopsAlike-bind :
    {A B C : Type 0} (x : Expected A) (m : Expected B) (f : B → Expected C)
    → StopsAlike x m
    → StopsAlike x (m >>= f)
StopsAlike-bind (ok a) m f h = h
StopsAlike-bind (err e) m f h = ap (λ n. n >>= f) h
StopsAlike-bind thrown m f h = ap (λ n. n >>= f) h

StopsAlike-self : {A : Type 0} (m : Expected A) → Returned m ⊎ StopsAlike m m
StopsAlike-self (ok a) = inl (a, refl)
StopsAlike-self (err e) = inr refl
StopsAlike-self thrown = inr refl

module _ {Json : Type 0} where
  abbrev map_values : KeyMap Json → List (Measurement Json)
  map_values pairs = map (λ pair. pair.1) pairs

  insert_pair-values :
      (k : PairKey) (n m : Measurement Json) (pairs : KeyMap Json)
      → Memᴰ m (map_values (insert_pair k n pairs))
      → (m ≡ n) ⊎ Memᴰ m (map_values pairs)
  unfolding insert_pair
  insert_pair-values k n m [] (head e) = inl e
  insert_pair-values k n m [] (tail h) = elim h [ ]
  insert_pair-values k n m ((other, o) ∷ rest) h =
      by_order (key_lt other k) (key_lt k other) (insert_pair-values k n m rest) h
    where
      pass : (m ≡ n) ⊎ Memᴰ m (map_values rest) → (m ≡ n) ⊎ Memᴰ m (o ∷ map_values rest)
      pass (inl e) = inl e
      pass (inr x) = inr (tail x)

      by_order :
          (a b : Bool)
          → (Memᴰ m (map_values (insert_pair k n rest)) → (m ≡ n) ⊎ Memᴰ m (map_values rest))
          → Memᴰ m (
              map_values (
                if a
                then (other, o) ∷ insert_pair k n rest
                else if b
                then (k, n) ∷ (other, o) ∷ rest
                else (other, n) ∷ rest))
          → (m ≡ n) ⊎ Memᴰ m (o ∷ map_values rest)
      by_order true b ih (head e) = inr (head e)
      by_order true b ih (tail x) = pass (ih x)
      by_order false true ih (head e) = inl e
      by_order false true ih (tail x) = inr x
      by_order false false ih (head e) = inl e
      by_order false false ih (tail x) = inr (tail x)

  index_from-values :
      (m : Measurement Json) (measurements : List (Measurement Json)) (pairs : KeyMap Json)
      → Memᴰ m (map_values (index_from pairs measurements))
      → Memᴰ m measurements ⊎ Memᴰ m (map_values pairs)
  unfolding index_from
  index_from-values m [] pairs h = inr h
  index_from-values m (n ∷ rest) pairs h =
      elim (index_from-values m rest (insert_pair (key_for n) n pairs) h) [
        | inl x ↦ inl (tail x)
        | inr x ↦ elim (insert_pair-values (key_for n) n m pairs x) [
          | inl e ↦ inl (head e)
          | inr y ↦ inr y
        ]
      ]

  find_key-values :
      (k : PairKey) (m : Measurement Json) (pairs : KeyMap Json)
      → find_key k pairs ≡ some m
      → Memᴰ m (map_values pairs)
  unfolding find_key
  find_key-values k m [] e = absurd (none-ne-some m e)
  find_key-values k m ((other, n) ∷ rest) e =
      by_test (key_lt other k || key_lt k other) (find_key-values k m rest) e
    where
      by_test :
          (b : Bool)
          → (find_key k rest ≡ some m → Memᴰ m (map_values rest))
          → (if b then find_key k rest else some n) ≡ some m
          → Memᴰ m (n ∷ map_values rest)
      by_test true ih f = tail (ih f)
      by_test false ih f = head (sym (some-injective _ _ f))

  -- What is found under a key is one of the measurements.
  find_key-Mem :
      (k : PairKey) (m : Measurement Json) (measurements : List (Measurement Json))
      → find_key k (index_from [] measurements) ≡ some m
      → Memᴰ m measurements
  find_key-Mem k m measurements e =
      elim (index_from-values m measurements []
        (find_key-values k m (index_from [] measurements) e)) [ inl x ↦ x | inr x ↦ elim x [ ] ]

module _ (V : Vendor) (comparator_for : Semantic → Comparator V.Json)
    (baseline candidate : List (Measurement V.Json)) (registry : CheckRegistry)
    (policy : Policy) where
  -- The comparator of a registered check stops on two of the measurements, and this stops alike.
  abbrev pub ComparatorStops : {A : Type 0} → Expected A → Type 0
  ComparatorStops m =
      (check : CheckDef) × (index : ℕ) × (at registry index ≡ some check)
      × (b : Measurement V.Json) × (c : Measurement V.Json) × Memᴰ b baseline
      × Memᴰ c candidate
      × StopsAlike (comparator_for check.semantic check b c policy) m

  abbrev pub ReturnsOrStops : {A : Type 0} → Expected A → Type 0
  ReturnsOrStops m = Returned m ⊎ ComparatorStops m

  ReturnsOrStops-bind :
      {A B : Type 0} (m : Expected A) (f : A → Expected B)
      → ReturnsOrStops m
      → ((a : A) → ReturnsOrStops (f a))
      → ReturnsOrStops (m >>= f)
  ReturnsOrStops-bind (ok a) f r k = k a
  ReturnsOrStops-bind (err e) f (inl (a, h)) k = cc
  ReturnsOrStops-bind thrown f (inl (a, h)) k = cc
  ReturnsOrStops-bind (err e) f (inr (check, i, r, b, c, mb, mc, s)) k = inr (
    check,
    i,
    r,
    b,
    c,
    mb,
    mc,
    StopsAlike-bind (comparator_for check.semantic check b c policy) (err e) f s,
  )
  ReturnsOrStops-bind thrown f (inr (check, i, r, b, c, mb, mc, s)) k = inr (
    check,
    i,
    r,
    b,
    c,
    mb,
    mc,
    StopsAlike-bind (comparator_for check.semantic check b c policy) thrown f s,
  )

  compare_paired-ReturnsOrStops :
      (check : CheckDef) (key : PairKey) (index : ℕ) (b c : Measurement V.Json)
      → at registry index ≡ some check
      → Memᴰ b baseline
      → Memᴰ c candidate
      → ReturnsOrStops (compare_paired V comparator_for check policy key b c)
  unfolding compare_paired compare_values
  compare_paired-ReturnsOrStops check key index b c r mb mc =
      let own : ReturnsOrStops (comparator_for check.semantic check b c policy) =
        elim (StopsAlike-self (comparator_for check.semantic check b c policy)) [
          | inl x ↦ inl x
          | inr s ↦ inr (check, index, r, b, c, mb, mc, s)
        ] in
      let values =
        ReturnsOrStops-bind (comparator_for check.semantic check b c policy)
          (λ f. ok (with_evidence V (pair_evidence V b c) f)) own (λ f. inl (_, refl)) in
      elim (Bool-cases (not (is_not_skipped b.skip_reason) || not (is_not_skipped c.skip_reason))) [
        | inl s ↦ rw s (inl (_, refl))
        | inr n ↦ elim (Option-cases (observed_mismatch V check b c)) [
          | inl e ↦ rw (n, e) values
          | inr (o, e) ↦ rw (n, e) (inl (_, refl))
        ]
      ]

  unpaired-ReturnsOrStops :
      (check : CheckDef) (key : PairKey) (b c : Option (Measurement V.Json))
      → ReturnsOrStops (unpaired V check key b c)
  unpaired-ReturnsOrStops check key b c = elim (Bool-cases (is_program key.scope_kind)) [
    | inl p ↦ rw p (inl (_, refl))
    | inr n ↦ rw n (inl (_, refl))
  ]

  compare_sides-ReturnsOrStops :
      (check : CheckDef) (key : PairKey) (index : ℕ) (b c : Option (Measurement V.Json))
      → at registry index ≡ some check
      → ((m : Measurement V.Json) → b ≡ some m → Memᴰ m baseline)
      → ((m : Measurement V.Json) → c ≡ some m → Memᴰ m candidate)
      → ReturnsOrStops (compare_sides V comparator_for check policy key b c)
  unfolding compare_sides
  compare_sides-ReturnsOrStops check key index (some b) (some c) r mb mc =
      ReturnsOrStops-bind (compare_paired V comparator_for check policy key b c) (λ f. ok (some f))
        (compare_paired-ReturnsOrStops check key index b c r (mb b refl) (mc c refl))
        (λ f. inl (_, refl))
  compare_sides-ReturnsOrStops check key index (some b) none r mb mc =
      unpaired-ReturnsOrStops check key (some b) none
  compare_sides-ReturnsOrStops check key index none c r mb mc =
      unpaired-ReturnsOrStops check key none c

  compare_check-ReturnsOrStops :
      (bf cf : Text) (key : PairKey) (check : CheckDef)
      → at registry key.check_index ≡ some check
      → ReturnsOrStops (
          compare_check V comparator_for policy bf cf
            (index_from [] baseline)
            (index_from [] candidate)
            key
            (some check))
  unfolding compare_check
  compare_check-ReturnsOrStops bf cf key check r = elim (Bool-cases (is_demoted bf cf check)) [
    | inl d ↦ rw d (inl (_, refl))
    | inr n ↦ rw n (
        compare_sides-ReturnsOrStops check key key.check_index
          (find_key key (index_from [] baseline)) (find_key key (index_from [] candidate)) r
          (λ m e. find_key-Mem key m baseline e) (λ m e. find_key-Mem key m candidate e))
  ]

  compare_keys-ReturnsOrStops :
      (bf cf : Text) (ks : List PairKey)
      → ((k : PairKey) → Memᴰ k ks → InRegistry registry k.check_index)
      → ReturnsOrStops (
          compare_keys V comparator_for registry policy bf cf
            (index_from [] baseline)
            (index_from [] candidate)
            ks)
  unfolding compare_keys compare_key
  compare_keys-ReturnsOrStops bf cf [] h = inl (_, refl)
  compare_keys-ReturnsOrStops bf cf (k ∷ ks) h =
      let here = h k (head refl) in
      let bs = index_from [] baseline in
      let cs = index_from [] candidate in
      ReturnsOrStops-bind
        (compare_check V comparator_for policy bf cf bs cs k (at registry k.check_index))
        (λ o.
          compare_keys V comparator_for registry policy bf cf bs cs ks
          >>= (λ fs. ok (elim o [ none ↦ fs | some f ↦ f ∷ fs ])))
        (subst (λ o. ReturnsOrStops (compare_check V comparator_for policy bf cf bs cs k o))
          (sym here.1) (compare_check-ReturnsOrStops bf cf k here.0 here.1))
        (λ o.
          ReturnsOrStops-bind (compare_keys V comparator_for registry policy bf cf bs cs ks)
            (λ fs. ok (elim o [ none ↦ fs | some f ↦ f ∷ fs ]))
            (compare_keys-ReturnsOrStops bf cf ks (λ x m. h x (tail m))) (λ fs. inl (_, refl)))

-- Whatever the comparators do: where every measurement's check index is in the registry, a
-- comparison under a resolved policy returns its findings, or it stops with the error or the
-- exception with which the comparator of a registered check stops on a measurement of the baseline
-- and one of the candidate. Nothing else stops it.
pub compare_fingerprints-ReturnsOrStops :
    (V : Vendor) (comparator_for : Semantic → Comparator V.Json)
    (baseline candidate : Fingerprint V.Json) (policy : Policy) (registry : CheckRegistry)
    → is_empty policy.per_check ≡ false
    → All (λ m. InRegistry registry m.check_index) baseline.measurements
    → All (λ m. InRegistry registry m.check_index) candidate.measurements
    → ReturnsOrStops V comparator_for baseline.measurements candidate.measurements registry policy
        (compare_fingerprints V comparator_for baseline candidate policy registry)
unfolding compare_fingerprints complete_policy
compare_fingerprints-ReturnsOrStops V comparator_for baseline candidate policy registry e hb hc =
    let bs = index_from [] baseline.measurements in
    let cs = index_from [] candidate.measurements in
    rw e (
      compare_keys-ReturnsOrStops V comparator_for baseline.measurements candidate.measurements
        registry policy (resolve_family baseline registry) (resolve_family candidate registry)
        (all_keys bs cs)
        (λ k m.
          elim (((all_keys-IsAscending baseline.measurements candidate.measurements).1 k).0 m) [
            | inl n ↦ HasKey-InRegistry registry k baseline.measurements hb n
            | inr n ↦ HasKey-InRegistry registry k candidate.measurements hc n
          ]))
