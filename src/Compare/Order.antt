-- ===== src/Compare/Order.antt =====
-- The order and the identity of the findings of src/compare/engine.cpp.
use mediadiff.Base.{
  Accepts, Accepts-all, Accepts-bind, Accepts-if, Bool, Bool-cases, List, Option, Option-cases,
  Returns, Text, [], ap, false, if◌then◌else◌, inl, inr, is_empty, map, none, not, ok, refl, some,
  subst, sym, true, ◌>>=◌, ◌||◌, ◌∙◌, ◌∷◌, ◌≡◌,
}
use mediadiff.Compare.{Comparator, IsComparator}
use mediadiff.Compare.Engine.{
  KeyMap, PairKey, all_keys, find_key, index_from, insert_pair, key_for, key_lt,
}
use mediadiff.Compare.Family.{resolve_family}
use mediadiff.Compare.Findings.{
  demoted_finding, is_program, mismatch_finding, observed_mismatch, pair_evidence, skipped_finding,
  topology_finding, unpaired, with_evidence,
}
use mediadiff.Compare.Keys.{key_lt-total}
use mediadiff.Compare.Pairs.{
  compare_check, compare_fingerprints, compare_key, compare_keys, compare_paired, compare_sides,
  compare_values, complete_policy, is_demoted,
}
use mediadiff.Core.Model.{Finding, Fingerprint, Measurement, Scope, Vendor, is_not_skipped}
use mediadiff.Core.Policy.{Policy}
use mediadiff.Core.Registry.{CheckDef, CheckRegistry, Semantic, ValueKind, at}
use mathlib.Core.Option.{some-injective}

-- A finding for the key's check and scope.
abbrev pub IsReport : {Json : Type 0} → CheckRegistry → PairKey → Finding Json → Type 0
IsReport registry key f =
    (check : CheckDef) × (at registry key.check_index ≡ some check)
    × (f.id ≡ check.id)
    × (f.scope ≡ record { kind = key.scope_kind; index = key.scope_index })

-- The findings are for some of the keys, in the order of the keys and one for each.
pub data Reports {Json : Type 0} (registry : CheckRegistry)
    : List PairKey → List (Finding Json) → Type 0 where
  no_keys : Reports registry [] []
  passed_over :
      {k : PairKey} {ks : List PairKey} {fs : List (Finding Json)}
      → Reports registry ks fs
      → Reports registry (k ∷ ks) fs
  reported :
      {k : PairKey} {ks : List PairKey} {f : Finding Json} {fs : List (Finding Json)}
      → IsReport registry k f
      → Reports registry ks fs
      → Reports registry (k ∷ ks) (f ∷ fs)

module _ {Json : Type 0} where
  abbrev AreIndexed : KeyMap Json → Type 0
  AreIndexed [] = Unit
  AreIndexed ((k, m) ∷ rest) = (key_for m ≡ k) × AreIndexed rest

  insert_pair-AreIndexed :
      (m : Measurement Json) (map : KeyMap Json)
      → AreIndexed map
      → AreIndexed (insert_pair (key_for m) m map)
  unfolding insert_pair
  insert_pair-AreIndexed m [] h = (refl, tt)
  insert_pair-AreIndexed m ((o, n) ∷ rest) h = elim (Bool-cases (key_lt o (key_for m))) [
    | inl b ↦ rw b (h.0, insert_pair-AreIndexed m rest h.1)
    | inr nb ↦ elim (Bool-cases (key_lt (key_for m) o)) [
      | inl c ↦ rw (nb, c) (refl, h)
      | inr nc ↦ rw (nb, nc) (key_lt-total (key_for m) o nc nb, h.1)
    ]
  ]

  index_from-AreIndexed :
      (map : KeyMap Json) (measurements : List (Measurement Json))
      → AreIndexed map
      → AreIndexed (index_from map measurements)
  unfolding index_from
  index_from-AreIndexed map [] h = h
  index_from-AreIndexed map (m ∷ rest) h =
      index_from-AreIndexed (insert_pair (key_for m) m map) rest (insert_pair-AreIndexed m map h)

  find_key-key :
      (k : PairKey) (map : KeyMap Json) (m : Measurement Json)
      → AreIndexed map
      → find_key k map ≡ some m
      → key_for m ≡ k
  unfolding find_key
  find_key-key k [] m h e = cc
  find_key-key k ((o, n) ∷ rest) m h e =
      at_head (key_lt o k) (key_lt k o) refl refl e (find_key-key k rest m h.1)
    where
      at_head :
          (x y : Bool)
          → key_lt o k ≡ x
          → key_lt k o ≡ y
          → (if x || y then find_key k rest else some n) ≡ some m
          → (find_key k rest ≡ some m → key_for m ≡ k)
          → key_for m ≡ k
      at_head true y p q e later = later e
      at_head false true p q e later = later e
      at_head false false p q e later =
          ap key_for (sym (some-injective _ _ e)) ∙ h.0 ∙ key_lt-total o k p q

module _ (V : Vendor) (comparator_for : Semantic → Comparator V.Json)
    (comparators : (semantic : Semantic) → IsComparator (comparator_for semantic)) where
  abbrev IsOf : CheckDef → Scope → Finding V.Json → Type 0
  IsOf check scope f = (f.id ≡ check.id) × (f.scope ≡ scope)

  with_evidence-IsOf :
      (check : CheckDef) (scope : Scope) (evidence : List (Text × V.Json)) (f : Finding V.Json)
      → IsOf check scope f
      → IsOf check scope (with_evidence V evidence f)
  unfolding with_evidence
  with_evidence-IsOf check scope evidence f h = elim (Bool-cases (is_empty evidence)) [
    | inl e ↦ rw e h
    | inr n ↦ elim (Bool-cases (V.is_object f.evidence)) [
      | inl o ↦ rw (n, o) h
      | inr x ↦ rw (n, x) h
    ]
  ]

  compare_values-IsOf :
      (check : CheckDef) (policy : Policy) (b c : Measurement V.Json)
      → Accepts (IsOf check c.scope) (compare_values V comparator_for check policy b c)
  unfolding compare_values
  compare_values-IsOf check policy b c =
      Accepts-bind (IsOf check c.scope) (IsOf check c.scope)
        (comparator_for check.semantic check b c policy)
        (λ f. ok (with_evidence V (pair_evidence V b c) f))
        (comparators check.semantic check b c policy)
        (λ f. with_evidence-IsOf check c.scope (pair_evidence V b c) f)

  compare_paired-IsOf :
      (check : CheckDef) (policy : Policy) (key : PairKey) (b c : Measurement V.Json)
      → Accepts (IsOf check c.scope) (compare_paired V comparator_for check policy key b c)
  unfolding compare_paired skipped_finding mismatch_finding
  compare_paired-IsOf check policy key b c =
      Accepts-if (IsOf check c.scope)
        (not (is_not_skipped b.skip_reason) || not (is_not_skipped c.skip_reason)) _ _
        (λ _. (refl, refl)) (λ _. by_kind (observed_mismatch V check b c))
    where
      by_kind :
          (o : Option ValueKind)
          → Accepts (IsOf check c.scope) (elim o [
            | some observed ↦ ok (mismatch_finding V check policy key b c observed)
            | none ↦ compare_values V comparator_for check policy b c
          ])
      by_kind none = compare_values-IsOf check policy b c
      by_kind (some observed) = (refl, refl)

  -- What a pair gives, if it gives anything.
  abbrev IsReportOr : CheckRegistry → PairKey → Option (Finding V.Json) → Type 0
  IsReportOr registry key none = Unit
  IsReportOr registry key (some f) = IsReport registry key f

  key_scope :
      (c : Measurement V.Json) (key : PairKey)
      → key_for c ≡ key
      → c.scope ≡ record { kind = key.scope_kind; index = key.scope_index }
  key_scope c key e = ap (λ (k : PairKey). record { kind = k.scope_kind; index = k.scope_index }) e

  unpaired-IsReport :
      (registry : CheckRegistry) (check : CheckDef) (key : PairKey)
      (b c : Option (Measurement V.Json))
      → at registry key.check_index ≡ some check
      → Accepts (IsReportOr registry key) (unpaired V check key b c)
  unfolding topology_finding
  unpaired-IsReport registry check key b c e =
      Accepts-if (IsReportOr registry key) (is_program key.scope_kind) _ _
        (λ _. (check, e, refl, refl)) (λ _. tt)

  compare_sides-IsReport :
      (registry : CheckRegistry) (policy : Policy) (check : CheckDef) (key : PairKey)
      (b c : Option (Measurement V.Json))
      → at registry key.check_index ≡ some check
      → Returns (λ m. key_for m ≡ key) c
      → Accepts (IsReportOr registry key) (compare_sides V comparator_for check policy key b c)
  unfolding compare_sides
  compare_sides-IsReport registry policy check key (some b) (some c) e h =
      Accepts-bind (IsOf check c.scope) (IsReportOr registry key)
        (compare_paired V comparator_for check policy key b c) (λ f. ok (some f))
        (compare_paired-IsOf check policy key b c) (λ f g. (check, e, g.0, g.1 ∙ key_scope c key h))
  compare_sides-IsReport registry policy check key (some b) none e h =
      unpaired-IsReport registry check key (some b) none e
  compare_sides-IsReport registry policy check key none c e h =
      unpaired-IsReport registry check key none c e

  find_key-Returns :
      (k : PairKey) (map : KeyMap V.Json)
      → AreIndexed map
      → Returns (λ m. key_for m ≡ k) (find_key k map)
  find_key-Returns k map h = elim (Option-cases (find_key k map)) [
    | inl e ↦ subst (Returns (λ m. key_for m ≡ k)) (sym e) tt
    | inr (m, e) ↦ subst (Returns (λ m. key_for m ≡ k)) (sym e) (find_key-key k map m h e)
  ]

  compare_check-IsReport :
      (registry : CheckRegistry) (policy : Policy) (bf cf : Text) (bs cs : KeyMap V.Json)
      (key : PairKey) (o : Option CheckDef)
      → AreIndexed cs
      → at registry key.check_index ≡ o
      → Accepts (IsReportOr registry key) (compare_check V comparator_for policy bf cf bs cs key o)
  unfolding compare_check demoted_finding
  compare_check-IsReport registry policy bf cf bs cs key none h e = tt
  compare_check-IsReport registry policy bf cf bs cs key (some check) h e =
      Accepts-if (IsReportOr registry key) (is_demoted bf cf check) _ _
        (λ _. (check, e, refl, refl))
        (λ _.
          compare_sides-IsReport registry policy check key (find_key key bs) (find_key key cs) e
            (find_key-Returns key cs h))

  compare_keys-Reports :
      (registry : CheckRegistry) (policy : Policy) (bf cf : Text) (bs cs : KeyMap V.Json)
      (ks : List PairKey)
      → AreIndexed cs
      → Accepts (Reports registry ks) (compare_keys V comparator_for registry policy bf cf bs cs ks)
  unfolding compare_keys compare_key
  compare_keys-Reports registry policy bf cf bs cs [] h = no_keys
  compare_keys-Reports registry policy bf cf bs cs (k ∷ ks) h =
      Accepts-bind (IsReportOr registry k) (Reports registry (k ∷ ks))
        (compare_check V comparator_for policy bf cf bs cs k (at registry k.check_index))
        (λ o.
          compare_keys V comparator_for registry policy bf cf bs cs ks
          >>= (λ fs. ok (elim o [ none ↦ fs | some f ↦ f ∷ fs ])))
        (compare_check-IsReport registry policy bf cf bs cs k (at registry k.check_index) h refl)
        (λ o r.
          Accepts-bind (Reports registry ks) (Reports registry (k ∷ ks))
            (compare_keys V comparator_for registry policy bf cf bs cs ks)
            (λ fs. ok (elim o [ none ↦ fs | some f ↦ f ∷ fs ]))
            (compare_keys-Reports registry policy bf cf bs cs ks h) (λ fs s. add_report o r fs s))
    where
      add_report :
          (o : Option (Finding V.Json))
          → IsReportOr registry k o
          → (fs : List (Finding V.Json)) → Reports registry ks fs
          → Reports registry (k ∷ ks) (elim o [ none ↦ fs | some f ↦ f ∷ fs ])
      add_report none r fs s = passed_over s
      add_report (some f) r fs s = reported r s

  -- Where each comparator's finding carries its check's id and the candidate's scope, the findings
  -- of a comparison stand in the order of the keys of the two sides, at most one for each key, and
  -- each has the id of the key's registered check and the key's scope.
  pub compare_fingerprints-Reports :
      (baseline candidate : Fingerprint V.Json) (policy : Policy) (registry : CheckRegistry)
      → Accepts
          (Reports registry
            (all_keys (index_from [] baseline.measurements) (index_from [] candidate.measurements)))
          (compare_fingerprints V comparator_for baseline candidate policy registry)
  unfolding compare_fingerprints
  compare_fingerprints-Reports baseline candidate policy registry =
      let bs = index_from [] baseline.measurements in
      let cs = index_from [] candidate.measurements in
      Accepts-bind (λ p. Unit) (Reports registry (all_keys bs cs)) (complete_policy registry policy)
        (λ p.
          compare_keys V comparator_for registry p (resolve_family baseline registry)
            (resolve_family candidate registry) bs cs (all_keys bs cs))
        (Accepts-all (complete_policy registry policy))
        (λ p _.
          compare_keys-Reports registry p (resolve_family baseline registry)
            (resolve_family candidate registry) bs cs (all_keys bs cs)
            (index_from-AreIndexed [] candidate.measurements tt))
