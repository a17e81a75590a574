-- ===== src/Compare/Outcomes.antt =====
-- What becomes of one pair in the loop of src/compare/engine.cpp.
use mediadiff.Base.{
  Bool-cases, Expected-cases, Option, Text, false, inl, inr, is_some, none, ok, refl, some, sym,
  true, ◌&&◌, ◌↔◌, ◌∙◌, ◌≡◌, ◌≢◌,
}
use mediadiff.Compare.{Comparator}
use mediadiff.Compare.Engine.{KeyMap, PairKey, find_key}
use mediadiff.Compare.Findings.{demoted_finding, is_program, topology_finding, unpaired}
use mediadiff.Compare.Pairs.{compare_key, compare_paired, compare_sides, is_demoted}
use mediadiff.Core.Model.{Measurement, Vendor}
use mediadiff.Core.Policy.{Policy}
use mediadiff.Core.Registry.{CheckDef, CheckRegistry, Semantic, at}

ok_some_ne_none : {A : Type 0} {a : A} → ok (some a) ≢ ok none
ok_some_ne_none e = cc

module _ (V : Vendor) (comparator_for : Semantic → Comparator V.Json) where
  unpaired-program :
      (check : CheckDef) (key : PairKey) (b c : Option (Measurement V.Json))
      → is_program key.scope_kind ≡ true
      → unpaired V check key b c ≡ ok (some (topology_finding V check key b c))
  unpaired-program check key b c p = rw p refl

  unpaired-drops :
      (check : CheckDef) (key : PairKey) (b c : Option (Measurement V.Json))
      → unpaired V check key b c ≡ ok none
      → is_program key.scope_kind ≡ false
  unpaired-drops check key b c e = elim (Bool-cases (is_program key.scope_kind)) [
    | inl p ↦ absurd (ok_some_ne_none (sym (unpaired-program check key b c p) ∙ e))
    | inr n ↦ n
  ]

  compare_sides-passes :
      (check : CheckDef) (policy : Policy) (key : PairKey) (b c : Option (Measurement V.Json))
      → is_program key.scope_kind ≡ false
      → is_some b && is_some c ≡ false
      → compare_sides V comparator_for check policy key b c ≡ ok none
  unfolding compare_sides
  compare_sides-passes check policy key (some b) (some c) n u = cc
  compare_sides-passes check policy key (some b) none n u = rw n refl
  compare_sides-passes check policy key none c n u = rw n refl

  compare_sides-drops :
      (check : CheckDef) (policy : Policy) (key : PairKey) (b c : Option (Measurement V.Json))
      → compare_sides V comparator_for check policy key b c ≡ ok none
      → (is_program key.scope_kind ≡ false) × (is_some b && is_some c ≡ false)
  unfolding compare_sides
  compare_sides-drops check policy key (some b) (some c) e =
      elim (Expected-cases (compare_paired V comparator_for check policy key b c)) [
        | inl (f, g) ↦ cc
        | inr (inl (x, g)) ↦ cc
        | inr (inr g) ↦ cc
      ]
  compare_sides-drops check policy key (some b) none e =
      (unpaired-drops check key (some b) none e, refl)
  compare_sides-drops check policy key none c e = (unpaired-drops check key none c e, refl)

  compare_key-demoted :
      (registry : CheckRegistry) (policy : Policy) (bf cf : Text) (bs cs : KeyMap V.Json)
      (key : PairKey) (check : CheckDef)
      → at registry key.check_index ≡ some check
      → is_demoted bf cf check ≡ true
      → compare_key V comparator_for registry policy bf cf bs cs key
        ≡ ok (some (demoted_finding V check policy key (find_key key bs) (find_key key cs)))
  unfolding compare_key
  compare_key-demoted registry policy bf cf bs cs key check e d = rw e (rw d refl)

  compare_key-kept :
      (registry : CheckRegistry) (policy : Policy) (bf cf : Text) (bs cs : KeyMap V.Json)
      (key : PairKey) (check : CheckDef)
      → at registry key.check_index ≡ some check
      → is_demoted bf cf check ≡ false
      → compare_key V comparator_for registry policy bf cf bs cs key
        ≡ compare_sides V comparator_for check policy key (find_key key bs) (find_key key cs)
  unfolding compare_key
  compare_key-kept registry policy bf cf bs cs key check e d = rw e (rw d refl)

  -- A pair whose check is registered is passed over in silence exactly where one of its two sides
  -- has no measurement, the check is not taken out by a migration between containers, and the
  -- scope is no program.
  pub compare_key-drops :
      (registry : CheckRegistry) (policy : Policy) (bf cf : Text) (bs cs : KeyMap V.Json)
      (key : PairKey) (check : CheckDef)
      → at registry key.check_index ≡ some check
      → (compare_key V comparator_for registry policy bf cf bs cs key ≡ ok none) ↔ (
          (is_demoted bf cf check ≡ false)
          × (is_program key.scope_kind ≡ false)
          × (is_some (find_key key bs) && is_some (find_key key cs) ≡ false))
  compare_key-drops registry policy bf cf bs cs key check e = (
    λ x. elim (Bool-cases (is_demoted bf cf check)) [
      | inl d ↦ absurd (
          ok_some_ne_none (sym (compare_key-demoted registry policy bf cf bs cs key check e d) ∙ x))
      | inr n ↦
          let drops =
            compare_sides-drops check policy key (find_key key bs) (find_key key cs)
              (sym (compare_key-kept registry policy bf cf bs cs key check e n) ∙ x) in
          (n, drops.0, drops.1)
    ],
    λ h.
        compare_key-kept registry policy bf cf bs cs key check e h.0
        ∙ compare_sides-passes check policy key (find_key key bs) (find_key key cs) h.1 h.2,
  )
