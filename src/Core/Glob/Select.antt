-- ===== src/Core/Glob/Select.antt =====
-- src/core/glob.cpp: `glob_select` gives exactly the indices of the matching definitions.
use mediadiff.Base.{
  Bool, Bool-cases, List, Text, [], arith, false, get_elem?, if◌then◌else◌, inl, inr, refl, some,
  subst, suc, sym, true, zero, ℕ, ◌+◌, ◌↔◌, ◌∷◌, ◌≡◌,
}
use mediadiff.Core.Glob.{glob_matches, glob_select, select_from}
use mediadiff.Core.Registry.{CheckDef, CheckRegistry}
use mathlib.Core.List.{Memᴰ}
use mathlib.Core.Option.{some-injective}
use mathlib.Core.List.Memᴰ.{head, tail}

-- The definition at `k` counted from `index` matches.
abbrev pub IsSelected : ℕ → Text → List CheckDef → ℕ → Type 0
IsSelected index pattern defs i =
    (k : ℕ) × (i ≡ index + k)
    × (def : CheckDef) × (get_elem? defs k ≡ some def)
    × (glob_matches pattern def.id ≡ true)

IsSelected-cons :
    (index : ℕ) (pattern : Text) (def : CheckDef) (defs : List CheckDef) (i : ℕ)
    → IsSelected (suc index) pattern defs i
    → IsSelected index pattern (def ∷ defs) i
IsSelected-cons index pattern def defs i (k, e, d, g, m) = (suc k, omega (arith, e), d, g, m)

select_from_sound :
    (index : ℕ) (pattern : Text) (defs : List CheckDef) (i : ℕ)
    → Memᴰ i (select_from index pattern defs)
    → IsSelected index pattern defs i
unfolding select_from
select_from_sound index pattern [] i m = elim m [ ]
select_from_sound index pattern (def ∷ defs) i m =
    selected (glob_matches pattern def.id) refl m (select_from_sound (suc index) pattern defs i)
  where
    selected :
        (b : Bool)
        → glob_matches pattern def.id ≡ b
        → Memᴰ i (
            if b
            then index ∷ select_from (suc index) pattern defs
            else select_from (suc index) pattern defs)
        → (Memᴰ i (select_from (suc index) pattern defs) → IsSelected (suc index) pattern defs i)
        → IsSelected index pattern (def ∷ defs) i
    selected true y (head e) rest = (0, omega (arith, e), def, refl, y)
    selected true y (tail r) rest = IsSelected-cons index pattern def defs i (rest r)
    selected false y r rest = IsSelected-cons index pattern def defs i (rest r)

select_from_complete :
    (index : ℕ) (pattern : Text) (defs : List CheckDef) (i k : ℕ) (def : CheckDef)
    → i ≡ index + k
    → get_elem? defs k ≡ some def
    → glob_matches pattern def.id ≡ true
    → Memᴰ i (select_from index pattern defs)
unfolding select_from
select_from_complete index pattern [] i k def e g m = cc
select_from_complete index pattern (d ∷ defs) i zero def e g m =
    rw (subst (λ (x : CheckDef). glob_matches pattern x.id ≡ true) (sym (some-injective _ _ g)) m)
      (head (omega (arith, e)))
select_from_complete index pattern (d ∷ defs) i (suc k) def e g m =
    elim (Bool-cases (glob_matches pattern d.id)) [
      | inl y ↦
          rw y (tail (select_from_complete (suc index) pattern defs i k def (omega (arith, e)) g m))
      | inr n ↦ rw n (select_from_complete (suc index) pattern defs i k def (omega (arith, e)) g m)
    ]

-- `glob_select` holds an index exactly when the registry has a definition there and the pattern
-- matches its id.
pub glob_select_iff :
    (pattern : Text) (registry : CheckRegistry) (i : ℕ)
    → Memᴰ i (glob_select pattern registry) ↔ IsSelected 0 pattern registry.defs i
unfolding glob_select
glob_select_iff pattern registry i = (
  select_from_sound 0 pattern registry.defs i,
  λ (k, e, d, g, m). select_from_complete 0 pattern registry.defs i k d e g m,
)
