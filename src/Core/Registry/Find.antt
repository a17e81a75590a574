-- ===== src/Core/Registry/Find.antt =====
-- Lookups in the table of src/core/registry.h, and the texts of its enumerations.
use mediadiff.Base.{
  All, Bool-cases, List, Option, Text, [], arith, inl, inr, none, refl, some, suc, sym, text,
  text_eq, text_eq_iff, zero, ℕ, ◌+◌, ◌∙◌, ◌∷◌, ◌≡◌, ◌≢◌,
}
use mediadiff.Core.Registry.{
  CheckDef, CheckRegistry, Severity, fail, find, find_from, ignore, info, severity_from_string,
  severity_to_string, warn,
}
use mathlib.Core.Bool.{false≢true}

-- A severity is read back from its text.
pub severity_from_string-to_string :
    (s : Severity) → severity_from_string (severity_to_string s) ≡ some s
unfolding severity_from_string severity_to_string text_eq text
severity_from_string-to_string ignore = refl
severity_from_string-to_string info = refl
severity_from_string-to_string warn = refl
severity_from_string-to_string fail = refl

-- The definition at `k` is the first one with the id.
abbrev pub IsFirst : Text → List CheckDef → ℕ → Type 0
IsFirst id [] k = ⊥
IsFirst id (def ∷ defs) zero = def.id ≡ id
IsFirst id (def ∷ defs) (suc k) = (def.id ≢ id) × IsFirst id defs k

-- The outcome of a lookup whose indices count from `i`.
abbrev pub IsFound : Text → List CheckDef → ℕ → Option ℕ → Type 0
IsFound id defs i none = All (λ def. def.id ≢ id) defs
IsFound id defs i (some j) = (k : ℕ) × (j ≡ i + k) × IsFirst id defs k

IsFound-cons :
    (id : Text) (def : CheckDef) (defs : List CheckDef) (i : ℕ) (o : Option ℕ)
    → def.id ≢ id
    → IsFound id defs (suc i) o
    → IsFound id (def ∷ defs) i o
IsFound-cons id def defs i none ne h = (ne, h)
IsFound-cons id def defs i (some j) ne (k, e, h) = (suc k, omega (arith, e), (ne, h))

find_from-IsFound :
    (i : ℕ) (id : Text) (defs : List CheckDef) → IsFound id defs i (find_from i id defs)
unfolding find_from
find_from-IsFound i id [] = tt
find_from-IsFound i id (def ∷ defs) = elim (Bool-cases (text_eq def.id id)) [
  | inl e ↦ rw e (0, omega arith, (text_eq_iff def.id id).0 e)
  | inr ne ↦ rw ne (
      IsFound-cons id def defs i (find_from (suc i) id defs)
        (λ e. false≢true (sym ne ∙ (text_eq_iff def.id id).1 e))
        (find_from-IsFound (suc i) id defs))
]

-- `find` returns the index of the first definition with the id, and nothing exactly when no
-- definition has it.
pub find-IsFound :
    (registry : CheckRegistry) (id : Text) → IsFound id registry.defs 0 (find registry id)
unfolding find
find-IsFound registry id = find_from-IsFound 0 id registry.defs
