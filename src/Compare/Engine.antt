-- ===== src/Compare/Engine.antt =====
-- `compare_fingerprints` of src/compare/engine.cpp, over the comparators of each semantic.
use mediadiff.Base.{
  Bool, List, Option, Text, [], if◌then◌else◌, ltb, ltb_ℤ, map, none, not, some, text, ℕ, ℤ, ◌==◌,
  ◌||◌, ◌∷◌,
}
use mediadiff.Core.Model.{
  Measurement, ScopeKind, Value, absent, hash_value, histogram_value, int64_value, rational_value,
  real_value, scope_rank, set_value, span_value, string_value,
}
use mediadiff.Core.Registry.{
  ValueKind, hash_chain, histogram, int64, rational, real, span_list, string, string_set,
}

abbrev pub kind_rank : ValueKind → ℕ
kind_rank int64 = 0
kind_rank rational = 1
kind_rank real = 2
kind_rank string = 3
kind_rank string_set = 4
kind_rank histogram = 5
kind_rank span_list = 6
kind_rank hash_chain = 7

-- Nothing for `Absent`, which is never asked for its kind.
abbrev pub value_kind_of : Value → Option ValueKind
value_kind_of absent = none
value_kind_of (int64_value i) = some int64
value_kind_of (rational_value r) = some rational
value_kind_of (real_value r) = some real
value_kind_of (string_value s) = some string
value_kind_of (set_value s) = some string_set
value_kind_of (histogram_value h) = some histogram
value_kind_of (span_value s) = some span_list
value_kind_of (hash_value h) = some hash_chain

unfoldable pub value_kind_name : ValueKind → Text
value_kind_name int64 = text "int64"
value_kind_name rational = text "rational"
value_kind_name real = text "real"
value_kind_name string = text "string"
value_kind_name string_set = text "string_set"
value_kind_name histogram = text "histogram"
value_kind_name span_list = text "span_list"
value_kind_name hash_chain = text "hash_chain"

-- The observed kind, if it is another one than the declared.
unfoldable pub value_kind_mismatch : Value → ValueKind → Option ValueKind
value_kind_mismatch value expected = elim (value_kind_of value) [
  | none ↦ none
  | some actual ↦ if kind_rank actual == kind_rank expected then none else some actual
]

pub record PairKey : Type 0 where
  pub check_index : ℕ
  pub scope_kind : ScopeKind
  pub scope_index : ℤ

unfoldable pub key_lt : PairKey → PairKey → Bool
key_lt a b =
    if not (a.check_index == b.check_index)
    then ltb a.check_index b.check_index
    else if not (scope_rank a.scope_kind == scope_rank b.scope_kind)
    then ltb (scope_rank a.scope_kind) (scope_rank b.scope_kind)
    else ltb_ℤ a.scope_index b.scope_index

module _ {Json : Type 0} where
  abbrev pub key_for : Measurement Json → PairKey
  key_for m = record {
    check_index = m.check_index;
    scope_kind = m.scope.kind;
    scope_index = m.scope.index;
  }

-- `std::map<PairKey, const Measurement*>` in increasing order of its keys.
abbrev pub KeyMap : Type 0 → Type 0
KeyMap Json = List (PairKey × Measurement Json)

module _ {Json : Type 0} where
  -- `map[key] = &m`, which replaces an earlier measurement.
  unfoldable pub insert_pair : PairKey → Measurement Json → KeyMap Json → KeyMap Json
  unfolding key_lt
  insert_pair k m [] = (k, m) ∷ []
  insert_pair k m ((other, n) ∷ rest) =
      let later = insert_pair k m rest in
      if key_lt other k
      then (other, n) ∷ later
      else if key_lt k other
      then (k, m) ∷ (other, n) ∷ rest
      else (other, m) ∷ rest

  unfoldable pub index_from : KeyMap Json → List (Measurement Json) → KeyMap Json
  unfolding insert_pair
  index_from map [] = map
  index_from map (m ∷ rest) = index_from (insert_pair (key_for m) m map) rest

  unfoldable pub find_key : PairKey → KeyMap Json → Option (Measurement Json)
  unfolding key_lt
  find_key k [] = none
  find_key k ((other, m) ∷ rest) =
      if key_lt other k || key_lt k other then find_key k rest else some m

-- `std::set<PairKey>`.
unfoldable pub insert_key : PairKey → List PairKey → List PairKey
unfolding key_lt
insert_key k [] = k ∷ []
insert_key k (other ∷ rest) =
    let later = insert_key k rest in
    if key_lt other k
    then other ∷ later
    else if key_lt k other
    then k ∷ other ∷ rest
    else other ∷ rest

unfoldable pub insert_keys : {Json : Type 0} → List PairKey → KeyMap Json → List PairKey
unfolding insert_key
insert_keys keys [] = keys
insert_keys keys ((k, m) ∷ rest) = insert_keys (insert_key k keys) rest

unfoldable pub all_keys : {Json : Type 0} → KeyMap Json → KeyMap Json → List PairKey
unfolding insert_keys
all_keys baseline candidate = insert_keys (insert_keys [] baseline) candidate
