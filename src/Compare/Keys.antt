-- ===== src/Compare/Keys.antt =====
-- The keys that `compare_fingerprints` of src/compare/engine.cpp walks.
use mediadiff.Base.{
  Bool-cases, List, [], ap, arith, false, if◌then◌else◌, inl, inr, ltb, ltb_ℤ, map, not, past_back,
  past_front, refl, subst, sym, true, ℕ, ℤ, ◌==◌, ◌↔◌, ◌∙◌, ◌∷◌, ◌≡◌, ◌⊎◌,
}
use mediadiff.Compare.Engine.{
  KeyMap, PairKey, all_keys, index_from, insert_key, insert_keys, insert_pair, key_for, key_lt,
}
use mediadiff.Core.Model.{
  Measurement, ScopeKind, audio, data_stream, global, program, scope_rank, subtitle, video,
}
use mathlib.Core.List.{Memᴰ}
use mathlib.Core.List.Memᴰ.{head, tail}

abbrev scope_of_rank : ℕ → ScopeKind
scope_of_rank n =
    if n == 0
    then global
    else if n == 1
    then video
    else if n == 2
    then audio
    else if n == 3
    then subtitle
    else if n == 4
    then data_stream
    else program

scope_of_rank-rank : (s : ScopeKind) → scope_of_rank (scope_rank s) ≡ s
scope_of_rank-rank global = refl
scope_of_rank-rank video = refl
scope_of_rank-rank audio = refl
scope_of_rank-rank subtitle = refl
scope_of_rank-rank data_stream = refl
scope_of_rank-rank program = refl

key_parts :
    (i j r s : ℕ) (x y : ℤ)
    → (if not (i == j) then ltb i j else if not (r == s) then ltb r s else ltb_ℤ x y) ≡ false
    → (if not (j == i) then ltb j i else if not (s == r) then ltb s r else ltb_ℤ y x) ≡ false
    → (i ≡ j) × (r ≡ s) × (x ≡ y)
key_parts i j r s x y h g = (ground arith, ground arith, ground arith)

same_parts :
    (a b : PairKey)
    → key_lt a b ≡ false
    → key_lt b a ≡ false
    → (a.check_index ≡ b.check_index)
      × (scope_rank a.scope_kind ≡ scope_rank b.scope_kind)
      × (a.scope_index ≡ b.scope_index)
unfolding key_lt
same_parts a b h g =
    key_parts a.check_index b.check_index (scope_rank a.scope_kind) (scope_rank b.scope_kind)
      a.scope_index b.scope_index h g

-- Keys of which neither is smaller are equal.
pub key_lt-total : (a b : PairKey) → key_lt a b ≡ false → key_lt b a ≡ false → a ≡ b
key_lt-total a b h g =
    let e = same_parts a b h g in
    let k : a.scope_kind ≡ b.scope_kind =
      sym (scope_of_rank-rank a.scope_kind)
      ∙ ap scope_of_rank e.1
      ∙ scope_of_rank-rank b.scope_kind in
    λ i. record { check_index = e.0 i; scope_kind = k i; scope_index = e.2 i }

insert_key-holds : (k x : PairKey) (ks : List PairKey) → Memᴰ x (insert_key k ks) ↔ Memᴰ x (k ∷ ks)
unfolding insert_key
insert_key-holds k x [] = (λ m. m, λ m. m)
insert_key-holds k x (o ∷ os) = elim (Bool-cases (key_lt o k)) [
  | inl b ↦ rw b (
    past_front x k o (insert_key k os) os (insert_key-holds k x os).0,
    past_back x k o (insert_key k os) os (insert_key-holds k x os).1,
  )
  | inr nb ↦ elim (Bool-cases (key_lt k o)) [
    | inl c ↦ rw (nb, c) (λ m. m, λ m. m)
    | inr nc ↦
        rw (nb, nc) (tail, λ m. elim m [ head p ↦ head (p ∙ key_lt-total k o nc nb) | tail n ↦ n ])
  ]
]

-- Strictly increasing keys.
abbrev pub IsBelow : PairKey → List PairKey → Type 0
IsBelow k [] = Unit
IsBelow k (x ∷ xs) = key_lt k x ≡ true

abbrev pub IsAscending : List PairKey → Type 0
IsAscending [] = Unit
IsAscending (x ∷ xs) = IsBelow x xs × IsAscending xs

insert_key-IsBelow :
    (o k : PairKey) (ks : List PairKey)
    → key_lt o k ≡ true
    → IsBelow o ks
    → IsBelow o (insert_key k ks)
unfolding insert_key
insert_key-IsBelow o k [] e h = e
insert_key-IsBelow o k (x ∷ xs) e h = elim (Bool-cases (key_lt x k)) [
  | inl b ↦ rw b h
  | inr nb ↦ elim (Bool-cases (key_lt k x)) [ inl c ↦ rw (nb, c) e | inr nc ↦ rw (nb, nc) h ]
]

insert_key-IsAscending :
    (k : PairKey) (ks : List PairKey) → IsAscending ks → IsAscending (insert_key k ks)
unfolding insert_key
insert_key-IsAscending k [] h = (tt, tt)
insert_key-IsAscending k (x ∷ xs) h = elim (Bool-cases (key_lt x k)) [
  | inl b ↦ rw b (insert_key-IsBelow x k xs b h.0, insert_key-IsAscending k xs h.1)
  | inr nb ↦ elim (Bool-cases (key_lt k x)) [ inl c ↦ rw (nb, c) (c, h) | inr nc ↦ rw (nb, nc) h ]
]

only_right : {x : PairKey} {A B : Type 0} → (A → Memᴰ x [] ⊎ B) → A → B
only_right f a = elim (f a) [ inl m ↦ elim m [ ] | inr b ↦ b ]

either_side :
    {x : PairKey} {A B C D E F : Type 0}
    → (A ↔ (B ⊎ C))
    → (B ↔ (Memᴰ x [] ⊎ D))
    → (D ↔ (Memᴰ x [] ⊎ E))
    → (C ↔ (Memᴰ x [] ⊎ F))
    → A ↔ (E ⊎ F)
either_side f g h k = (
  λ a. elim (f.0 a) [
    | inl b ↦ inl (only_right h.0 (only_right g.0 b))
    | inr c ↦ inr (only_right k.0 c)
  ],
  λ u. elim u [ inl e ↦ f.1 (inl (g.1 (inr (h.1 (inr e))))) | inr y ↦ f.1 (inr (k.1 (inr y))) ],
)

module _ {Json : Type 0} where
  -- A measurement of the list has the key.
  abbrev pub HasKey : PairKey → List (Measurement Json) → Type 0
  HasKey k [] = ⊥
  HasKey k (m ∷ rest) = (k ≡ key_for m) ⊎ HasKey k rest

  abbrev map_keys : KeyMap Json → List PairKey
  map_keys [] = []
  map_keys ((k, m) ∷ rest) = k ∷ map_keys rest

  map_keys-insert_pair :
      (k : PairKey) (m : Measurement Json) (map : KeyMap Json)
      → map_keys (insert_pair k m map) ≡ insert_key k (map_keys map)
  unfolding insert_pair insert_key
  map_keys-insert_pair k m [] = refl
  map_keys-insert_pair k m ((o, n) ∷ rest) = elim (Bool-cases (key_lt o k)) [
    | inl b ↦ rw b (ap (λ ks. o ∷ ks) (map_keys-insert_pair k m rest))
    | inr nb ↦ elim (Bool-cases (key_lt k o)) [
      | inl c ↦ rw (nb, c) refl
      | inr nc ↦ rw (nb, nc) refl
    ]
  ]

  index_from-holds :
      (x : PairKey) (map : KeyMap Json) (measurements : List (Measurement Json))
      → Memᴰ x (map_keys (index_from map measurements))
        ↔ (Memᴰ x (map_keys map) ⊎ HasKey x measurements)
  unfolding index_from
  index_from-holds x map [] = (inl, λ h. elim h [ inl m ↦ m | inr n ↦ absurd n ])
  index_from-holds x map (m ∷ rest) =
      let inserted = insert_key-holds (key_for m) x (map_keys map) in
      let e = map_keys-insert_pair (key_for m) m map in
      let later = index_from-holds x (insert_pair (key_for m) m map) rest in
      (
        λ h. elim (later.0 h) [
          | inl y ↦ elim (inserted.0 (subst (Memᴰ x) e y)) [ head p ↦ inr (inl p) | tail n ↦ inl n ]
          | inr y ↦ inr (inr y)
        ],
        λ h. elim h [
          | inl y ↦ later.1 (inl (subst (Memᴰ x) (sym e) (inserted.1 (tail y))))
          | inr u ↦ elim u [
            | inl p ↦ later.1 (inl (subst (Memᴰ x) (sym e) (inserted.1 (head p))))
            | inr y ↦ later.1 (inr y)
          ]
        ],
      )

  insert_keys-holds :
      (x : PairKey) (ks : List PairKey) (map : KeyMap Json)
      → Memᴰ x (insert_keys ks map) ↔ (Memᴰ x ks ⊎ Memᴰ x (map_keys map))
  unfolding insert_keys
  insert_keys-holds x ks [] = (inl, λ h. elim h [ inl m ↦ m | inr n ↦ elim n [ ] ])
  insert_keys-holds x ks ((k, m) ∷ rest) =
      let inserted = insert_key-holds k x ks in
      let later = insert_keys-holds x (insert_key k ks) rest in
      (
        λ h. elim (later.0 h) [
          | inl y ↦ elim (inserted.0 y) [ head p ↦ inr (head p) | tail n ↦ inl n ]
          | inr y ↦ inr (tail y)
        ],
        λ h. elim h [
          | inl y ↦ later.1 (inl (inserted.1 (tail y)))
          | inr u ↦ elim u [
            | head p ↦ later.1 (inl (inserted.1 (head p)))
            | tail n ↦ later.1 (inr n)
          ]
        ],
      )

  insert_keys-IsAscending :
      (ks : List PairKey) (map : KeyMap Json) → IsAscending ks → IsAscending (insert_keys ks map)
  unfolding insert_keys
  insert_keys-IsAscending ks [] h = h
  insert_keys-IsAscending ks ((k, m) ∷ rest) h =
      insert_keys-IsAscending (insert_key k ks) rest (insert_key-IsAscending k ks h)

  -- The engine walks strictly increasing keys, by check, then scope kind, then scope index, and
  -- they are exactly the keys of the measurements of the two sides, in whatever order these come.
  pub all_keys-IsAscending :
      (baseline candidate : List (Measurement Json))
      → IsAscending (all_keys (index_from [] baseline) (index_from [] candidate))
        × ((x : PairKey)
            → Memᴰ x (all_keys (index_from [] baseline) (index_from [] candidate))
              ↔ (HasKey x baseline ⊎ HasKey x candidate))
  unfolding all_keys
  all_keys-IsAscending baseline candidate =
      let b = index_from [] baseline in
      let c = index_from [] candidate in
      (
        insert_keys-IsAscending (insert_keys [] b) c (insert_keys-IsAscending [] b tt),
        λ x.
            either_side (insert_keys-holds x (insert_keys [] b) c) (insert_keys-holds x [] b)
              (index_from-holds x [] baseline) (index_from-holds x [] candidate),
      )
