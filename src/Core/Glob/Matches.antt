-- ===== src/Core/Glob/Matches.antt =====
-- The matcher of src/core/glob.cpp decides the grammar of src/core/glob.h.
use mediadiff.Base.{
  All, Bool, Bool-cases, List, Text, [], arith, false, if◌then◌else◌, inl, inr, is_empty, refl, sym,
  text_eq, text_eq_iff, true, ◌&&◌, ◌||◌, ◌↔◌, ◌∙◌, ◌∷◌, ◌≡◌, ◌≢◌, ◌⊎◌,
}
use mediadiff.Core.Glob.{
  any_empty, back, fixed_match, globstar, inner_globstar, segments_match, star,
}
use mathlib.Core.Bool.{false≢true}

-- The grammar on segments: `*` takes one segment, a final `**` one or more.
pub data Matches : List Text → List Text → Type 0 where
  matched : Matches [] []
  any_segment :
      {p i : Text} {ps is : List Text} → p ≡ star → Matches ps is → Matches (p ∷ ps) (i ∷ is)
  same_segment :
      {p i : Text} {ps is : List Text} → p ≡ i → Matches ps is → Matches (p ∷ ps) (i ∷ is)
  some_segments : {p i : Text} {is : List Text} → p ≡ globstar → Matches (p ∷ []) (i ∷ is)

abbrev pub GlobstarLast : List Text → Type 0
GlobstarLast [] = Unit
GlobstarLast (p ∷ []) = Unit
GlobstarLast (p ∷ q ∷ ps) = (p ≢ globstar) × GlobstarLast (q ∷ ps)

-- A pattern's segments are not empty, and `**` is at most the last one.
abbrev pub IsWellFormed : List Text → Type 0
IsWellFormed segments = All (λ segment. segment ≢ []) segments × GlobstarLast segments

eq_test_false : (s t : Text) → text_eq s t ≡ false → s ≢ t
eq_test_false s t h e = false≢true (sym h ∙ (text_eq_iff s t).1 e)

ne_test : (s t : Text) → s ≢ t → text_eq s t ≡ false
ne_test s t h = elim (Bool-cases (text_eq s t)) [
  | inl e ↦ absurd (h ((text_eq_iff s t).0 e))
  | inr ne ↦ ne
]

pub inner_globstar_iff : (ps : List Text) → (inner_globstar ps ≡ false) ↔ GlobstarLast ps
unfolding inner_globstar
inner_globstar_iff [] = (λ _. tt, λ _. refl)
inner_globstar_iff (p ∷ []) = (λ _. tt, λ _. refl)
inner_globstar_iff (p ∷ q ∷ ps) = (
  λ h. (eq_test_false p globstar (ground arith), (inner_globstar_iff (q ∷ ps)).0 (ground arith)),
  λ h. rw (ne_test p globstar h.0) ((inner_globstar_iff (q ∷ ps)).1 h.1),
)

pub is_empty_iff : (s : Text) → (is_empty s ≡ false) ↔ (s ≢ [])
is_empty_iff [] = (λ h. cc, λ h. absurd (h refl))
is_empty_iff (c ∷ s) = (λ h e. cc, λ h. refl)

pub any_empty_iff : (ps : List Text) → (any_empty ps ≡ false) ↔ All (λ segment. segment ≢ []) ps
unfolding any_empty
any_empty_iff [] = (λ _. tt, λ _. refl)
any_empty_iff (p ∷ ps) = (
  λ h. ((is_empty_iff p).0 (ground arith), (any_empty_iff ps).0 (ground arith)),
  λ h. rw ((is_empty_iff p).1 h.0) ((any_empty_iff ps).1 h.1),
)

segments_match-nil : (p q : Text) (ps : List Text) → segments_match (p ∷ q ∷ ps) [] ≡ false
unfolding segments_match fixed_match
segments_match-nil p q ps = ground arith

segments_match-cons :
    (p q : Text) (ps : List Text) (i : Text) (is : List Text)
    → segments_match (p ∷ q ∷ ps) (i ∷ is)
      ≡ (if text_eq p star || text_eq p i then segments_match (q ∷ ps) is else false)
unfolding segments_match fixed_match
segments_match-cons p q ps i is = ground arith

segments_match-last :
    (p i : Text) (is : List Text)
    → segments_match (p ∷ []) (i ∷ is)
      ≡ (text_eq p globstar || (is_empty is && (text_eq p star || text_eq p i)))
unfolding segments_match fixed_match back
segments_match-last p i [] = ground arith
segments_match-last p i (j ∷ is) = ground arith

segments_match-last_nil : (p : Text) → segments_match (p ∷ []) [] ≡ false
unfolding segments_match fixed_match back
segments_match-last_nil p = ground arith

or_cases : (a b : Bool) → (a || b) ≡ true → (a ≡ true) ⊎ (b ≡ true)
or_cases true b h = inl refl
or_cases false b h = inr h

last_sound :
    (p i : Text) (is : List Text)
    → (text_eq p globstar || (is_empty is && (text_eq p star || text_eq p i))) ≡ true
    → Matches (p ∷ []) (i ∷ is)
last_sound p i is h = elim (Bool-cases (text_eq p globstar)) [
  | inl g ↦ some_segments ((text_eq_iff p globstar).0 g)
  | inr ng ↦ one is (ground arith)
]
  where
    one :
        (is : List Text)
        → (is_empty is && (text_eq p star || text_eq p i)) ≡ true
        → Matches (p ∷ []) (i ∷ is)
    one [] h = elim (or_cases (text_eq p star) (text_eq p i) h) [
      | inl s ↦ any_segment ((text_eq_iff p star).0 s) matched
      | inr e ↦ same_segment ((text_eq_iff p i).0 e) matched
    ]
    one (j ∷ is) h = cc

segments_match_sound :
    (p : Text) (ps is : List Text) → segments_match (p ∷ ps) is ≡ true → Matches (p ∷ ps) is
segments_match_sound p [] [] h = absurd (false≢true (sym (segments_match-last_nil p) ∙ h))
segments_match_sound p [] (i ∷ is) h = last_sound p i is (sym (segments_match-last p i is) ∙ h)
segments_match_sound p (q ∷ ps) [] h = absurd (false≢true (sym (segments_match-nil p q ps) ∙ h))
segments_match_sound p (q ∷ ps) (i ∷ is) h =
    let h' = sym (segments_match-cons p q ps i is) ∙ h in
    let more = segments_match_sound q ps is (ground arith) in
    elim (or_cases (text_eq p star) (text_eq p i) (ground arith)) [
      | inl s ↦ any_segment ((text_eq_iff p star).0 s) more
      | inr e ↦ same_segment ((text_eq_iff p i).0 e) more
    ]

-- Where the grammar matches, so does the code.
segments_match_complete :
    (p : Text) (ps is : List Text) → Matches (p ∷ ps) is → segments_match (p ∷ ps) is ≡ true
segments_match_complete p [] [] m = elim m [ ]
segments_match_complete p [] (i ∷ []) (any_segment e matched) =
    let t = (text_eq_iff p star).1 e in ground (arith, segments_match-last p i [])
segments_match_complete p [] (i ∷ []) (same_segment e matched) =
    let t = (text_eq_iff p i).1 e in ground (arith, segments_match-last p i [])
segments_match_complete p [] (i ∷ (j ∷ is)) (any_segment e m) = elim m [ ]
segments_match_complete p [] (i ∷ (j ∷ is)) (same_segment e m) = elim m [ ]
segments_match_complete p [] (i ∷ is) (some_segments e) =
    let t = (text_eq_iff p globstar).1 e in ground (arith, segments_match-last p i is)
segments_match_complete p (q ∷ ps) [] m = elim m [ ]
segments_match_complete p (q ∷ ps) (i ∷ is) (any_segment e m) =
    let t = (text_eq_iff p star).1 e in
    rw (segments_match-cons, t) (segments_match_complete q ps is m)
segments_match_complete p (q ∷ ps) (i ∷ is) (same_segment e m) =
    let t = (text_eq_iff p i).1 e in
    ground (arith, segments_match-cons p q ps i is, segments_match_complete q ps is m)

pub segments_match_iff :
    (ps is : List Text) → ps ≢ [] → (segments_match ps is ≡ true) ↔ Matches ps is
segments_match_iff [] is ne = absurd (ne refl)
segments_match_iff (p ∷ ps) is ne = (segments_match_sound p ps is, segments_match_complete p ps is)
