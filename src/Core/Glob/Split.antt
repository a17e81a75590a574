-- ===== src/Core/Glob/Split.antt =====
-- The split of src/core/glob.cpp: joining the segments gives the text back, and no segment holds
-- the delimiter.
use mediadiff.Base.{
  ==_iff, All, Bool-cases, List, Text, [], ap, arith, false, inl, inr, refl, sym, true, ℕ, ◌++◌,
  ◌==◌, ◌∙◌, ◌∷◌, ◌≡◌, ◌≢◌,
}
use mediadiff.Core.Glob.{split_loop, split_path_segments, split_segments}
use mathlib.Core.List.{append-nil, append_assoc}

-- The segments with a delimiter between them.
unfoldable pub join : ℕ → List Text → Text
join delimiter [] = []
join delimiter (segment ∷ []) = segment
join delimiter (segment ∷ next ∷ segments) = segment ++ delimiter ∷ join delimiter (next ∷ segments)

abbrev pub IsFree : ℕ → Text → Type 0
IsFree delimiter s = All (λ c. c ≢ delimiter) s

join_nonempty : (d : ℕ) (x : Text) (xs : List Text) → xs ≢ [] → join d (x ∷ xs) ≡ x ++ d ∷ join d xs
unfolding join
join_nonempty d x [] ne = absurd (ne refl)
join_nonempty d x (y ∷ ys) ne = refl

pub split_loop_nonempty : (d : ℕ) (current s : Text) → split_loop d current s ≢ []
unfolding split_loop
split_loop_nonempty d current [] = λ e. cc
split_loop_nonempty d current (c ∷ s) = elim (Bool-cases (c == d)) [
  | inl e ↦ rw e (λ h. cc)
  | inr ne ↦ rw ne (split_loop_nonempty d (current ++ c ∷ []) s)
]

join-split_loop : (d : ℕ) (current s : Text) → join d (split_loop d current s) ≡ current ++ s
unfolding split_loop
join-split_loop d current [] = unfold join in sym (append-nil current)
join-split_loop d current (c ∷ s) = elim (Bool-cases (c == d)) [
  | inl e ↦
      rw
        (
          e,
          join_nonempty d current (split_loop d [] s) (split_loop_nonempty d [] s),
          join-split_loop d [] s,
        )
        (ap (λ x. current ++ x ∷ s) (sym ((==_iff c d).0 e)))
  | inr ne ↦ rw (ne, join-split_loop d (current ++ c ∷ []) s) (append_assoc current (c ∷ []) s)
]

IsFree-append : (d : ℕ) (s t : Text) → IsFree d s → IsFree d t → IsFree d (s ++ t)
IsFree-append d [] t hs ht = ht
IsFree-append d (c ∷ s) t hs ht = (hs.0, IsFree-append d s t hs.1 ht)

ne_of_test : (c d : ℕ) → (c == d) ≡ false → c ≢ d
ne_of_test c d h = ground arith

split_loop-IsFree :
    (d : ℕ) (current s : Text) → IsFree d current → All (IsFree d) (split_loop d current s)
unfolding split_loop
split_loop-IsFree d current [] h = (h, tt)
split_loop-IsFree d current (c ∷ s) h = elim (Bool-cases (c == d)) [
  | inl e ↦ rw e (h, split_loop-IsFree d [] s tt)
  | inr ne ↦ rw ne (
      split_loop-IsFree d (current ++ c ∷ []) s
        (IsFree-append d current (c ∷ []) h (ne_of_test c d ne, tt)))
]

split_loop-segment :
    (d : ℕ) (current segment rest : Text)
    → IsFree d segment
    → split_loop d current (segment ++ d ∷ rest) ≡ (current ++ segment) ∷ split_loop d [] rest
unfolding split_loop
split_loop-segment d current [] rest h =
    let same : (d == d) ≡ true = ground arith in rw (same, append-nil current)
split_loop-segment d current (c ∷ segment) rest h =
    let other : (c == d) ≡ false = ground arith in
    rw (
      other,
      split_loop-segment d (current ++ c ∷ []) segment rest h.1,
      append_assoc current (c ∷ []) segment,
    )

split_loop-last :
    (d : ℕ) (current segment : Text)
    → IsFree d segment
    → split_loop d current segment ≡ (current ++ segment) ∷ []
unfolding split_loop
split_loop-last d current [] h = rw append-nil
split_loop-last d current (c ∷ segment) h =
    let other : (c == d) ≡ false = ground arith in
    rw (
      other,
      split_loop-last d (current ++ c ∷ []) segment h.1,
      append_assoc current (c ∷ []) segment,
    )

split_loop-join :
    (d : ℕ) (x : Text) (xs : List Text)
    → All (IsFree d) (x ∷ xs)
    → split_loop d [] (join d (x ∷ xs)) ≡ x ∷ xs
unfolding join
split_loop-join d x [] h = split_loop-last d [] x h.0
split_loop-join d x (y ∷ ys) h =
    split_loop-segment d [] x (join d (y ∷ ys)) h.0 ∙ ap (◌∷◌ x) (split_loop-join d y ys h.1)

-- Splitting a dotted text and joining the segments gives the text back; the segments hold no dot.
pub join-split_segments :
    (s : Text) → (join b'.' (split_segments s) ≡ s) × All (IsFree b'.') (split_segments s)
unfolding split_segments
join-split_segments s = (join-split_loop b'.' [] s, split_loop-IsFree b'.' [] s tt)

-- Joining segments without dots and splitting gives the segments back, and likewise for '/'.
pub split_segments-join :
    (x : Text) (xs : List Text)
    → (All (IsFree b'.') (x ∷ xs) → split_segments (join b'.' (x ∷ xs)) ≡ x ∷ xs)
      × (All (IsFree b'/') (x ∷ xs) → split_path_segments (join b'/' (x ∷ xs)) ≡ x ∷ xs)
unfolding split_segments split_path_segments
split_segments-join x xs = (split_loop-join b'.' x xs, split_loop-join b'/' x xs)
