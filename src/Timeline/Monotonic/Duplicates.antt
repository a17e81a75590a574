-- ===== src/Timeline/Monotonic/Duplicates.antt =====
-- `count_pts_duplicates` of src/analyzers/timeline/monotonic.cpp.
use mediadiff.Base.{
  Bool, List, [], ap, arith, eqb_ℤ, eqb_ℤ_iff, false, if◌then◌else◌, inl, inr, neg_part, negsuc,
  pos, pos_part, refl, some, sym, true, ℤ, ◌<ℤ◌, ◌∷◌, ◌≡◌, ◌≢◌, ◌≤ℤ◌, ◌≤◌, ◌⊎◌,
}
use mediadiff.Timeline.{AxisSample, AxisView}
use mediadiff.Timeline.Monotonic.{
  DuplicateResult, add_duplicate, count_pts_duplicates, duplicates_from, duplicates_in, larger,
  no_duplicates, smaller, sort_samples,
}
use mediadiff.Timeline.Monotonic.Sorting.{
  Ordered, OrderedAfter, TwoOf, in_back, in_front, in_rest, sort_samples-Ordered,
  sort_samples-TwoOf,
}
use mediadiff.Timeline.Monotonic.Violations.{IncreasingAfter}
use mathlib.Core.List.{Memᴰ}
use mathlib.Core.List.Memᴰ.{head, tail}

-- A result that reports a duplicate and names these two samples of one value.
abbrev pub NamesTwo : AxisSample → AxisSample → DuplicateResult → Type 0
NamesTwo a b result =
    (1 ≤ result.duplicate_count)
    × (result.first_duplicate_value ≡ some b.value)
    × (result.first_duplicate_index_a ≡ some (smaller a.packet_index b.packet_index))
    × (result.first_duplicate_index_b ≡ some (larger a.packet_index b.packet_index))

-- No two entries have one value.
abbrev pub Apart : List AxisSample → Type 0
Apart found = (a b : AxisSample) → TwoOf a b found → a.value ≢ b.value

-- Two entries of one value, the ones that a result names.
abbrev pub Shared : List AxisSample → DuplicateResult → Type 0
Shared found result =
    (a : AxisSample) × (b : AxisSample) × TwoOf a b found
    × (a.value ≡ b.value)
    × NamesTwo a b result

abbrev pub IsDuplicateResult : List AxisSample → DuplicateResult → Type 0
IsDuplicateResult found result = ((result ≡ no_duplicates) × Apart found) ⊎ Shared found result

above-Mem :
    (prev b : AxisSample) (others : List AxisSample)
    → IncreasingAfter prev others
    → Memᴰ b others
    → prev.value <ℤ b.value
above-Mem prev b [] h m = elim m [ ]
above-Mem prev b (s ∷ others) (h, hs) (head e) = rw e h
above-Mem prev b (s ∷ others) (h, hs) (tail m) =
    let i = above-Mem s b others hs m in omega (arith, h, i)

distinct_below : (a b : AxisSample) → a.value <ℤ b.value → a.value ≢ b.value
distinct_below a b h v = omega (arith, h, ap pos_part v, ap neg_part v)

Apart-front :
    (prev b : AxisSample) (others : List AxisSample)
    → IncreasingAfter prev others
    → Memᴰ b others
    → prev.value ≢ b.value
Apart-front prev b others h m = distinct_below prev b (above-Mem prev b others h m)

-- Two entries of samples whose values increase have two values.
Apart-after :
    (prev : AxisSample) (others : List AxisSample)
    → IncreasingAfter prev others
    → Apart (prev ∷ others)
Apart-after prev [] h a b m = elim m [
  | in_front e k ↦ elim k [ ]
  | in_back e k ↦ elim k [ ]
  | in_rest k ↦ elim k [ ]
]
Apart-after prev (s ∷ others) h a b m = elim m [
  | in_front e k ↦ rw e (Apart-front prev b (s ∷ others) h k)
  | in_back e k ↦ rw e (λ v. Apart-front prev a (s ∷ others) h k (sym v))
  | in_rest k ↦ Apart-after s others h.1 a b k
]

add_duplicate-NamesTwo :
    (a b prev s : AxisSample) (t : Bool) (result : DuplicateResult)
    → NamesTwo a b result
    → NamesTwo a b (if t then add_duplicate prev s result else result)
add_duplicate-NamesTwo a b prev s true result (h, v, i, j) =
    (omega (arith, h), rw v refl, rw i refl, rw j refl)
add_duplicate-NamesTwo a b prev s false result h = h

duplicates_from-NamesTwo :
    (a b prev : AxisSample) (others : List AxisSample) (result : DuplicateResult)
    → NamesTwo a b result
    → NamesTwo a b (duplicates_from prev others result)
unfolding duplicates_from
duplicates_from-NamesTwo a b prev [] result h = h
duplicates_from-NamesTwo a b prev (s ∷ others) result h =
    duplicates_from-NamesTwo a b s others
      (if eqb_ℤ s.value prev.value then add_duplicate prev s result else result)
      (add_duplicate-NamesTwo a b prev s (eqb_ℤ s.value prev.value) result h)

-- The loop's outcome over samples in order.
abbrev Outcome : AxisSample → List AxisSample → DuplicateResult → Type 0
Outcome prev others result =
    ((result ≡ no_duplicates) × IncreasingAfter prev others) ⊎ Shared (prev ∷ others) result

outcome_after :
    (prev s : AxisSample) (others : List AxisSample) (result : DuplicateResult)
    → prev.value <ℤ s.value
    → Outcome s others result
    → Outcome prev (s ∷ others) result
outcome_after prev s others result h (inl (e, i)) = inl (e, (h, i))
outcome_after prev s others result h (inr (a, b, m, v, n)) = inr (a, b, in_rest m, v, n)

above_unless_equal : (a b : ℤ) → a ≤ℤ b → eqb_ℤ b a ≡ false → a <ℤ b
above_unless_equal (pos a) (pos b) h e = ground (arith, h, e)
above_unless_equal (pos a) (negsuc b) h e = ground (arith, h, e)
above_unless_equal (negsuc a) (pos b) h e = ground (arith, h, e)
above_unless_equal (negsuc a) (negsuc b) h e = ground (arith, h, e)

duplicate_step :
    (prev s : AxisSample) (others : List AxisSample) (t : Bool)
    → eqb_ℤ s.value prev.value ≡ t
    → prev.value ≤ℤ s.value
    → Outcome s others (duplicates_from s others no_duplicates)
    → Outcome prev
        (s ∷ others)
        (duplicates_from s others (if t then add_duplicate prev s no_duplicates else no_duplicates))
duplicate_step prev s others true e h rest = inr (
  prev,
  s,
  in_front refl (head refl),
  sym ((eqb_ℤ_iff s.value prev.value).0 e),
  duplicates_from-NamesTwo prev s s others (add_duplicate prev s no_duplicates)
      (omega arith, refl, refl, refl),
)
duplicate_step prev s others false e h rest =
    outcome_after prev s others (duplicates_from s others no_duplicates)
      (above_unless_equal prev.value s.value h e) rest

duplicates_from-Outcome :
    (prev : AxisSample) (others : List AxisSample)
    → OrderedAfter prev others
    → Outcome prev others (duplicates_from prev others no_duplicates)
unfolding duplicates_from
duplicates_from-Outcome prev [] h = inl (refl, tt)
duplicates_from-Outcome prev (s ∷ others) (h, hs) =
    duplicate_step prev s others (eqb_ℤ s.value prev.value) refl h
      (duplicates_from-Outcome s others hs)

outcome-IsDuplicateResult :
    (prev : AxisSample) (others : List AxisSample) (result : DuplicateResult)
    → Outcome prev others result
    → IsDuplicateResult (prev ∷ others) result
outcome-IsDuplicateResult prev others result (inl (e, i)) = inl (e, Apart-after prev others i)
outcome-IsDuplicateResult prev others result (inr d) = inr d

duplicates_in-IsDuplicateResult :
    (found : List AxisSample) → Ordered found → IsDuplicateResult found (duplicates_in found)
duplicates_in-IsDuplicateResult [] h = inl (refl, λ a b m. elim m [ ])
duplicates_in-IsDuplicateResult (s ∷ others) h =
    outcome-IsDuplicateResult s others (duplicates_from s others no_duplicates)
      (duplicates_from-Outcome s others h)

unsorted-IsDuplicateResult :
    (found : List AxisSample) (result : DuplicateResult)
    → IsDuplicateResult (sort_samples found) result
    → IsDuplicateResult found result
unsorted-IsDuplicateResult found result (inl (e, apart)) =
    inl (e, λ a b m. apart a b ((sort_samples-TwoOf a b found).1 m))
unsorted-IsDuplicateResult found result (inr (a, b, m, v, n)) =
    inr (a, b, (sort_samples-TwoOf a b found).0 m, v, n)

-- The result reports no duplicate exactly when no two samples of the view have one value. Otherwise
-- its count is positive, and it names the value and, in order, the indices of two samples of that
-- value.
pub count_pts_duplicates-IsDuplicateResult :
    (view : AxisView) → IsDuplicateResult view.samples (count_pts_duplicates view)
unfolding count_pts_duplicates
count_pts_duplicates-IsDuplicateResult view =
    unsorted-IsDuplicateResult view.samples (duplicates_in (sort_samples view.samples)) (
      duplicates_in-IsDuplicateResult (sort_samples view.samples)
        (sort_samples-Ordered view.samples))
