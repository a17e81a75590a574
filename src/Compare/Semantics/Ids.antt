-- ===== src/Compare/Semantics/Ids.antt =====
-- The comparators of src/compare hand on the check's id and the candidate's scope.
use mediadiff.Base.{
  Accepts, Accepts-all, Accepts-bind, Accepts-if, Bool, List, Option, Text, [], false,
  if◌then◌else◌, none, not, ok, refl, some, text_eq, true, ◌&&◌, ◌||◌, ◌≡◌,
}
use mediadiff.Compare.{IsComparator, start_finding}
use mediadiff.Compare.Dist.{compare_dist}
use mediadiff.Compare.Divergence.{compute_divergence}
use mediadiff.Compare.Engine.{all_keys, index_from}
use mediadiff.Compare.Exact.{
  active_expectation, compare_exact, derive_transform_target, equality_finding, exact_against,
  matches_target, target_finding,
}
use mediadiff.Compare.Hash.{
  chains_finding, compare_hash, difference_finding, extract_rate_hz, first_precondition_mismatch,
  incomparable_finding, is_truncated_sampling, truncated_message, unless_mismatch,
}
use mediadiff.Compare.Order.{Reports, compare_fingerprints-Reports}
use mediadiff.Compare.Pairs.{compare_fingerprints}
use mediadiff.Compare.Semantics.{comparator_for}
use mediadiff.Compare.Simple.{
  bool_eq, compare_presence, compare_set, compare_state, is_absent, value_is_flagged,
}
use mediadiff.Compare.Spans.{Flagged, compare_span}
use mediadiff.Compare.Tol.{extract_pair}
use mediadiff.Compare.Tol.Run.{compare_tol, side_adjusted_preference}
use mediadiff.Compare.Values.{value_eq}
use mediadiff.Core.Model.{
  Finding, Fingerprint, HashChain, Measurement, Span, Value, Vendor, hash_value,
}
use mediadiff.Core.Policy.{Policy}
use mediadiff.Core.Profiles.{Dimensions, parse_resolution_expectation}
use mediadiff.Core.Registry.{
  CheckDef, CheckRegistry, Semantic, dist, exact, hash, presence, set, span, state, tol,
  tolerance_for,
}
use mediadiff.Core.Tolerance.{parse_tolerance}

abbrev pub CarriesIds : {Json : Type 0} → CheckDef → Measurement Json → Finding Json → Type 0
CarriesIds check candidate f = (f.id ≡ check.id) × (f.scope ≡ candidate.scope)

module _ (V : Vendor) (check : CheckDef) (b c : Measurement V.Json) (policy : Policy) where
  finding_if :
      (t : Bool) (f g : Finding V.Json)
      → CarriesIds check c f
      → CarriesIds check c g
      → CarriesIds check c (if t then f else g)
  finding_if true f g h k = h
  finding_if false f g h k = k

  either :
      (t : Bool) (f g : Finding V.Json)
      → CarriesIds check c f
      → CarriesIds check c g
      → Accepts (CarriesIds check c) (if t then ok f else ok g)
  either t f g h k = Accepts-if (CarriesIds check c) t (ok f) (ok g) (λ _. h) (λ _. k)

  target_finding-CarriesIds :
      (target : Dimensions) → CarriesIds check c (target_finding V check b c policy target)
  unfolding target_finding start_finding
  target_finding-CarriesIds target =
      finding_if (matches_target c.value target) _ _ (refl, refl) (refl, refl)

  equality_finding-CarriesIds : CarriesIds check c (equality_finding V check b c policy)
  unfolding equality_finding start_finding
  equality_finding-CarriesIds = finding_if (value_eq b.value c.value) _ _ (refl, refl) (refl, refl)

  exact_against-ids :
      (raw : Option Text) → Accepts (CarriesIds check c) (exact_against V raw check b c policy)
  exact_against-ids none = equality_finding-CarriesIds
  exact_against-ids (some raw) =
      Accepts-bind (λ _. Unit) (CarriesIds check c) (parse_resolution_expectation raw) _
        (Accepts-all (parse_resolution_expectation raw))
        (λ expectation _.
          Accepts-bind (λ _. Unit) (CarriesIds check c)
            (derive_transform_target expectation raw b.value) _
            (Accepts-all (derive_transform_target expectation raw b.value))
            (λ target _. target_finding-CarriesIds target))

  compare_exact-ids : Accepts (CarriesIds check c) (compare_exact V check b c policy)
  unfolding compare_exact start_finding
  compare_exact-ids = exact_against-ids (active_expectation check policy)

  compare_tol-ids : Accepts (CarriesIds check c) (compare_tol V check b c policy)
  unfolding compare_tol start_finding
  compare_tol-ids =
      Accepts-bind (λ _. Unit) (CarriesIds check c)
        (parse_tolerance (tolerance_for check policy.profile) check.unit) _ (Accepts-all _)
        (λ tolerance _.
          Accepts-bind (λ _. Unit) (CarriesIds check c) (extract_pair b.value c.value) _
            (Accepts-all _)
            (λ magnitudes _.
              Accepts-bind (λ _. Unit) (CarriesIds check c) (side_adjusted_preference V b) _
                (Accepts-all _)
                (λ bp _.
                  Accepts-bind (λ _. Unit) (CarriesIds check c) (side_adjusted_preference V c) _
                    (Accepts-all _) (λ cp _. (refl, refl)))))

  compare_dist-ids : Accepts (CarriesIds check c) (compare_dist V check b c policy)
  unfolding compare_dist start_finding
  compare_dist-ids =
      Accepts-bind (λ _. Unit) (CarriesIds check c)
        (parse_tolerance (tolerance_for check policy.profile) check.unit) _ (Accepts-all _)
        (λ tolerance _. (refl, refl))

  incomparable-CarriesIds :
      (message : Text)
      → Accepts (CarriesIds check c) (ok (incomparable_finding V check b c policy message))
  unfolding incomparable_finding start_finding
  incomparable-CarriesIds message = (refl, refl)

  difference_finding-CarriesIds :
      (x y : HashChain) → CarriesIds check c (difference_finding V check b c policy x y)
  unfolding difference_finding start_finding
  difference_finding-CarriesIds x y =
      finding_if (compute_divergence V x y (extract_rate_hz V c.evidence)).available _ _
        (refl, refl) (refl, refl)

  chains_finding-CarriesIds :
      (x y : Value) → CarriesIds check c (chains_finding V check b c policy x y)
  unfolding chains_finding start_finding
  chains_finding-CarriesIds (hash_value x) (hash_value y) =
      finding_if (text_eq x.algorithm y.algorithm && text_eq x.digest y.digest) _ _ (refl, refl)
        (difference_finding-CarriesIds x y)
  chains_finding-CarriesIds _ _ = (refl, refl)

  unless_mismatch-CarriesIds :
      (key : Option Text) → CarriesIds check c (unless_mismatch V check b c policy key)
  unless_mismatch-CarriesIds none = chains_finding-CarriesIds b.value c.value
  unless_mismatch-CarriesIds (some key) = incomparable-CarriesIds _

  compare_hash-ids : Accepts (CarriesIds check c) (compare_hash V check b c policy)
  unfolding compare_hash start_finding
  compare_hash-ids =
      Accepts-if (CarriesIds check c)
        (is_truncated_sampling V b.evidence || is_truncated_sampling V c.evidence) _ _
        (λ _. incomparable-CarriesIds (
          truncated_message (is_truncated_sampling V b.evidence)
            (is_truncated_sampling V c.evidence)))
        (λ _. unless_mismatch-CarriesIds (first_precondition_mismatch V b.evidence c.evidence))

  compare_presence-ids : Accepts (CarriesIds check c) (compare_presence V check b c policy)
  unfolding compare_presence start_finding
  compare_presence-ids =
      either (bool_eq (is_absent b.value) (is_absent c.value)) _ _ (refl, refl) (refl, refl)

  compare_state-ids : Accepts (CarriesIds check c) (compare_state V check b c policy)
  unfolding compare_state start_finding
  compare_state-ids =
      either (not (value_is_flagged b.value check) && not (value_is_flagged c.value check)) _ _
        (refl, refl) (refl, refl)

  compare_set-ids : Accepts (CarriesIds check c) (compare_set V check b c policy)
  unfolding compare_set start_finding
  compare_set-ids = either _ _ _ (refl, refl) (refl, refl)

  compare_span-ids :
      (sort_spans : List Span → Bool → Flagged (List Span))
      → Accepts (CarriesIds check c) (compare_span V sort_spans check b c policy)
  unfolding compare_span start_finding
  compare_span-ids sort_spans = (refl, refl)

-- Each of the eight comparators gives its finding the check's id and the candidate's scope.
pub comparator_for-IsComparator :
    (V : Vendor) (sort_spans : List Span → Bool → Flagged (List Span)) (semantic : Semantic)
    → IsComparator (comparator_for V sort_spans semantic)
unfolding comparator_for
comparator_for-IsComparator V sort_spans exact check b c policy =
    compare_exact-ids V check b c policy
comparator_for-IsComparator V sort_spans tol check b c policy = compare_tol-ids V check b c policy
comparator_for-IsComparator V sort_spans set check b c policy = compare_set-ids V check b c policy
comparator_for-IsComparator V sort_spans presence check b c policy =
    compare_presence-ids V check b c policy
comparator_for-IsComparator V sort_spans hash check b c policy = compare_hash-ids V check b c policy
comparator_for-IsComparator V sort_spans dist check b c policy = compare_dist-ids V check b c policy
comparator_for-IsComparator V sort_spans span check b c policy =
    compare_span-ids V check b c policy sort_spans
comparator_for-IsComparator V sort_spans state check b c policy =
    compare_state-ids V check b c policy

-- The findings of a comparison with the program's own comparators stand in the order of the keys,
-- at most one for each, each with the id of its key's registered check and its key's scope.
pub comparator_for-Reports :
    (V : Vendor) (sort_spans : List Span → Bool → Flagged (List Span))
    (baseline candidate : Fingerprint V.Json) (policy : Policy) (registry : CheckRegistry)
    → Accepts
        (Reports registry
          (all_keys (index_from [] baseline.measurements) (index_from [] candidate.measurements)))
        (compare_fingerprints V (comparator_for V sort_spans) baseline candidate policy registry)
comparator_for-Reports V sort_spans =
    compare_fingerprints-Reports V (comparator_for V sort_spans)
      (comparator_for-IsComparator V sort_spans)
