-- ===== src/Compare/Dist.antt =====
-- src/compare/dist.cpp. A `std::map` by name is a list in the order of its names; an error holds
-- what overflowed.
-- `std::string` compares by unsigned bytes.
pub mod Names
pub mod Bins
pub mod Worst
pub mod Found
pub mod Verdict
use mediadiff.Base.{
  Bool, List, Option, Text, [], and_then, false, if◌then◌else◌, leb_ℤ, ltb, ltb_ℤ, none, ok, pos,
  some, text, true, ℤ, ◌++◌, ◌==◌, ◌>>=◌, ◌∷◌,
}
use mediadiff.Compare.{Comparator, escalate, start_finding}
use mediadiff.Compare.Tol.{Outcome}
use mediadiff.Compare.Tol.Run.{or_errored, outcome_finding}
use mediadiff.Compare.Verdict.{Ranged, in_range, range_then, ranged_then}
use mediadiff.Core.CheckedArith.{checked_add, checked_mul, checked_negate, checked_sub}
use mediadiff.Core.Model.{Value, Vendor, histogram_value, passed}
use mediadiff.Core.Policy.Resolve.{resolve_severity}
use mediadiff.Core.Registry.{Severity, tolerance_for}
use mediadiff.Core.Tolerance.{Tolerance, parse_tolerance}

unfoldable pub text_lt : Text → Text → Bool
text_lt [] [] = false
text_lt [] (d ∷ t) = true
text_lt (c ∷ s) [] = false
text_lt (c ∷ s) (d ∷ t) = let rest = text_lt s t in if c == d then rest else ltb c d

abbrev pub bins_of : Value → List (Text × ℤ)
bins_of (histogram_value h) = h.bins
bins_of _ = []

unfoldable pub sum_bins : ℤ → List (Text × ℤ) → Option ℤ
unfolding checked_add
sum_bins sum [] = some sum
sum_bins sum ((name, amount) ∷ rest) = and_then (checked_add sum amount) (λ t. sum_bins t rest)

-- A total that is not positive counts as 1.
abbrev pub positive_or_one : ℤ → ℤ
positive_or_one sum = if ltb_ℤ (pos 0) sum then sum else pos 1

-- `combined`: the counts of the two sides under each name.
abbrev pub Combined : Type 0
Combined = List (Text × (ℤ × ℤ))

-- `slot += count` of one side.
abbrev pub add_first : ℤ → ℤ × ℤ → Option (ℤ × ℤ)
add_first amount (a, b) = and_then (checked_add a amount) (λ s. some (s, b))

abbrev pub add_second : ℤ → ℤ × ℤ → Option (ℤ × ℤ)
add_second amount (a, b) = and_then (checked_add b amount) (λ s. some (a, s))

-- `combined[name]`, from (0, 0) where the name is new, with the count added to one side.
unfoldable pub add_bin : (ℤ × ℤ → Option (ℤ × ℤ)) → Text → Combined → Option Combined
unfolding text_lt
add_bin step name [] = and_then (step (pos 0, pos 0)) (λ slot. some ((name, slot) ∷ []))
add_bin step name ((other, slot) ∷ rest) =
    let later = add_bin step name rest in
    if text_lt other name
    then and_then later (λ r. some ((other, slot) ∷ r))
    else if text_lt name other
    then and_then (step (pos 0, pos 0)) (λ new. some ((name, new) ∷ (other, slot) ∷ rest))
    else and_then (step slot) (λ new. some ((other, new) ∷ rest))

unfoldable pub add_bins :
    (ℤ → ℤ × ℤ → Option (ℤ × ℤ)) → List (Text × ℤ) → Combined → Option Combined
unfolding add_bin
add_bins step [] combined = some combined
add_bins step ((name, amount) ∷ rest) combined =
    and_then (add_bin (step amount) name combined) (λ c. add_bins step rest c)

-- `worst_bin`, `worst_num` and `worst_denom`.
pub record WorstBin : Type 0 where
  pub name : Text
  pub num : ℤ
  pub denom : ℤ

-- `worst_num` and `worst_denom` before the first bin.
abbrev pub worst_num : Option WorstBin → ℤ
worst_num none = pos 0
worst_num (some w) = w.num

abbrev pub worst_denom : Option WorstBin → ℤ
worst_denom none = pos 1
worst_denom (some w) = w.denom

unfoldable pub abs_difference : ℤ → Option ℤ
unfolding checked_negate
abs_difference d = if ltb_ℤ d (pos 0) then checked_negate d else some d

abbrev pub bin_what : Text → Text → Text
bin_what what name = what ++ text " (bin '" ++ name ++ text "')"

abbrev pub worse_bin : Option WorstBin → WorstBin → ℤ → ℤ → WorstBin
worse_bin none bin lhs rhs = bin
worse_bin (some w) bin lhs rhs = if ltb_ℤ rhs lhs then bin else w

-- One round of the loop over the combined bins.
unfoldable pub worst_step : ℤ → ℤ → Option WorstBin → Text → ℤ × ℤ → Ranged WorstBin
unfolding checked_mul checked_sub abs_difference
worst_step a_total b_total worst name (a_count, b_count) =
    range_then (bin_what (text "diff_num cross-product") name) (checked_mul a_count b_total) (λ lhs.
      range_then (bin_what (text "diff_num cross-product") name) (checked_mul b_count a_total)
        (λ rhs.
          range_then (bin_what (text "diff_num subtraction") name) (checked_sub lhs rhs) (λ diff.
            range_then (bin_what (text "abs_diff_num") name) (abs_difference diff) (λ num.
              range_then (text "denom (a_total * b_total, bin '" ++ name ++ text "')")
                (checked_mul a_total b_total)
                (λ denom.
                  range_then (bin_what (text "worst-bin comparison cross-product") name)
                    (checked_mul num (worst_denom worst))
                    (λ lhs_cmp.
                      range_then (bin_what (text "worst-bin comparison cross-product") name)
                        (checked_mul (worst_num worst) denom)
                        λ rhs_cmp. in_range (
                          worse_bin worst (record { name = name; num = num; denom = denom }) lhs_cmp
                            rhs_cmp)))))))

unfoldable pub worst_loop : ℤ → ℤ → Option WorstBin → Combined → Ranged (Option WorstBin)
unfolding worst_step
worst_loop a_total b_total worst [] = in_range worst
worst_loop a_total b_total worst ((name, counts) ∷ rest) =
    ranged_then (worst_step a_total b_total worst name counts)
      λ w. worst_loop a_total b_total (some w) rest

-- The worst bin over both sides, or nothing without bins.
unfoldable pub worst_of : List (Text × ℤ) → List (Text × ℤ) → Ranged (Option WorstBin)
unfolding sum_bins add_bins worst_loop
worst_of baseline candidate = range_then (text "baseline_total") (sum_bins (pos 0) baseline) (λ a.
    range_then (text "candidate_total") (sum_bins (pos 0) candidate) (λ b.
      range_then (text "combined baseline bin total") (add_bins add_first baseline []) (λ c.
        range_then (text "combined candidate bin total") (add_bins add_second candidate c)
          λ combined. worst_loop (positive_or_one a) (positive_or_one b) none combined)))

unfoldable pub within_tolerance : Tolerance → WorstBin → Ranged Bool
unfolding checked_mul
within_tolerance tolerance worst =
    let what = text "tolerance comparison lhs (worst_num * tolerance_den * 100)" in
    range_then what (checked_mul worst.num tolerance.den) (λ product.
      range_then what (checked_mul product (pos 100)) (λ lhs.
        range_then (text "tolerance comparison rhs (tolerance_num * worst_denom)")
          (checked_mul tolerance.num worst.denom) λ rhs. in_range (leb_ℤ lhs rhs)))

unfoldable pub bin_outcome : Severity → WorstBin → Bool → Outcome
bin_outcome severity worst within =
    if within
    then record {
      status = passed;
      message = text "worst bin '" ++ worst.name ++ text "' within tolerance";
    }
    else record {
      status = escalate severity;
      message = text "worst bin '" ++ worst.name ++ text "' exceeds tolerance";
    }

abbrev pub worst_outcome : Severity → Tolerance → Option WorstBin → Ranged Outcome
worst_outcome severity tolerance none =
    in_range (record { status = passed; message = text "no bins on either side" })
worst_outcome severity tolerance (some worst) =
    ranged_then (within_tolerance tolerance worst)
      λ within. in_range (bin_outcome severity worst within)

abbrev pub dist_overflow_message : Text → Text
dist_overflow_message what =
    text "dist comparator: "
    ++ what
    ++ text " overflowed int64_t during bin accumulation/cross-multiplication; cannot determine a "
    ++ text "verdict"

unfoldable pub dist_outcome :
    Severity → Tolerance → List (Text × ℤ) → List (Text × ℤ) → Ranged Outcome
unfolding worst_of within_tolerance bin_outcome
dist_outcome severity tolerance baseline candidate =
    ranged_then (worst_of baseline candidate) λ worst. worst_outcome severity tolerance worst

module _ (V : Vendor) where
  unfoldable pub compare_dist : Comparator V.Json
  unfolding start_finding parse_tolerance tolerance_for dist_outcome
  compare_dist check baseline candidate policy =
      parse_tolerance (tolerance_for check policy.profile) check.unit >>= (λ tolerance. ok (
        outcome_finding V check baseline candidate policy (
          or_errored dist_overflow_message
            (dist_outcome (resolve_severity check policy) tolerance (bins_of baseline.value)
              (bins_of candidate.value))
            (λ outcome. outcome))))
