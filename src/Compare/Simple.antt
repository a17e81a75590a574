-- ===== src/Compare/Simple.antt =====
-- src/compare/presence.cpp, src/compare/state.cpp and src/compare/set.cpp.
use mediadiff.Base.{
  Bool, List, Text, [], false, if◌then◌else◌, is_empty, not, ok, text, text_eq, true, ◌&&◌, ◌++◌,
  ◌||◌, ◌∷◌,
}
use mediadiff.Compare.{Comparator, escalate, start_finding}
use mediadiff.Core.Model.{StringSet, Value, Vendor, absent, passed, set_value, string_value}
use mediadiff.Core.Policy.Resolve.{resolve_severity}
use mediadiff.Core.Registry.{CheckDef}

abbrev pub is_absent : Value → Bool
is_absent absent = true
is_absent _ = false

abbrev pub bool_eq : Bool → Bool → Bool
bool_eq true b = b
bool_eq false b = not b

-- The elements of a set value; any other value counts as the empty set.
abbrev pub set_elements : Value → StringSet
set_elements (set_value s) = s
set_elements _ = []

unfoldable pub has_text : List Text → Text → Bool
has_text [] t = false
has_text (s ∷ ss) t = text_eq s t || has_text ss t

-- `std::set_difference` of two sets.
unfoldable pub set_difference : StringSet → StringSet → StringSet
unfolding has_text
set_difference [] ys = []
set_difference (x ∷ xs) ys =
    let rest = set_difference xs ys in if has_text ys x then rest else x ∷ rest

unfoldable pub join_commas : List Text → Text
join_commas [] = []
join_commas (x ∷ []) = x
join_commas (x ∷ y ∷ rest) = x ++ text "," ++ join_commas (y ∷ rest)

unfoldable pub render_diff : StringSet → StringSet → Text
unfolding join_commas
render_diff added removed =
    let plus = if is_empty added then [] else text "+" ++ join_commas added in
    let space = if is_empty added then [] else text " " in
    if is_empty added && is_empty removed
    then text "sets match"
    else if is_empty removed
    then plus
    else plus ++ space ++ text "-" ++ join_commas removed

unfoldable pub value_is_flagged : Value → CheckDef → Bool
unfolding has_text
value_is_flagged (string_value s) check = has_text check.flagged_values s
value_is_flagged _ check = false

module _ (V : Vendor) where
  unfoldable pub compare_presence : Comparator V.Json
  unfolding start_finding
  compare_presence check baseline candidate policy =
      let baseline_absent = is_absent baseline.value in
      if bool_eq baseline_absent (is_absent candidate.value)
      then ok (
          start_finding V check baseline candidate policy passed
            (if baseline_absent then text "both absent" else text "both present"))
      else ok (
          start_finding V check baseline candidate policy (escalate (resolve_severity check policy))
            (if baseline_absent then text "absent -> present" else text "present -> absent"))

  unfoldable pub compare_state : Comparator V.Json
  unfolding start_finding value_is_flagged
  compare_state check baseline candidate policy =
      let baseline_flagged = value_is_flagged baseline.value check in
      let candidate_flagged = value_is_flagged candidate.value check in
      if not baseline_flagged && not candidate_flagged
      then ok
          (start_finding V check baseline candidate policy passed (text "neither value is flagged"))
      else ok (
          start_finding V check baseline candidate policy (escalate (resolve_severity check policy))
            (if baseline_flagged && candidate_flagged
              then text "both values are flagged"
              else text "a flagged value is present"))

  unfoldable pub compare_set : Comparator V.Json
  unfolding start_finding set_difference render_diff
  compare_set check baseline candidate policy =
      let added = set_difference (set_elements candidate.value) (set_elements baseline.value) in
      let removed = set_difference (set_elements baseline.value) (set_elements candidate.value) in
      if is_empty added && is_empty removed
      then ok (start_finding V check baseline candidate policy passed (text "sets match"))
      else ok (
          start_finding V check baseline candidate policy (escalate (resolve_severity check policy))
            (render_diff added removed))
