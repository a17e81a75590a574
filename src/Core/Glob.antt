-- ===== src/Core/Glob.antt =====
-- src/core/glob.cpp: the segment-wise glob matcher. The source has the same code twice, for check
-- ids with '.' and for relative paths with '/'; here one function takes the delimiter.
pub mod Split
pub mod Matches
pub mod Decides
pub mod Select
use mediadiff.Base.{
  Bool, Expected, List, Text, [], err, false, if◌then◌else◌, is_empty, leb, length, not, ok, suc,
  text, text_eq, true, usage, zero, ℕ, ◌++◌, ◌-◌, ◌==◌, ◌||◌, ◌∷◌,
}
use mediadiff.Core.Registry.{CheckDef, CheckRegistry}

-- Splits at every delimiter and keeps empty segments. `current` is what stands since `start`.
unfoldable pub split_loop : ℕ → Text → Text → List Text
split_loop delimiter current [] = current ∷ []
split_loop delimiter current (c ∷ s) =
    let ended = current ∷ split_loop delimiter [] s in
    let longer = split_loop delimiter (current ++ c ∷ []) s in
    if c == delimiter then ended else longer

unfoldable pub split_segments : Text → List Text
unfolding split_loop
split_segments s = split_loop b'.' [] s

unfoldable pub split_path_segments : Text → List Text
unfolding split_loop
split_path_segments s = split_loop b'/' [] s

abbrev pub star : Text
star = b'*' ∷ []

abbrev pub globstar : Text
globstar = b'*' ∷ b'*' ∷ []

unfoldable pub any_empty : List Text → Bool
any_empty [] = false
any_empty (segment ∷ segments) = is_empty segment || any_empty segments

-- A "**" outside the final segment.
unfoldable pub inner_globstar : List Text → Bool
inner_globstar [] = false
inner_globstar (segment ∷ []) = false
inner_globstar (segment ∷ next ∷ segments) =
    text_eq segment globstar || inner_globstar (next ∷ segments)

-- The messages of one copy of the diagnosis.
pub record GlobWords : Type 0 where
  pub empty_pattern : Text
  pub subject : Text
  pub empty_segment : Text
  pub misplaced : Text

unfoldable pub diagnose_with : GlobWords → Text → List Text → Text
unfolding any_empty inner_globstar
diagnose_with words pattern segments =
    if is_empty pattern
    then words.empty_pattern
    else if any_empty segments
    then words.subject ++ pattern ++ words.empty_segment
    else if inner_globstar segments
    then words.subject ++ pattern ++ words.misplaced
    else []

unfoldable pub id_words : GlobWords
id_words = record {
  empty_pattern =
      text "glob pattern is empty; an empty pattern matches zero check ids, never all of them";
  subject = text "glob pattern '";
  empty_segment = text "' has an empty segment (a leading, trailing, or doubled '.')";
  misplaced = text "' uses '**' outside the final segment";
}

unfoldable pub path_words : GlobWords
path_words = record {
  empty_pattern =
      text
        "path glob pattern is empty; an empty pattern matches zero relative paths, never all of them";
  subject = text "path glob pattern '";
  empty_segment = text "' has an empty segment (a leading, trailing, or doubled '/')";
  misplaced = text "' uses '**' outside the final segment";
}

-- The reason why a pattern is malformed, or an empty text.
unfoldable pub diagnose : Text → Text
unfolding diagnose_with id_words split_segments
diagnose pattern = diagnose_with id_words pattern (split_segments pattern)

unfoldable pub diagnose_path : Text → Text
unfolding diagnose_with path_words split_path_segments
diagnose_path pattern = diagnose_with path_words pattern (split_path_segments pattern)

abbrev pub usage_unless_empty : Text → Expected (Unit {0})
usage_unless_empty [] = ok tt
usage_unless_empty (c ∷ reason) = err (record { kind = usage; message = c ∷ reason })

unfoldable pub validate_glob : Text → Expected (Unit {0})
unfolding diagnose
validate_glob pattern = usage_unless_empty (diagnose pattern)

unfoldable pub validate_path_glob : Text → Expected (Unit {0})
unfolding diagnose_path
validate_path_glob pattern = usage_unless_empty (diagnose_path pattern)

-- `back()` of a vector that is not empty.
unfoldable pub back : List Text → Text
back [] = []
back (segment ∷ []) = segment
back (segment ∷ next ∷ segments) = back (next ∷ segments)

-- The loop over the first `fixed_count` segments.
unfoldable pub fixed_match : ℕ → List Text → List Text → Bool
fixed_match zero pattern ids = true
fixed_match (suc n) [] ids = false
fixed_match (suc n) (p ∷ ps) [] = false
fixed_match (suc n) (p ∷ ps) (i ∷ is) =
    let rest = fixed_match n ps is in
    if text_eq p star then rest else if not (text_eq p i) then false else rest

unfoldable pub segments_match : List Text → List Text → Bool
unfolding back fixed_match
segments_match pattern ids =
    let trailing_globstar = text_eq (back pattern) globstar in
    let fixed_count = if trailing_globstar then length pattern - 1 else length pattern in
    if trailing_globstar
    then (if leb (length ids) fixed_count then false else fixed_match fixed_count pattern ids)
    else if not (length ids == fixed_count)
    then false
    else fixed_match fixed_count pattern ids

unfoldable pub glob_matches : Text → Text → Bool
unfolding diagnose segments_match split_segments
glob_matches pattern check_id =
    if not (is_empty (diagnose pattern))
    then false
    else segments_match (split_segments pattern) (split_segments check_id)

unfoldable pub glob_matches_path : Text → Text → Bool
unfolding diagnose_path segments_match split_path_segments
glob_matches_path pattern relative_path =
    if not (is_empty (diagnose_path pattern))
    then false
    else segments_match (split_path_segments pattern) (split_path_segments relative_path)

unfoldable pub select_from : ℕ → Text → List CheckDef → List ℕ
unfolding glob_matches
select_from index pattern [] = []
select_from index pattern (def ∷ defs) =
    let rest = select_from (suc index) pattern defs in
    if glob_matches pattern def.id then index ∷ rest else rest

-- The indices of the matching checks, in declaration order.
unfoldable pub glob_select : Text → CheckRegistry → List ℕ
unfolding select_from
glob_select pattern registry = select_from 0 pattern registry.defs
