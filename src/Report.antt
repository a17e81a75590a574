-- ===== src/Report.antt =====
-- src/report/model.cpp: the summary of a run, its groups, and the corpus of a directory; and
-- src/cli/exit_code.cpp. A count is an `int` in the code and grows by one for each finding.
pub mod Worst
pub mod Totals
pub mod Deal
pub mod Build
pub mod Shown
pub mod Dealing
pub mod Named
pub mod Groups
pub mod Corpus
use mediadiff.Base.{
  Bool, ErrorKind, List, Text, [], decode, eqb_ℤ, false, if◌then◌else◌, input_open,
  input_unsupported, internal, ltb, ltb_ℤ, not, suc, text, text_eq, true, usage, ℕ, ℤ, ◌&&◌, ◌+◌,
  ◌==◌, ◌||◌, ◌∷◌,
}
use mediadiff.Core.Model.{
  Finding, ScopeKind, Status, errored, failed, informed, passed, scope_rank, skipped, warned,
}
use mediadiff.Core.Registry.{Severity, fail, ignore, info, severity_eq, warn}
use mathlib.Core.List.{map}

pub data Group : Type 0 where
  container_group video_group timeline_group audio_group content_group size_group meta_group : Group

unfoldable pub first_segment : Text → Text
first_segment [] = []
first_segment (c ∷ s) = let rest = first_segment s in if c == b'.' then [] else c ∷ rest

-- Any other first segment is `meta`.
unfoldable pub group_for : Text → Group
unfolding first_segment
group_for check_id =
    let first = first_segment check_id in
    if text_eq first (text "container")
    then container_group
    else if text_eq first (text "video")
    then video_group
    else if text_eq first (text "timeline")
    then timeline_group
    else if text_eq first (text "audio")
    then audio_group
    else if text_eq first (text "content")
    then content_group
    else if text_eq first (text "size")
    then size_group
    else meta_group

unfoldable pub group_to_string : Group → Text
group_to_string container_group = text "container"
group_to_string video_group = text "video"
group_to_string timeline_group = text "timeline"
group_to_string audio_group = text "audio"
group_to_string content_group = text "content"
group_to_string size_group = text "size"
group_to_string meta_group = text "meta"

abbrev pub group_eq : Group → Group → Bool
group_eq container_group container_group = true
group_eq video_group video_group = true
group_eq timeline_group timeline_group = true
group_eq audio_group audio_group = true
group_eq content_group content_group = true
group_eq size_group size_group = true
group_eq meta_group meta_group = true
group_eq _ _ = false

abbrev pub group_order : List Group
group_order =
    container_group ∷ video_group ∷ timeline_group ∷ audio_group ∷ content_group ∷ size_group
    ∷ meta_group ∷ []

pub record Summary : Type 0 where
  pub passes : ℕ
  pub infos : ℕ
  pub warns : ℕ
  pub fails : ℕ
  pub skips : ℕ
  pub errors : ℕ
  pub worst_gating : Severity

abbrev pub empty_summary : Summary
empty_summary = record {
  passes = 0;
  infos = 0;
  warns = 0;
  fails = 0;
  skips = 0;
  errors = 0;
  worst_gating = ignore;
}

-- `static_cast<int>` of a severity.
abbrev pub severity_rank : Severity → ℕ
severity_rank ignore = 0
severity_rank info = 1
severity_rank warn = 2
severity_rank fail = 3

-- The larger severity, and the second one of two equals.
abbrev pub worse : Severity → Severity → Severity
worse a b = if ltb (severity_rank b) (severity_rank a) then a else b

abbrev pub accumulate_status : Status → Severity → Summary → Summary
accumulate_status passed severity summary = record summary { passes = suc summary.passes }
accumulate_status informed severity summary = record summary { infos = suc summary.infos }
accumulate_status warned severity summary = record summary {
  warns = suc summary.warns;
  worst_gating = worse severity summary.worst_gating;
}
accumulate_status failed severity summary = record summary {
  fails = suc summary.fails;
  worst_gating = worse severity summary.worst_gating;
}
accumulate_status skipped severity summary = record summary { skips = suc summary.skips }
accumulate_status errored severity summary = record summary {
  errors = suc summary.errors;
  worst_gating = worse severity summary.worst_gating;
}

unfoldable pub combine_summary : Summary → Summary → Summary
combine_summary a b = record {
  passes = a.passes + b.passes;
  infos = a.infos + b.infos;
  warns = a.warns + b.warns;
  fails = a.fails + b.fails;
  skips = a.skips + b.skips;
  errors = a.errors + b.errors;
  worst_gating = worse a.worst_gating b.worst_gating;
}

pub record RenderOptions : Type 0 where
  pub show_pass : Bool
  pub show_ignored : Bool
  pub ascii : Bool
  pub strict : Bool

-- The exit codes of src/cli/exit_code.h.
abbrev pub exit_of : Severity → Bool → ℕ
exit_of fail strict = 1
exit_of warn strict = if strict then 2 else 0
exit_of info strict = 0
exit_of ignore strict = 0

unfoldable pub exit_code_for_findings : Summary → Bool → ℕ
exit_code_for_findings summary strict = exit_of summary.worst_gating strict

unfoldable pub exit_code_for : ErrorKind → ℕ
exit_code_for usage = 64
exit_code_for input_open = 65
exit_code_for input_unsupported = 65
exit_code_for decode = 66
exit_code_for internal = 70

pub record SortKey : Type 0 where
  pub registry_index : ℕ
  pub scope_kind : ScopeKind
  pub scope_index : ℤ
  pub encounter_index : ℕ

unfoldable pub before : SortKey → SortKey → Bool
before a b =
    if not (a.registry_index == b.registry_index)
    then ltb a.registry_index b.registry_index
    else if not (scope_rank a.scope_kind == scope_rank b.scope_kind)
    then ltb (scope_rank a.scope_kind) (scope_rank b.scope_kind)
    else if not (eqb_ℤ a.scope_index b.scope_index)
    then ltb_ℤ a.scope_index b.scope_index
    else ltb a.encounter_index b.encounter_index

abbrev pub is_passed : Status → Bool
is_passed passed = true
is_passed _ = false

module _ {Json : Type 0} where
  unfoldable pub accumulate : Summary → Finding Json → Summary
  accumulate summary finding = accumulate_status finding.status finding.severity summary

  unfoldable pub summarize : Summary → List (Finding Json) → Summary
  unfolding accumulate
  summarize summary [] = summary
  summarize summary (finding ∷ findings) = summarize (accumulate summary finding) findings

  unfoldable pub is_hidden : Finding Json → RenderOptions → Bool
  is_hidden finding options =
      (not options.show_pass && is_passed finding.status)
      || (not options.show_ignored && severity_eq finding.severity ignore)
