-- ===== src/Tests/Reports.antt =====
-- Runs of the summary, the exit code and the report of src/report/model.cpp.
use mediadiff.Base.{All, List, Text, [], false, pos, refl, text, true, ◌↔◌, ◌∷◌, ◌≡◌}
use mediadiff.Core.Model.{Finding, Status, absent, failed, global, not_skipped, passed, warned}
use mediadiff.Core.Registry.{Severity, fail, warn}
use mediadiff.Report.{RenderOptions, empty_summary, exit_code_for_findings, group_order, summarize}
use mediadiff.Report.Build.{FileResult, build_corpus_model, build_report_model}
use mediadiff.Report.Corpus.{all_findings, build_corpus_model-totals}
use mediadiff.Report.Groups.{ShowsItsOwn, build_report_model-ShowsItsOwn, groups_of}
use mediadiff.Report.Worst.{HasGating, exit_code-gates}
use mediadiff.Tests.Policies.{two_checks}
use mediadiff.Tests.Runs.{fingerprint, plain}

abbrev found : Status → Severity → Finding (List (Text × Text))
found status severity = record {
  id = text "video.a";
  scope = record { kind = global; index = pos 0 };
  status = status;
  severity = severity;
  baseline = absent;
  candidate = absent;
  message = [];
  skip_reason = not_skipped;
  evidence = [];
}

exit_code-gates_example :
    ((exit_code_for_findings (summarize empty_summary (found warned warn ∷ [])) true ≡ 1)
      ↔ HasGating 3 (found warned warn ∷ []))
    × ((exit_code_for_findings (summarize empty_summary (found warned warn ∷ [])) true ≡ 2) ↔ (
        (true ≡ true)
        × HasGating 2 (found warned warn ∷ [])
        × ¬ HasGating 3 (found warned warn ∷ [])))
exit_code-gates_example = exit_code-gates (found warned warn ∷ []) true

-- A check of severity `fail` that passes does not gate the run.
a_pass_does_not_gate :
    exit_code_for_findings (summarize empty_summary (found passed fail ∷ [])) true ≡ 0
unfolding exit_code_for_findings summarize
a_pass_does_not_gate = refl

abbrev only_failures : RenderOptions
only_failures = record { show_pass = false; show_ignored = true; ascii = false; strict = false }

abbrev a_run : List (Finding (List (Text × Text)))
a_run = found passed fail ∷ found failed fail ∷ []

build_report_model-ShowsItsOwn_example :
    (groups_of
        (build_report_model plain (fingerprint []).envelope a_run two_checks only_failures).groups
      ≡ group_order)
    × All
        (ShowsItsOwn only_failures a_run)
        (build_report_model plain (fingerprint []).envelope a_run two_checks only_failures).groups
build_report_model-ShowsItsOwn_example =
    build_report_model-ShowsItsOwn plain (fingerprint []).envelope a_run two_checks only_failures

abbrev one_file : FileResult (List (Text × Text))
one_file = record { relative_path = text "a.mp4"; findings = found failed fail ∷ [] }

build_corpus_model-totals_example :
    (build_corpus_model plain
      (fingerprint []).envelope
      (one_file ∷ one_file ∷ [])
      two_checks
      (record { show_pass = false; show_ignored = true; ascii = false; strict = false })).totals
    ≡ summarize empty_summary (all_findings (one_file ∷ one_file ∷ []))
build_corpus_model-totals_example =
    build_corpus_model-totals plain (fingerprint []).envelope (one_file ∷ one_file ∷ []) two_checks
      (record { show_pass = false; show_ignored = true; ascii = false; strict = false })
