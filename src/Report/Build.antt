-- ===== src/Report/Build.antt =====
-- `build_report_model` and `build_corpus_model` of src/report/model.cpp: each dealt list is sorted,
-- and the findings that the options hide are left out.
use mediadiff.Base.{List, Text, [], if◌then◌else◌, text, ◌++◌, ◌∷◌}
use mediadiff.Core.Model.{Envelope, Finding, Vendor}
use mediadiff.Core.Registry.{CheckRegistry}
use mediadiff.Report.{RenderOptions, Summary, before, combine_summary, empty_summary, is_hidden}
use mediadiff.Report.Deal.{Entry, GroupBlock, deal_findings, nothing_dealt}

pub record ReportModel (Json : Type 0) : Type 0 where
  pub envelope : Envelope Json
  pub summary : Summary
  pub groups : List (GroupBlock Json)
  pub diagnostics : List Text

module _ {Json : Type 0} where
  -- `std::stable_sort`.
  unfoldable pub insert_entry : Entry Json → List (Entry Json) → List (Entry Json)
  unfolding before
  insert_entry entry [] = entry ∷ []
  insert_entry entry (other ∷ others) =
      let later = insert_entry entry others in
      if before other.key entry.key then other ∷ later else entry ∷ other ∷ others

  unfoldable pub sort_entries : List (Entry Json) → List (Entry Json)
  unfolding insert_entry
  sort_entries [] = []
  sort_entries (entry ∷ entries) = insert_entry entry (sort_entries entries)

  unfoldable pub shown : RenderOptions → List (Entry Json) → List (Finding Json)
  unfolding is_hidden
  shown options [] = []
  shown options (entry ∷ entries) =
      let rest = shown options entries in
      if is_hidden entry.finding options then rest else entry.finding ∷ rest

  -- The loop over the slots: each group shows the findings of the list in its slot.
  unfoldable pub fill_groups :
      RenderOptions → List (GroupBlock Json) → List (List (Entry Json)) → List (GroupBlock Json)
  unfolding sort_entries shown
  fill_groups options [] per_group = []
  fill_groups options (block ∷ blocks) [] = block ∷ blocks
  fill_groups options (block ∷ blocks) (entries ∷ per_group) =
      record block { findings = block.findings ++ shown options (sort_entries entries) }
      ∷ fill_groups options blocks per_group

  unfoldable pub block_findings : List (GroupBlock Json) → List (Finding Json)
  block_findings [] = []
  block_findings (block ∷ blocks) = block.findings ++ block_findings blocks

unfoldable pub diagnostic_lines : (V : Vendor) → List (Text × V.Json) → List Text
diagnostic_lines V [] = []
diagnostic_lines V ((name, value) ∷ members) =
    (name ++ text ": " ++ V.dump value) ∷ diagnostic_lines V members

unfoldable pub flatten_diagnostics : (V : Vendor) → V.Json → List Text
unfolding diagnostic_lines
flatten_diagnostics V diagnostics =
    if V.is_object diagnostics then diagnostic_lines V (V.entries diagnostics) else []

unfoldable pub build_report_model :
    (V : Vendor)
    → Envelope V.Json
    → List (Finding V.Json)
    → CheckRegistry
    → RenderOptions
    → ReportModel V.Json
unfolding deal_findings fill_groups flatten_diagnostics
build_report_model V envelope findings registry options =
    let dealt = deal_findings registry 0 nothing_dealt findings in
    record {
      envelope = envelope;
      summary = dealt.summary;
      groups = fill_groups options dealt.groups dealt.per_group;
      diagnostics = flatten_diagnostics V envelope.diagnostics;
    }

pub record FileResult (Json : Type 0) : Type 0 where
  pub relative_path : Text
  pub findings : List (Finding Json)

pub record FileBlock (Json : Type 0) : Type 0 where
  pub relative_path : Text
  pub summary : Summary
  pub findings : List (Finding Json)

-- The corpus's own envelope and diagnostics stay empty for the caller to set.
pub record CorpusModel (Json : Type 0) : Type 0 where
  pub envelope : Envelope Json
  pub totals : Summary
  pub files : List (FileBlock Json)
  pub diagnostics : List Text

unfoldable pub file_block :
    (V : Vendor)
    → Envelope V.Json
    → FileResult V.Json
    → CheckRegistry
    → RenderOptions
    → FileBlock V.Json
unfolding build_report_model block_findings
file_block V discarded_envelope result registry options =
    let file_model = build_report_model V discarded_envelope result.findings registry options in
    record {
      relative_path = result.relative_path;
      summary = file_model.summary;
      findings = block_findings file_model.groups;
    }

unfoldable pub build_corpus_from :
    (V : Vendor)
    → Envelope V.Json
    → Summary
    → List (FileResult V.Json)
    → CheckRegistry
    → RenderOptions
    → CorpusModel V.Json
unfolding file_block combine_summary
build_corpus_from V discarded_envelope totals [] registry options = record {
  envelope = discarded_envelope;
  totals = totals;
  files = [];
  diagnostics = [];
}
build_corpus_from V discarded_envelope totals (result ∷ results) registry options =
    let block = file_block V discarded_envelope result registry options in
    let rest =
      build_corpus_from V discarded_envelope (combine_summary totals block.summary) results registry
        options in
    record rest { files = block ∷ rest.files }

-- `discarded_envelope` is `Envelope{}`.
unfoldable pub build_corpus_model :
    (V : Vendor)
    → Envelope V.Json
    → List (FileResult V.Json)
    → CheckRegistry
    → RenderOptions
    → CorpusModel V.Json
unfolding build_corpus_from
build_corpus_model V discarded_envelope results registry options =
    build_corpus_from V discarded_envelope empty_summary results registry options
