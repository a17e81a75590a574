-- ===== src/Report/Corpus.antt =====
-- The totals of a directory run, src/report/model.cpp.
use mediadiff.Base.{List, [], ap, refl, suc, sym, ℕ, ◌++◌, ◌∙◌, ◌∷◌, ◌≡◌}
use mediadiff.Core.Model.{Envelope, Finding, Vendor}
use mediadiff.Core.Registry.{CheckRegistry}
use mediadiff.Report.{RenderOptions, Summary, combine_summary, empty_summary, summarize}
use mediadiff.Report.Build.{
  FileResult, build_corpus_from, build_corpus_model, build_report_model, file_block,
}
use mediadiff.Report.Deal.{Dealt, deal_finding, deal_findings, nothing_dealt}
use mediadiff.Report.Totals.{combine-summarize-empty, summarize-append-from}

unfoldable pub all_findings : {Json : Type 0} → List (FileResult Json) → List (Finding Json)
all_findings [] = []
all_findings (result ∷ results) = result.findings ++ all_findings results

deal_findings-summary :
    {Json : Type 0} (fs : List (Finding Json)) (registry : CheckRegistry) (i : ℕ)
    (dealt : Dealt Json)
    → (deal_findings registry i dealt fs).summary ≡ summarize dealt.summary fs
unfolding deal_findings deal_finding summarize
deal_findings-summary [] registry i dealt = refl
deal_findings-summary (f ∷ fs) registry i dealt =
    deal_findings-summary fs registry (suc i) (deal_finding registry i dealt f)

build_corpus_from-totals :
    (V : Vendor) (envelope : Envelope V.Json) (s : Summary) (results : List (FileResult V.Json))
    (registry : CheckRegistry) (options : RenderOptions)
    → (build_corpus_from V envelope s results registry options).totals
      ≡ summarize s (all_findings results)
unfolding build_corpus_from all_findings file_block build_report_model summarize
build_corpus_from-totals V envelope s [] registry options = refl
build_corpus_from-totals V envelope s (r ∷ rs) registry options =
    let dealt = deal_findings registry 0 nothing_dealt r.findings in
    build_corpus_from-totals V envelope (combine_summary s dealt.summary) rs registry options
    ∙ ap (λ t. summarize (combine_summary s t) (all_findings rs))
        (deal_findings-summary r.findings registry 0 nothing_dealt)
    ∙ ap (λ t. summarize t (all_findings rs)) (combine-summarize-empty s r.findings)
    ∙ sym (summarize-append-from s r.findings (all_findings rs))

-- The totals of a directory run are the summary of all its findings, whatever is hidden.
pub build_corpus_model-totals :
    (V : Vendor) (envelope : Envelope V.Json) (results : List (FileResult V.Json))
    (registry : CheckRegistry) (options : RenderOptions)
    → (build_corpus_model V envelope results registry options).totals
      ≡ summarize empty_summary (all_findings results)
unfolding build_corpus_model
build_corpus_model-totals V envelope results registry options =
    build_corpus_from-totals V envelope empty_summary results registry options
