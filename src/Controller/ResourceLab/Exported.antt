-- ===== src/Controller/ResourceLab/Exported.antt =====
-- The reports that `runResourceAnalysis` of internal/controller/resourceanalyzerlab_controller.go writes.
use smtx_lab.Prelude.{
  ◌≡◌, refl, sym, ap, ◌∙◌, Bool, true, false, ◌&&◌, some, [], if◌then◌else◌, ◌==◌, eq_refl, nat_eq,
  text_eq, Text, lit, text_beq,
}
use smtx_lab.Api.Resource.{ResourceAnalyzerLab}
use smtx_lab.Analyzer.Float.{Float}
use smtx_lab.Analyzer.Series.Analyze.{ResourceAnalysisResult}
use smtx_lab.Metrics.{Web}
use smtx_lab.Controller.Client.{Result, ok, Call, ◌>>=◌, lift, call_if, Key, key_eq}
use smtx_lab.Controller.Client.Triples.{>>=-returns, lift-returns}
use smtx_lab.Controller.Objects.{ApiServer, Stores}
use smtx_lab.Controller.Objects.Stored.{IsApiServer}
use smtx_lab.Controller.Naming.{excel_name, html_name}
use smtx_lab.Controller.Reports.{
  write_excel_config_map, write_html_config_map, resource_report_labels,
}
use smtx_lab.Controller.Reports.Written.{file_of, write_config_map_sets}
use smtx_lab.Controller.ResourceLab.Run.{Env, export}

abbrev pub excel_file : Text
excel_file = lit "resource-recommendations.xlsx"

abbrev pub html_file : Text
html_file = lit "resource-recommendations.html"

other_file :
    {A : Type 0} (b : Bool) (x y : A) → (if b && (html_file == excel_file) then x else y) ≡ y
unfolding lit text_beq
other_file true x y = refl
other_file false x y = refl

module _ (f : Float) (web : Web f.F) (env : Env f)
    {api : ApiServer (ResourceAnalyzerLab f.F env.Conditions)}
    (s : IsApiServer (ResourceAnalyzerLab f.F env.Conditions) api) where
  abbrev Lab : Type 0
  Lab = ResourceAnalyzerLab f.F env.Conditions

  -- Where a report is enabled it was made, and it is the file of the ConfigMap.
  abbrev pub IsExported : Bool → Result Text → Text → Text → Stores Lab api → Type 0
  IsExported false made name file w = Unit
  IsExported true made name file w =
      (report : Text) × (made ≡ ok report)
      × (file_of file
            (s.config_map_view w.config_maps (record { namespace = env.namespace; name = name }))
          ≡ some report)

  module _ (lab : Lab) (result : ResourceAnalysisResult f) where
    abbrev made_excel : Result Text
    made_excel = env.write_resource_recommendations result.recommendations

    abbrev made_html : Result Text
    made_html = env.write_resource_html lab.name result.summary result.recommendations

    abbrev pub ExcelExported : Stores Lab api → Type 0
    ExcelExported w =
        IsExported lab.spec.output.excel.enabled made_excel
          (excel_name lab.spec.output.excel.config_map_name lab.name (lit "resource")) excel_file w

    abbrev pub HtmlExported : Stores Lab api → Type 0
    HtmlExported w =
        IsExported lab.spec.output.html.enabled made_html
          (html_name lab.spec.output.html.config_map_name lab.name (lit "resource")) html_file w

    abbrev write_excel : Text → Call (Stores Lab api) (Unit {0})
    write_excel report =
        write_excel_config_map api env.namespace lab.spec.output.excel.config_map_name lab.name
          report

    abbrev write_html : Text → Call (Stores Lab api) (Unit {0})
    write_html report =
        write_html_config_map api env.namespace lab.spec.output.html.config_map_name lab.name report

    excel_part :
        (enabled : Bool) (name : Text) (w w2 : Stores Lab api)
        → name ≡ excel_name lab.spec.output.excel.config_map_name lab.name (lit "resource")
        → call_if enabled (do report ← lift made_excel; write_excel report) w ≡ (ok tt, w2)
        → IsExported enabled made_excel name excel_file w2
    unfolding write_excel_config_map
    excel_part false name w w2 n h = tt
    excel_part true name w w2 n h =
        let (report, made, written) = lift-returns made_excel write_excel w w2 tt h in
        let key : Key = record { namespace = env.namespace; name = name } in
        (
          report,
          made,
          write_config_map_sets s env.namespace name (resource_report_labels lab.name) [] excel_file
                report w w2 (rw n written) key excel_file
              ∙ rw (eq_refl key, eq_refl excel_file) refl,
        )

    html_part :
        (enabled : Bool) (name : Text) (w w2 : Stores Lab api)
        → name ≡ html_name lab.spec.output.html.config_map_name lab.name (lit "resource")
        → call_if enabled (do report ← lift made_html; write_html report) w ≡ (ok tt, w2)
        → IsExported enabled made_html name html_file w2
    unfolding write_html_config_map
    html_part false name w w2 n h = tt
    html_part true name w w2 n h =
        let (report, made, written) = lift-returns made_html write_html w w2 tt h in
        let key : Key = record { namespace = env.namespace; name = name } in
        (
          report,
          made,
          write_config_map_sets s env.namespace name (resource_report_labels lab.name) [] html_file
                report w w2 (rw n written) key html_file
              ∙ rw (eq_refl key, eq_refl html_file) refl,
        )

    -- The HTML report leaves the Excel report as it is, also in the same ConfigMap.
    html_keeps :
        (enabled : Bool) (w w2 : Stores Lab api) (j : Key)
        → call_if enabled (do report ← lift made_html; write_html report) w ≡ (ok tt, w2)
        → file_of excel_file (s.config_map_view w2.config_maps j)
          ≡ file_of excel_file (s.config_map_view w.config_maps j)
    unfolding write_html_config_map
    html_keeps false w w2 j h =
        ap (λ (x : Stores Lab api). file_of excel_file (s.config_map_view x.config_maps j))
          (sym (ap (λ p. p.1) h))
    html_keeps true w w2 j h =
        let (report, made, written) = lift-returns made_html write_html w w2 tt h in
        let name = html_name lab.spec.output.html.config_map_name lab.name (lit "resource") in
        let key : Key = record { namespace = env.namespace; name = name } in
        write_config_map_sets s env.namespace name (resource_report_labels lab.name) [] html_file
          report w w2 written j excel_file
        ∙ other_file (key == j) (some report)
            (file_of excel_file (s.config_map_view w.config_maps j))

    excel_keeps :
        (enabled : Bool) (made : Result Text) (name : Text) (w w2 : Stores Lab api)
        → ((j : Key)
            → file_of excel_file (s.config_map_view w2.config_maps j)
              ≡ file_of excel_file (s.config_map_view w.config_maps j))
        → IsExported enabled made name excel_file w
        → IsExported enabled made name excel_file w2
    excel_keeps false made name w w2 same h = tt
    excel_keeps true made name w w2 same (report, m, h) =
        (report, m, same (record { namespace = env.namespace; name = name }) ∙ h)

    pub export-IsExported :
        (w w2 : Stores Lab api)
        → export f web env api lab result w ≡ (ok tt, w2)
        → ExcelExported w2 × HtmlExported w2
    unfolding export
    export-IsExported w w2 h =
        let name = excel_name lab.spec.output.excel.config_map_name lab.name (lit "resource") in
        let (a, w1, p, q) =
          >>=-returns
            (call_if lab.spec.output.excel.enabled
              (do report ← lift made_excel; write_excel report))
            (λ _.
              call_if lab.spec.output.html.enabled (do report ← lift made_html; write_html report))
            w w2 tt h in
        (
          excel_keeps lab.spec.output.excel.enabled made_excel name w1 w2
              (λ j. html_keeps lab.spec.output.html.enabled w1 w2 j q)
              (excel_part lab.spec.output.excel.enabled name w w1 refl p),
          html_part lab.spec.output.html.enabled _ w1 w2 refl q,
        )
