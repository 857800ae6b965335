-- ===== src/Exporters/Otel/Sinks.antt =====
-- internal/exporters/otel.go: `fileExporter` and `loggingExporter`, two values of the SDK's
-- interface `Exporter`. The data of an export (`D`), the kinds, aggregations and temporalities of
-- instruments, and an open file (`F`) are the SDK's and the system's.
use lspwatch.Common.{
  ℕ, ◌==◌, inl, inr, ◌≡◌, sym, ap, ◌∙◌, Bool, true, false, Option, none, some, List, [], ◌∷◌, ◌++◌,
  append-nil, append_assoc, concat, map, All, if◌then◌else◌, Bytes, Option-cases, arith,
}

pub data SinkError : Type 0 where
  not_marshalled not_written not_closed : SinkError

-- `sdkmetric.Exporter`, on a state `W`; a context is not looked at
pub record SdkExporter (D K G T W : Type 0) : Type 0 where
  pub export : D → W → W × Option SinkError
  pub aggregation : K → G
  pub temporality : K → T
  pub force_flush : W → W × Option SinkError
  pub shutdown : W → W × Option SinkError

-- What a file exporter uses of the SDK, of `encoding/json` and of its file.
pub record FileApi (D K G T F : Type 0) : Type 0 where
  pub scope_metrics : D → ℕ  -- len(data.ScopeMetrics)
  pub marshal : D → Option Bytes  -- json.Marshal
  pub write : Bytes → F → F × Option SinkError  -- File.Write
  pub close : F → F × Bool  -- File.Close; true is success
  pub default_aggregation : K → G  -- sdkmetric.DefaultAggregationSelector
  pub delta_temporality : T

pub data LogLine : Type 0 where
  exporting : ℕ → LogLine
  failed_to_export : SinkError → LogLine

-- What the wrapped exporter has returned is logged if it is an error, and returned.
logged : {W : Type 0} → List LogLine → W × Option SinkError → (W × List LogLine) × Option SinkError
logged lines (w, none) = ((w, lines), none)
logged lines (w, some e) = ((w, lines ++ failed_to_export e ∷ []), some e)

beside : {W : Type 0} → List LogLine → W × Option SinkError → (W × List LogLine) × Option SinkError
beside lines (w, e) = ((w, lines), e)

-- The lines that some exports with these results log.
pub lines_of : {D : Type 0} → (D → ℕ) → List D → List (Option SinkError) → List LogLine
lines_of scope_metrics (d ∷ ds) (none ∷ es) =
    exporting (scope_metrics d) ∷ lines_of scope_metrics ds es
lines_of scope_metrics (d ∷ ds) (some e ∷ es) =
    exporting (scope_metrics d) ∷ failed_to_export e ∷ lines_of scope_metrics ds es
lines_of scope_metrics _ _ = []

abbrev with_result :
    {U : Type 0} → Option SinkError → U × List (Option SinkError) → U × List (Option SinkError)
with_result e (w, es) = (w, e ∷ es)

-- Exports one after the other, with their results.
unfoldable pub export_each :
    {D K G T U : Type 0} → SdkExporter D K G T U → List D → U → U × List (Option SinkError)
export_each exporter [] w = (w, [])
export_each exporter (d ∷ ds) w =
    let (w', e) = exporter.export d w in with_result e (export_each exporter ds w')

module _ {D K G T W : Type 0} where
  module _ (api : FileApi D K G T W) where
    written : W → Option Bytes → W × Option SinkError
    written w none = (w, some not_marshalled)
    written w (some bytes) = api.write bytes w

    closed : W × Bool → W × Option SinkError
    closed (w, true) = (w, none)
    closed (w, false) = (w, some not_closed)

    -- `fileExporter`
    unfoldable pub file_exporter : SdkExporter D K G T W
    unfolding written closed
    file_exporter = record {
      export = λ d w. if api.scope_metrics d == 0 then (w, none) else written w (api.marshal d);
      aggregation = api.default_aggregation;
      temporality = λ kind. api.delta_temporality;
      force_flush = λ w. (w, none);
      shutdown = λ w. closed (api.close w);
    }

  -- `loggingExporter`, with the lines of the log beside the state of the exporter that it wraps
  unfoldable pub logging_exporter :
      (D → ℕ) → SdkExporter D K G T W → SdkExporter D K G T (W × List LogLine)
  unfolding logged beside
  logging_exporter scope_metrics wrapped = record {
    export = λ d w. logged (w.1 ++ exporting (scope_metrics d) ∷ []) (wrapped.export d w.0);
    aggregation = wrapped.aggregation;
    temporality = wrapped.temporality;
    force_flush = λ w. beside w.1 (wrapped.force_flush w.0);
    shutdown = λ w. beside w.1 (wrapped.shutdown w.0);
  }

  -- The exports of a logging exporter against those of the one that it wraps.
  abbrev pub Wraps :
      (scope_metrics : D → ℕ) (wrapped : SdkExporter D K G T W) (ds : List D) (w : W)
      (lines : List LogLine)
      → Type 0
  Wraps scope_metrics wrapped ds w lines =
      export_each (logging_exporter scope_metrics wrapped) ds (w, lines) ≡ (
        (
          (export_each wrapped ds w).0,
          lines ++ lines_of scope_metrics ds (export_each wrapped ds w).1,
        ),
        (export_each wrapped ds w).1,
      )

  logged_lem :
      (scope_metrics : D → ℕ) (wrapped : SdkExporter D K G T W) (d : D) (ds : List D)
      (t : W × Option SinkError) (lines : List LogLine)
      → ((more : List LogLine) → Wraps scope_metrics wrapped ds t.0 more)
      → with_result (logged (lines ++ exporting (scope_metrics d) ∷ []) t).1 (
          export_each
            (logging_exporter scope_metrics wrapped)
            ds
            (logged (lines ++ exporting (scope_metrics d) ∷ []) t).0)
        ≡ (
          (
            (export_each wrapped ds t.0).0,
            lines ++ lines_of scope_metrics (d ∷ ds) (t.1 ∷ (export_each wrapped ds t.0).1),
          ),
          t.1 ∷ (export_each wrapped ds t.0).1,
        )
  unfolding logged lines_of
  logged_lem scope_metrics wrapped d ds (w, none) lines rest =
      ap (λ u. (u.0, none ∷ u.1)) (rest (lines ++ exporting (scope_metrics d) ∷ []))
      ∙ ap (λ l. (((export_each wrapped ds w).0, l), none ∷ (export_each wrapped ds w).1))
          (append_assoc lines (exporting (scope_metrics d) ∷ []) _)
  logged_lem scope_metrics wrapped d ds (w, some e) lines rest =
      ap (λ u. (u.0, some e ∷ u.1))
        (rest ((lines ++ exporting (scope_metrics d) ∷ []) ++ failed_to_export e ∷ []))
      ∙ ap (λ l. (((export_each wrapped ds w).0, l), some e ∷ (export_each wrapped ds w).1))
          (append_assoc (lines ++ exporting (scope_metrics d) ∷ []) (failed_to_export e ∷ []) _
            ∙ append_assoc lines (exporting (scope_metrics d) ∷ []) _)

  -- A logging exporter is the exporter that it wraps: over any series of exports it leaves the same
  -- state and returns the same results, and it logs a line for each export and one more for each
  -- that failed.
  pub export_each-logging_exporter :
      (scope_metrics : D → ℕ) (wrapped : SdkExporter D K G T W) (ds : List D) (w : W)
      (lines : List LogLine)
      → Wraps scope_metrics wrapped ds w lines
  unfolding export_each logging_exporter lines_of
  export_each-logging_exporter scope_metrics wrapped [] w lines =
      ap (λ l. ((w, l), [])) (sym (append-nil lines))
  export_each-logging_exporter scope_metrics wrapped (d ∷ ds) w lines =
      logged_lem scope_metrics wrapped d ds (wrapped.export d w) lines
        (export_each-logging_exporter scope_metrics wrapped ds (wrapped.export d w).0)

  -- What an export has to write: nothing without scope metrics.
  pub output : FileApi D K G T W → D → Bytes
  output api d =
      if api.scope_metrics d == 0 then [] else elim (api.marshal d) [ none ↦ [] | some b ↦ b ]

  -- A file that was opened to append: what is written without an error stands behind what was
  -- there.
  abbrev pub Appends : FileApi D K G T W → (W → Bytes) → Type 0
  Appends api contents =
      (bytes : Bytes) (f : W)
      → (api.write bytes f).1 ≡ none
      → contents (api.write bytes f).0 ≡ contents f ++ bytes

  export-file_exporter :
      (api : FileApi D K G T W) (contents : W → Bytes) (d : D) (f : W)
      → Appends api contents
      → ((file_exporter api).export d f).1 ≡ none
      → contents ((file_exporter api).export d f).0 ≡ contents f ++ output api d
  unfolding file_exporter written output
  export-file_exporter api contents d f appends good = elim (Option-cases (api.marshal d)) [
    | inl failed ↦ ground (arith, failed, good, append-nil (contents f))
    | inr (bytes, made) ↦ ground (arith, made, good, append-nil (contents f), appends bytes f)
  ]

  -- When all of some exports succeed, the file holds what it did, followed by the JSON of those
  -- that have scope metrics, in order; an export without any leaves no trace.
  pub export_each-file_exporter :
      (api : FileApi D K G T W) (contents : W → Bytes) (ds : List D) (f : W)
      → Appends api contents
      → All (λ e. e ≡ none) (export_each (file_exporter api) ds f).1
      → contents (export_each (file_exporter api) ds f).0
        ≡ contents f ++ concat (map (output api) ds)
  unfolding export_each
  export_each-file_exporter api contents [] f appends good = sym (append-nil (contents f))
  export_each-file_exporter api contents (d ∷ ds) f appends (one, all) =
      export_each-file_exporter api contents ds ((file_exporter api).export d f).0 appends all
      ∙ ap (λ l. l ++ concat (map (output api) ds))
          (export-file_exporter api contents d f appends one)
      ∙ append_assoc (contents f) (output api d) _
