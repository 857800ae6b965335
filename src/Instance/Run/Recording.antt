-- ===== src/Instance/Run/Recording.antt =====
-- A run of internal/lspwatch.go with the exporter of internal/exporters/otel.go: what becomes of
-- the durations that the proxy emits.
use lspwatch.Common.{
  ℕ, ◌≡◌, ◌↔◌, refl, sym, ap, subst, ◌∙◌, true, false, none, List, [], ◌∷◌, ◌++◌, map, Bytes, arith,
}
use lspwatch.Common.Dict.{Dict}
use lspwatch.Telemetry.{MetricRecording}
use lspwatch.Exporters.Otel.{
  Sdk, OtelExporter, Call, start_up, emit, end, emit_metric, start, take_call, take_calls,
}
use lspwatch.Exporters.Otel.Life.{has_histogram, emit_metric-take_calls}
use lspwatch.Instance.Run.{
  idle, stopped, ExporterCall, start_call, proxy_emit, watcher_emit, shutdown_call, System, begin,
  Reached,
}
use lspwatch.Instance.Run.Calls.{Orderly, Reached-Orderly}

-- A call of the run, with the metric or the time if it has one.
pub data Telling (V : Type 0) : Type 0 where
  starts : Telling V
  proxy_emits : MetricRecording V → Telling V
  watcher_emits : MetricRecording V → Telling V
  shuts_down : ℕ → Telling V

module _ {V : Type 0} where
  unfoldable pub told : Telling V → Call V
  told starts = start_up
  told (proxy_emits m) = emit m
  told (watcher_emits m) = emit m
  told (shuts_down now) = end now

  unfoldable pub calls_told : List (Telling V) → List ExporterCall
  calls_told [] = []
  calls_told (starts ∷ ts) = start_call ∷ calls_told ts
  calls_told (proxy_emits m ∷ ts) = proxy_emit ∷ calls_told ts
  calls_told (watcher_emits m ∷ ts) = watcher_emit ∷ calls_told ts
  calls_told (shuts_down now ∷ ts) = shutdown_call ∷ calls_told ts

  -- Behind a shutdown the proxy emits nothing.
  silent_behind :
      (before after : List (Telling V)) (m : MetricRecording V)
      → ¬ Orderly (calls_told (before ++ proxy_emits m ∷ after)) stopped
  unfolding calls_told Orderly
  silent_behind [] after m (now, v) = ground (arith, now)
  silent_behind (starts ∷ ts) after m (now, v) = ground (arith, now)
  silent_behind (proxy_emits n ∷ ts) after m (now, v) = ground (arith, now)
  silent_behind (watcher_emits n ∷ ts) after m (now, v) = now refl
  silent_behind (shuts_down at ∷ ts) after m (now, v) = now refl

module _ {V S H : Type 0} (api : Sdk V S H) (range : Dict Bytes → Dict Bytes) where
  not_yet_running :
      (m : MetricRecording V) (x : OtelExporter S H)
      → x.running ≡ false
      → (take_call api range (emit m) x).0 ≡ x
  unfolding take_call emit_metric
  not_yet_running m x h = ground (arith, h)

  -- What comes before a duration has started the exporter as it was.
  started_before :
      (before after : List (Telling V)) (m : MetricRecording V) (x : OtelExporter S H)
      → x.running ≡ false
      → Orderly (calls_told (before ++ proxy_emits m ∷ after)) idle
      → (cs : List (Call V)) × (take_calls api range (map told before) x
          ≡ take_calls api range cs (start api range x).0)
  unfolding calls_told Orderly take_calls told
  started_before [] after m x h (now, v) = absurd (ground (arith, now))
  started_before (starts ∷ ts) after m x h (now, v) = (map told ts, unfold take_call in refl)
  started_before (proxy_emits n ∷ ts) after m x h (now, v) = absurd (ground (arith, now))
  started_before (watcher_emits n ∷ ts) after m x h (now, v) =
      let (cs, same) = started_before ts after m x h v in
      (cs, ap (take_calls api range (map told ts)) (not_yet_running n x h) ∙ same)
  started_before (shuts_down at ∷ ts) after m x h (now, v) = absurd (silent_behind ts after m v)

  -- In every interleaving of the run, with an exporter that has no histograms yet and can be
  -- started: a duration that the proxy emits is recorded without an error exactly if a histogram
  -- was registered under its name.
  pub Reached-records :
      (mode : Bytes) {t : System}
      → Reached (begin mode) t
      → (before after : List (Telling V)) (m : MetricRecording V) (x : OtelExporter S H)
      → calls_told (before ++ proxy_emits m ∷ after) ≡ t.calls
      → x.running ≡ false
      → x.histograms ≡ []
      → (start api range x).1 ≡ none
      → ((emit_metric api range m (take_calls api range (map told before) x)).1 ≡ none)
        ↔ (has_histogram m.name x.metric_registrations ≡ true)
  Reached-records mode tr before after m x same off empty good =
      let (cs, at) =
        started_before before after m x off
          (subst (λ l. Orderly l idle) (sym same) (Reached-Orderly mode tr)) in
      subst
        (λ (y : OtelExporter S H).
          ((emit_metric api range m y).1 ≡ none)
          ↔ (has_histogram m.name x.metric_registrations ≡ true))
        (sym at) (emit_metric-take_calls api range x cs m off empty good)
