-- ===== src/Instance/Run/Submitting.antt =====
-- A run of internal/lspwatch.go with the exporter of internal/exporters/datadog.go: what the calls
-- of the run, in any interleaving with the exporter's goroutine, come to.
use lspwatch.Common.{
  ◌≡◌, ◌≢◌, ap, subst, ◌∙◌, refl, sym, true, false, List, [], ◌∷◌, ◌++◌, map, Bytes, concat, arith,
}
use lspwatch.Config.{DatadogConfig}
use lspwatch.Telemetry.{MetricRecording}
use lspwatch.Exporters.Datadog.{
  DatadogExporter, Outcome, done, panics, blocks, Action, start, emit, shutdown, timeout,
  see_closed, new_datadog_metrics_exporter, receive, act, taken_by, run,
}
use lspwatch.Exporters.Datadog.Life.{flush_lem, StartsOnce, OneLife, run_complete}
use lspwatch.Instance.Run.{
  Exporter, idle, started, stopped, ExporterCall, start_call, proxy_emit, watcher_emit,
  shutdown_call, System, begin, Reached,
}
use lspwatch.Instance.Run.Calls.{Orderly, Reached-Orderly}

-- A call of the run, with the metric if it has one, or a case of the exporter's goroutine.
pub data Doing (V : Type 0) : Type 0 where
  starts : Doing V
  proxy_emits : MetricRecording V → Doing V
  watcher_emits : MetricRecording V → Doing V
  shuts_down : Doing V
  times_out : Doing V
  sees_closed : Doing V

module _ {V : Type 0} where
  unfoldable pub action : Doing V → Action V
  action starts = start
  action (proxy_emits m) = emit m
  action (watcher_emits m) = emit m
  action shuts_down = shutdown
  action times_out = timeout
  action sees_closed = see_closed

  -- The calls of a run among some doings.
  unfoldable pub calls_of : List (Doing V) → List ExporterCall
  calls_of [] = []
  calls_of (starts ∷ ds) = start_call ∷ calls_of ds
  calls_of (proxy_emits m ∷ ds) = proxy_emit ∷ calls_of ds
  calls_of (watcher_emits m ∷ ds) = watcher_emit ∷ calls_of ds
  calls_of (shuts_down ∷ ds) = shutdown_call ∷ calls_of ds
  calls_of (times_out ∷ ds) = calls_of ds
  calls_of (sees_closed ∷ ds) = calls_of ds

  -- The metrics that are to be exported: every duration, and the samples while the exporter runs.
  unfoldable pub due : List (Doing V) → Exporter → List (MetricRecording V)
  due [] e = []
  due (starts ∷ ds) e = due ds started
  due (proxy_emits m ∷ ds) e = m ∷ due ds e
  due (watcher_emits m ∷ ds) started = m ∷ due ds started
  due (watcher_emits m ∷ ds) e = due ds e
  due (shuts_down ∷ ds) e = due ds stopped
  due (times_out ∷ ds) e = due ds e
  due (sees_closed ∷ ds) e = due ds e

  -- A duration is taken, and no `Start`, `EmitMetric` or `Shutdown` panics or blocks for ever.
  abbrev pub GoesWell : Doing V → Outcome → Type 0
  GoesWell (proxy_emits m) o = o ≡ done
  GoesWell _ o = (o ≢ panics) × (o ≢ blocks)

  unfoldable pub AllGoWell : List (Doing V) → DatadogExporter V → Type 0
  unfolding action
  AllGoWell [] s = Unit
  AllGoWell (d ∷ ds) s = GoesWell d (act (action d) s).1 × AllGoWell ds (act (action d) s).0

  -- The exporter is what the calls have made of it.
  abbrev Fits : Exporter → DatadogExporter V → Type 0
  Fits idle s = (s.running ≡ false) × (s.channel_closed ≡ false)
  Fits started s = (s.running ≡ true) × (s.channel_closed ≡ false) × (s.handler_active ≡ true)
  Fits stopped s = s.running ≡ false

  -- What a whole run with the exporter owes.
  abbrev Owed : List (Doing V) → Exporter → DatadogExporter V → Type 0
  Owed ds e s = AllGoWell ds s × OneLife (map action ds) s × ((run (map action ds) s).1 ≡ due ds e)

  Fits-receive :
      (m : MetricRecording V) (s : DatadogExporter V) → Fits started s → Fits started (receive m s)
  unfolding receive
  Fits-receive m s f =
      ground (arith, flush_lem (s.batch ++ m ∷ []) (record s { batch = s.batch ++ m ∷ [] }) refl)

  -- One doing: it goes well, leaves what it is to leave, and takes what is due.
  abbrev Done : Doing V → Exporter → DatadogExporter V → Type 0
  Done d e s =
      GoesWell d (act (action d) s).1 × StartsOnce (action d) s × Fits e (act (action d) s).0

  started_well : (s : DatadogExporter V) → Fits idle s → Done starts started s
  unfolding act action
  started_well s f = ground arith

  durations_well :
      (m : MetricRecording V) (s : DatadogExporter V)
      → Fits started s
      → Done (proxy_emits m) started s × (taken_by (emit m) (act (emit m) s).1 ≡ m ∷ [])
  unfolding act action
  durations_well m s f = ground (arith, Fits-receive m s f)

  samples_idle :
      (m : MetricRecording V) (s : DatadogExporter V)
      → Fits idle s
      → Done (watcher_emits m) idle s × (taken_by (emit m) (act (emit m) s).1 ≡ [])
  unfolding act action
  samples_idle m s f = ground arith

  samples_started :
      (m : MetricRecording V) (s : DatadogExporter V)
      → Fits started s
      → Done (watcher_emits m) started s × (taken_by (emit m) (act (emit m) s).1 ≡ m ∷ [])
  unfolding act action
  samples_started m s f = ground (arith, Fits-receive m s f)

  shut_down_well :
      (e : Exporter) (s : DatadogExporter V) → e ≢ stopped → Fits e s → Done shuts_down stopped s
  unfolding act action
  shut_down_well e s h f = ground arith

  timeout_well : (e : Exporter) (s : DatadogExporter V) → Fits e s → Done times_out e s
  unfolding act action
  timeout_well e s f = ground (arith, flush_lem s.batch s refl)

  closed_well : (e : Exporter) (s : DatadogExporter V) → Fits e s → Done sees_closed e s
  unfolding act action
  closed_well e s f = ground (arith, flush_lem s.batch s refl)

  -- The rest of a run, behind one doing.
  behind :
      (d : Doing V) (ds : List (Doing V)) (e e' : Exporter) (s : DatadogExporter V)
      → Done d e' s
      → (taken_by (action d) (act (action d) s).1 ++ due ds e' ≡ due (d ∷ ds) e)
      → Owed ds e' (act (action d) s).0
      → Owed (d ∷ ds) e s
  unfolding AllGoWell OneLife run
  behind d ds e e' s (well, once, fits) now (all, life, took) = (
    (well, all),
    (once, life),
    ap (λ l. taken_by (action d) (act (action d) s).1 ++ l) took ∙ now,
  )

  owed :
      (ds : List (Doing V)) (e : Exporter) (s : DatadogExporter V)
      → Orderly (calls_of ds) e
      → Fits e s
      → Owed ds e s
  unfolding Orderly calls_of
  owed [] e s v f = unfold AllGoWell OneLife run due in (tt, tt, refl)
  owed (starts ∷ ds) e s (a, v) f =
      let w = started_well s (subst (λ (x : Exporter). Fits x s) a f) in
      behind starts ds e started s w (unfold due action in refl) (owed ds started _ v w.2)
  owed (proxy_emits m ∷ ds) idle s (a, v) f = absurd (ground (arith, a))
  owed (proxy_emits m ∷ ds) started s (a, v) f =
      let (w, took) = durations_well m s f in
      behind (proxy_emits m) ds started started s w
        (unfold due action in ap (λ l. l ++ due ds started) took) (owed ds started _ v w.2)
  owed (proxy_emits m ∷ ds) stopped s (a, v) f = absurd (ground (arith, a))
  owed (watcher_emits m ∷ ds) idle s (a, v) f =
      let (w, took) = samples_idle m s f in
      behind (watcher_emits m) ds idle idle s w
        (unfold due action in ap (λ l. l ++ due ds idle) took) (owed ds idle _ v w.2)
  owed (watcher_emits m ∷ ds) started s (a, v) f =
      let (w, took) = samples_started m s f in
      behind (watcher_emits m) ds started started s w
        (unfold due action in ap (λ l. l ++ due ds started) took) (owed ds started _ v w.2)
  owed (watcher_emits m ∷ ds) stopped s (a, v) f = absurd (a refl)
  owed (shuts_down ∷ ds) e s (a, v) f =
      let w = shut_down_well e s a f in
      behind shuts_down ds e stopped s w (unfold due action in refl) (owed ds stopped _ v w.2)
  owed (times_out ∷ ds) e s v f =
      let w = timeout_well e s f in
      behind times_out ds e e s w (unfold due action in refl) (owed ds e _ v w.2)
  owed (sees_closed ∷ ds) e s v f =
      let w = closed_well e s f in
      behind sees_closed ds e e s w (unfold due action in refl) (owed ds e _ v w.2)

  module _ (mode : Bytes) {t : System} (tr : Reached (begin mode) t) (cfg : DatadogConfig)
      (ds : List (Doing V)) (same : calls_of ds ≡ t.calls) where
    new-Owed : Owed ds idle (new_datadog_metrics_exporter cfg)
    new-Owed =
        owed ds idle (new_datadog_metrics_exporter cfg)
          (subst (λ cs. Orderly cs idle) (sym same) (Reached-Orderly mode tr))
          (unfold new_datadog_metrics_exporter in (refl, refl))

    -- In a run with a new Datadog exporter, whose goroutine may come in anywhere, every duration is
    -- taken, and no call of `Start`, `EmitMetric` or `Shutdown` panics or blocks for ever. `Wait` is
    -- not among these calls.
    pub Reached-AllGoWell : AllGoWell ds (new_datadog_metrics_exporter cfg)
    Reached-AllGoWell = new-Owed.0

    -- When that goroutine has ended, or has never begun, what was submitted is every duration and
    -- every sample that came between the start of the exporter and its end, in order.
    pub Reached-submits :
        (run (map action ds) (new_datadog_metrics_exporter cfg)).0.handler_active ≡ false
        → concat (run (map action ds) (new_datadog_metrics_exporter cfg)).0.submitted ≡ due ds idle
    Reached-submits ended = run_complete cfg (map action ds) new-Owed.1 ended ∙ new-Owed.2
