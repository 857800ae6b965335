-- ===== src/Exporters/Datadog/Life.antt =====
-- What a life of the Datadog exporter keeps: no metric is lost or sent twice, no batch is too
-- large.
use lspwatch.Common.{
  ℕ, ◌<◌, ◌≤◌, ◌≡◌, ◌≢◌, refl, sym, ap, ◌∙◌, inl, inr, true, false, List, [], ◌∷◌, ◌++◌, append-nil,
  append_assoc, length, length-append, concat, concat-append, All, All-append, arith, Bool-cases,
}
use lspwatch.Common.Int.{pos}
use lspwatch.Config.{DatadogConfig}
use lspwatch.Telemetry.{MetricRecording}
use lspwatch.Exporters.Datadog.{
  DatadogExporter, panics, blocks, Action, start, emit, shutdown, timeout, see_closed,
  new_datadog_metrics_exporter, reaches, flush, receive, emit_metric, act, taken_by, run,
}

module _ {V : Type 0} where
  -- All that the exporter holds or has submitted, in order.
  abbrev pub contents : DatadogExporter V → List (MetricRecording V)
  contents s = concat s.submitted ++ s.batch

  contents-flush :
      (b : List (MetricRecording V)) (s : DatadogExporter V)
      → s.batch ≡ b
      → contents (flush b s) ≡ contents s
  unfolding flush
  contents-flush [] s e = refl
  contents-flush (m ∷ ms) s e = rw (e, concat-append s.submitted ((m ∷ ms) ∷ [])) (simp append-nil)

  pub contents-receive :
      (m : MetricRecording V) (s : DatadogExporter V)
      → contents (receive m s) ≡ contents s ++ m ∷ []
  unfolding receive
  contents-receive m s = elim (Bool-cases (reaches (length (s.batch ++ m ∷ [])) s.batch_size)) [
    | inl full ↦ rw full (
        contents-flush (s.batch ++ m ∷ []) (record s { batch = s.batch ++ m ∷ [] }) refl
        ∙ sym (append_assoc (concat s.submitted) s.batch (m ∷ [])))
    | inr room ↦ rw room (sym (append_assoc (concat s.submitted) s.batch (m ∷ [])))
  ]

  -- `flush` at once empties the batch and leaves the rest of the state.
  pub flush_lem :
      (b : List (MetricRecording V)) (s : DatadogExporter V)
      → s.batch ≡ b
      → ((flush b s).batch ≡ [])
        × ((flush b s).running ≡ s.running)
        × ((flush b s).channel_closed ≡ s.channel_closed)
        × ((flush b s).handler_active ≡ s.handler_active)
        × ((flush b s).batch_size ≡ s.batch_size)
  unfolding flush
  flush_lem [] s e = (e, refl, refl, refl, refl)
  flush_lem (m ∷ ms) s e = (refl, refl, refl, refl, refl)

  -- An exporter in its first life: what runs has an open channel and a goroutine behind it.
  pub record IsSound (s : DatadogExporter V) : Type 0 where
    pub open_when_running :
        s.running ≡ true → (s.channel_closed ≡ false) × (s.handler_active ≡ true)
    pub drained : s.handler_active ≡ false → s.batch ≡ []

  -- No `Start` once the exporter was shut down.
  abbrev pub StartsOnce : Action V → DatadogExporter V → Type 0
  StartsOnce start s = s.channel_closed ≡ false
  StartsOnce _ s = Unit

  act-IsSound :
      (a : Action V) (s : DatadogExporter V) → StartsOnce a s → IsSound s → IsSound (act a s).0
  unfolding act receive
  act-IsSound start s once v = ground arith
  act-IsSound (emit m) s once v =
      ground (arith, flush_lem (s.batch ++ m ∷ []) (record s { batch = s.batch ++ m ∷ [] }) refl)
  act-IsSound shutdown s once v = ground arith
  act-IsSound timeout s once v = ground (arith, flush_lem s.batch s refl)
  act-IsSound see_closed s once v = ground (arith, flush_lem s.batch s refl)

  -- In a first life no call panics or blocks for ever.
  act_safe :
      (a : Action V) (s : DatadogExporter V)
      → IsSound s
      → ((act a s).1 ≢ panics) × ((act a s).1 ≢ blocks)
  unfolding act
  act_safe a s v = ground arith

  contents-drained : (s : DatadogExporter V) → concat (flush s.batch s).submitted ++ [] ≡ contents s
  contents-drained s =
      ap (λ b. concat (flush s.batch s).submitted ++ b) (sym (flush_lem s.batch s refl).0)
      ∙ contents-flush s.batch s refl

  contents-act :
      (a : Action V) (s : DatadogExporter V)
      → contents (act a s).0 ≡ contents s ++ taken_by a (act a s).1
  unfolding act
  contents-act start s = ground (arith, append-nil (contents s))
  contents-act (emit m) s = ground (arith, append-nil (contents s), contents-receive m s)
  contents-act shutdown s = ground (arith, append-nil (contents s))
  contents-act timeout s = ground (arith, append-nil (contents s), contents-flush s.batch s refl)
  contents-act see_closed s = ground (arith, append-nil (contents s), contents-drained s)

  -- No metric is lost, sent twice or reordered: whatever the exporter's methods and its goroutine
  -- do, the submitted batches and the one being filled are, one behind another, what they were
  -- before, followed by the metrics that `EmitMetric` took since.
  pub run-contents :
      (actions : List (Action V)) (s : DatadogExporter V)
      → contents (run actions s).0 ≡ contents s ++ (run actions s).1
  unfolding run
  run-contents [] s = sym (append-nil (contents s))
  run-contents (a ∷ rest) s =
      run-contents rest (act a s).0
      ∙ ap (λ l. l ++ (run rest (act a s).0).1) (contents-act a s)
      ∙ append_assoc (contents s) _ _

  -- A run in which `Start` is not called after a `Shutdown`.
  unfoldable pub OneLife : List (Action V) → DatadogExporter V → Type 0
  OneLife [] s = Unit
  OneLife (a ∷ rest) s = StartsOnce a s × OneLife rest (act a s).0

  run-IsSound :
      (actions : List (Action V)) (s : DatadogExporter V)
      → OneLife actions s
      → IsSound s
      → IsSound (run actions s).0
  unfolding run OneLife
  run-IsSound [] s once v = v
  run-IsSound (a ∷ rest) s (one, once) v = run-IsSound rest (act a s).0 once (act-IsSound a s one v)

  new-IsSound : (cfg : DatadogConfig) → IsSound (new_datadog_metrics_exporter cfg)
  unfolding new_datadog_metrics_exporter
  new-IsSound cfg = ground arith

  -- A new exporter that is started at most once, and whose goroutine has ended or not begun, has
  -- submitted exactly the metrics that were taken, in order and in batches.
  pub run_complete :
      (cfg : DatadogConfig) (actions : List (Action V))
      → OneLife actions (new_datadog_metrics_exporter cfg)
      → (run actions (new_datadog_metrics_exporter cfg)).0.handler_active ≡ false
      → concat (run actions (new_datadog_metrics_exporter cfg)).0.submitted
        ≡ (run actions (new_datadog_metrics_exporter cfg)).1
  run_complete cfg actions once ended =
      let t = (run actions (new_datadog_metrics_exporter cfg)).0 in
      sym (append-nil (concat t.submitted))
      ∙ ap (λ b. concat t.submitted ++ b)
          (sym ((run-IsSound actions _ once (new-IsSound cfg)).drained ended))
      ∙ run-contents actions (new_datadog_metrics_exporter cfg)
      ∙ unfold new_datadog_metrics_exporter in refl

  -- In a first life no call panics or blocks for ever, at any moment.
  pub act-run_safe :
      (cfg : DatadogConfig) (actions : List (Action V)) (a : Action V)
      → OneLife actions (new_datadog_metrics_exporter cfg)
      → let o = (act a (run actions (new_datadog_metrics_exporter cfg)).0).1 in
        (o ≢ panics) × (o ≢ blocks)
  act-run_safe cfg actions a once = act_safe a _ (run-IsSound actions _ once (new-IsSound cfg))

  -- A batch that is not empty and has at most `n` metrics.
  abbrev pub IsBatch : ℕ → List (MetricRecording V) → Type 0
  IsBatch n b = (0 < length b) × (length b ≤ n)

  -- An exporter with batches of at most `n`, and one in progress that is smaller.
  abbrev pub IsSized : ℕ → DatadogExporter V → Type 0
  IsSized n s = (s.batch_size ≡ pos n) × All (IsBatch n) s.submitted × (length s.batch < n)

  flush-IsSized :
      (n : ℕ) (b : List (MetricRecording V)) (s : DatadogExporter V)
      → 0 < n
      → s.batch_size ≡ pos n
      → All (IsBatch n) s.submitted
      → s.batch ≡ b
      → length b ≤ n
      → IsSized n (flush b s)
  unfolding flush
  flush-IsSized n [] s h size all e l = (size, all, omega (arith, ap length e))
  flush-IsSized n (m ∷ ms) s h size all e l =
      (size, All-append (IsBatch n) _ s.submitted all ((omega arith, l), tt), omega arith)

  receive-IsSized :
      (n : ℕ) (m : MetricRecording V) (s : DatadogExporter V)
      → 0 < n
      → IsSized n s
      → IsSized n (receive m s)
  unfolding receive
  receive-IsSized n m s h (size, all, l) =
      elim (Bool-cases (reaches (length (s.batch ++ m ∷ [])) s.batch_size)) [
        | inl full ↦ rw full (
            flush-IsSized n (s.batch ++ m ∷ []) (record s { batch = s.batch ++ m ∷ [] }) h size all
              refl (omega (arith, length-append s.batch (m ∷ []))))
        | inr room ↦ rw room (size, all, ground (arith, size, room))
      ]

  flushed-IsSized :
      (n : ℕ) (s : DatadogExporter V) → 0 < n → IsSized n s → IsSized n (flush s.batch s)
  flushed-IsSized n s h (size, all, l) = flush-IsSized n s.batch s h size all refl (omega arith)

  act-IsSized :
      (n : ℕ) (a : Action V) (s : DatadogExporter V) → 0 < n → IsSized n s → IsSized n (act a s).0
  unfolding act emit_metric
  act-IsSized n start s h v = ground arith
  act-IsSized n (emit m) s h v = ground (arith, receive-IsSized n m s h v)
  act-IsSized n shutdown s h v = ground arith
  act-IsSized n timeout s h v = ground (arith, flushed-IsSized n s h v)
  act-IsSized n see_closed s h v = ground (arith, flushed-IsSized n s h v)

  -- With a batch size n ≥ 1 every submitted batch holds between 1 and n metrics.
  pub run-IsSized :
      (n : ℕ) (actions : List (Action V)) (s : DatadogExporter V)
      → 0 < n
      → IsSized n s
      → IsSized n (run actions s).0
  unfolding run
  run-IsSized n [] s h v = v
  run-IsSized n (a ∷ rest) s h v = run-IsSized n rest (act a s).0 h (act-IsSized n a s h v)
