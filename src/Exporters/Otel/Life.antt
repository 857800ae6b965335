-- ===== src/Exporters/Otel/Life.antt =====
-- What holds of the exporter of internal/exporters/otel.go in every sequence of calls.
use lspwatch.Common.{
  ℕ, ◌+◌, ◌≤◌, ◌≡◌, ◌↔◌, ◌⊎◌, inl, inr, refl, sym, ap, ◌∙◌, Bool, true, false, ◌||◌, ◌&&◌, Option,
  none, some, List, [], ◌∷◌, leb, is_some, if◌then◌else◌, Bytes, same, arith,
}
use lspwatch.Common.Dict.{Dict, get, get-put, get_empty}
use lspwatch.Common.Results.{Result, ok, err}
use lspwatch.Telemetry.{MetricKind, counter, gauge, histogram, MetricRegistration, MetricRecording}
use lspwatch.Exporters.Otel.{
  Sdk, expires_at, OtelExporter, OtelError, shutdown_timeout, Call, register, set_tags, start_up,
  emit, end, emit_metric, add_histogram, create_instrument, continue_creating, create_instruments,
  started, start, shutdown, wait, take_call, take_calls,
}

unfoldable pub is_histogram : MetricKind → Bool
is_histogram histogram = true
is_histogram counter = false
is_histogram gauge = false

-- Some registration is of a histogram with this name.
unfoldable pub has_histogram : Bytes → List MetricRegistration → Bool
unfolding is_histogram
has_histogram name [] = false
has_histogram name (g ∷ gs) = (is_histogram g.kind && same g.name name) || has_histogram name gs

-- A shutdown is among the calls.
unfoldable pub has_end : {V : Type 0} → List (Call V) → Bool
has_end [] = false
has_end (end now ∷ cs) = true
has_end (_ ∷ cs) = has_end cs

module _ {V S H : Type 0} (api : Sdk V S H) (range : Dict Bytes → Dict Bytes) where
  kind_cases : (k : MetricKind) → (k ≡ histogram) ⊎ (is_histogram k ≡ false)
  unfolding is_histogram
  kind_cases histogram = inl refl
  kind_cases counter = inr refl
  kind_cases gauge = inr refl

  abbrev Created : (name : Bytes) → Bool → OtelExporter S H → OtelExporter S H → Type 0
  Created name added x y =
      (is_some (get name y.histograms) ≡ (is_some (get name x.histograms) || added))
      × (y.running ≡ x.running)

  add_histogram_lem :
      (g : MetricRegistration) (x : OtelExporter S H) (t : S × Result Bytes H) (name : Bytes)
      → (add_histogram api range g x t).1 ≡ none
      → Created name (same g.name name) x (add_histogram api range g x t).0
  unfolding add_histogram
  add_histogram_lem g x (sdk, ok h) name e = ground (arith, get-put g.name name h x.histograms)
  add_histogram_lem g x (sdk, err m) name e = cc

  create_instrument_lem :
      (g : MetricRegistration) (x : OtelExporter S H) (name : Bytes)
      → (create_instrument api range g x).1 ≡ none
      → Created name (is_histogram g.kind && same g.name name) x (create_instrument api range g x).0
  unfolding create_instrument is_histogram
  create_instrument_lem g x name e = elim (kind_cases g.kind) [
    | inl kind ↦ rw kind (
        add_histogram_lem g x (api.float64_histogram g.name g.description g.otel_unit x.sdk) name
          (ground (arith, kind, e)))
    | inr other ↦ ground (arith, other)
  ]

  continued :
      (t : OtelExporter S H × Option OtelError)
      (rest : OtelExporter S H → OtelExporter S H × Option OtelError)
      → (continue_creating api range t rest).1 ≡ none
      → (t.1 ≡ none) × (continue_creating api range t rest ≡ rest t.0)
  unfolding continue_creating
  continued (x, none) rest h = (refl, refl)
  continued (x, some e) rest h = cc

  create_instruments_lem :
      (gs : List MetricRegistration) (x : OtelExporter S H) (name : Bytes)
      → (create_instruments api range gs x).1 ≡ none
      → Created name (has_histogram name gs) x (create_instruments api range gs x).0
  unfolding create_instruments has_histogram
  create_instruments_lem [] x name e = ground arith
  create_instruments_lem (g ∷ gs) x name e =
      let (good, next) =
        continued (create_instrument api range g x) (create_instruments api range gs) e in
      let made = create_instrument_lem g x name good in
      let more =
        create_instruments_lem gs (create_instrument api range g x).0 name
          (sym (ap (λ u. u.1) next) ∙ e) in
      rw next (ground (arith, made.0, more.0), more.1 ∙ made.1)

  -- What `Start` leaves when it reports no error: the exporter runs, and of each name there is a
  -- histogram exactly if there was one before or one is registered.
  pub start_lem :
      (x : OtelExporter S H) (name : Bytes)
      → x.running ≡ false
      → (start api range x).1 ≡ none
      → ((start api range x).0.running ≡ true)
        × (is_some (get name (start api range x).0.histograms)
            ≡ (is_some (get name x.histograms) || has_histogram name x.metric_registrations))
  unfolding start started
  start_lem x name idle e =
      let fresh : OtelExporter S H = record x { sdk = api.new_meter x.sdk } in
      let made = create_instruments_lem x.metric_registrations fresh name in
      ground (arith, idle, e, made)

  -- One call keeps a running exporter running, with its histograms.
  take_call_running :
      (c : Call V) (x : OtelExporter S H)
      → x.running ≡ true
      → ((take_call api range c x).0.running ≡ true)
        × ((take_call api range c x).0.histograms ≡ x.histograms)
  unfolding take_call emit_metric start shutdown
  take_call_running (register g) x h = (h, refl)
  take_call_running (set_tags tags) x h = (h, refl)
  take_call_running start_up x h = ground (arith, h)
  take_call_running (emit m) x h = ground (arith, h)
  take_call_running (end now) x h = ground (arith, h)

  take_calls_running :
      (cs : List (Call V)) (x : OtelExporter S H)
      → x.running ≡ true
      → ((take_calls api range cs x).running ≡ true)
        × ((take_calls api range cs x).histograms ≡ x.histograms)
  unfolding take_calls
  take_calls_running [] x h = (h, refl)
  take_calls_running (c ∷ cs) x h =
      let (on, kept) = take_call_running c x h in
      let (on', kept') = take_calls_running cs (take_call api range c x).0 on in (on', kept' ∙ kept)

  emit_metric_lem :
      (m : MetricRecording V) (x : OtelExporter S H)
      → x.running ≡ true
      → ((emit_metric api range m x).1 ≡ none) ↔ (is_some (get m.name x.histograms) ≡ true)
  unfolding emit_metric
  emit_metric_lem m x h = ground (arith, h)

  -- Once an exporter without histograms was started without an error, `EmitMetric` reports no error
  -- exactly for the names that a histogram had been registered under before, whatever is called in
  -- between: neither a later registration nor another start adds one, and even a shutdown takes
  -- none away.
  pub emit_metric-take_calls :
      (x : OtelExporter S H) (cs : List (Call V)) (m : MetricRecording V)
      → x.running ≡ false
      → x.histograms ≡ []
      → (start api range x).1 ≡ none
      → ((emit_metric api range m (take_calls api range cs (start api range x).0)).1 ≡ none)
        ↔ (has_histogram m.name x.metric_registrations ≡ true)
  emit_metric-take_calls x cs m idle empty e =
      let (on, served) = start_lem x m.name idle e in
      let (still, kept) = take_calls_running cs (start api range x).0 on in
      let known : is_some (get m.name (take_calls api range cs (start api range x).0).histograms)
          ≡ has_histogram m.name x.metric_registrations =
        ap (λ hs. is_some (get m.name hs)) kept
        ∙ served
        ∙ ap (λ hs. is_some (get m.name hs) || has_histogram m.name x.metric_registrations) empty
        ∙ ap (λ o. is_some o || has_histogram m.name x.metric_registrations) (get_empty m.name) in
      let emitted = emit_metric_lem m (take_calls api range cs (start api range x).0) still in
      (λ q. sym known ∙ emitted.0 q, λ q. emitted.1 (known ∙ q))

  take_call_waits :
      (c : Call V) (cs : List (Call V)) (x : OtelExporter S H)
      → x.running ≡ true
      → has_end (c ∷ cs) ≡ false
      → (has_end cs ≡ false) × ((take_call api range c x).0.shutdown_ctx ≡ x.shutdown_ctx)
  unfolding take_call has_end emit_metric start
  take_call_waits (register g) cs x on h = (h, refl)
  take_call_waits (set_tags tags) cs x on h = (h, refl)
  take_call_waits start_up cs x on h = ground (arith, on, h)
  take_call_waits (emit m) cs x on h = ground (arith, on, h)
  take_call_waits (end now) cs x on h = cc

  take_calls_waits :
      (cs : List (Call V)) (x : OtelExporter S H)
      → x.running ≡ true
      → has_end cs ≡ false
      → (take_calls api range cs x).shutdown_ctx ≡ x.shutdown_ctx
  unfolding take_calls
  take_calls_waits [] x on h = refl
  take_calls_waits (c ∷ cs) x on h =
      let (h', kept) = take_call_waits c cs x on h in
      take_calls_waits cs (take_call api range c x).0 (take_call_running c x on).0 h' ∙ kept

  -- A running exporter that is shut down at `t` makes a later `Wait` return, but not before the
  -- five seconds of the timeout have gone by, whatever else is called in between.
  pub wait-shutdown :
      (x : OtelExporter S H) (cs : List (Call V)) (t now : ℕ)
      → x.running ≡ true
      → has_end cs ≡ false
      → (until : ℕ) × (wait api range now (take_calls api range cs (shutdown api range t x))
          ≡ some until)
        × (t + shutdown_timeout ≤ until)
        × (now ≤ until)
        × ((until ≡ now) ⊎ (until ≡ t + shutdown_timeout))
  unfolding wait shutdown take_call
  wait-shutdown x cs t now on h =
      let y = shutdown api range t x in
      let kept = take_calls_waits cs y (take_call_running (end t) x on).0 h in
      let ends : y.shutdown_ctx ≡ some (expires_at (t + shutdown_timeout)) = ground (arith, on) in
      (
        if leb (t + shutdown_timeout) now then now else t + shutdown_timeout,
        rw (kept, ends) refl,
        ground arith,
        ground arith,
        ground arith,
      )
