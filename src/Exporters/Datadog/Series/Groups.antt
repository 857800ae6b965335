-- ===== src/Exporters/Datadog/Series/Groups.antt =====
-- The groups that `getTimeseries` makes of a batch.
use lspwatch.Common.{
  All, is_some, ◌≢◌, ◌≡◌, refl, sym, ap, ◌∙◌, inl, inr, true, List, [], ◌∷◌, ◌++◌, append-nil,
  append_assoc, if◌then◌else◌, Bytes, same, same_iff, Bool-cases,
}
use lspwatch.Common.Dict.{Dict, get, put, get-put}
use lspwatch.Telemetry.{MetricRecording, Tag}
use lspwatch.Exporters.Datadog.Series.{
  or_none, compute_timeseries_id, group, series_of, all_series, get_timeseries,
}

module _ {V : Type 0} (digest : Bytes → Bytes) (range : (A : Type 0) → Dict A → Dict A) where
  -- The metrics of a batch with a given identifier, in order.
  pub with_id : Bytes → List (MetricRecording V) → List (MetricRecording V)
  with_id key [] = []
  with_id key (m ∷ ms) =
      let rest = with_id key ms in
      if same (compute_timeseries_id digest range m) key then m ∷ rest else rest

  group-with_id :
      (key : Bytes) (batch : List (MetricRecording V)) (grouped : Dict (List (MetricRecording V)))
      → or_none (get key (group digest range batch grouped))
        ≡ or_none (get key grouped) ++ with_id key batch
  unfolding group with_id
  group-with_id key [] grouped = sym (append-nil _)
  group-with_id key (m ∷ ms) grouped =
      group-with_id key ms _ ∙ elim (Bool-cases (same (compute_timeseries_id digest range m) key)) [
        | inl hit ↦
            rw
              (
                get-put (compute_timeseries_id digest range m) key
                    (or_none (get (compute_timeseries_id digest range m) grouped) ++ m ∷ [])
                    grouped,
                hit,
              )
              (ap (λ k. (or_none (get k grouped) ++ m ∷ []) ++ with_id key ms)
                  ((same_iff (compute_timeseries_id digest range m) key).0 hit)
                ∙ append_assoc (or_none (get key grouped)) (m ∷ []) (with_id key ms))
        | inr miss ↦ rw (
          get-put (compute_timeseries_id digest range m) key
              (or_none (get (compute_timeseries_id digest range m) grouped) ++ m ∷ []) grouped,
          miss,
        )
      ]

  -- Grouping neither loses a metric of a batch nor mixes series: under every identifier stand
  -- exactly the metrics of the batch with that identifier, in the order of the batch.
  pub get-group :
      (key : Bytes) (batch : List (MetricRecording V))
      → or_none (get key (group digest range batch [])) ≡ with_id key batch
  get-group key batch = group-with_id key batch [] ∙ unfold get in refl

  -- A group with at least one metric.
  abbrev pub IsFull : Bytes × List (MetricRecording V) → Type 0
  IsFull e = e.1 ≢ []

  put-IsFull :
      (k : Bytes) (ms : List (MetricRecording V)) (grouped : Dict (List (MetricRecording V)))
      → ms ≢ []
      → All IsFull grouped
      → All IsFull (put k ms grouped)
  unfolding put
  put-IsFull k ms [] h all = (h, tt)
  put-IsFull k ms ((j, ns) ∷ grouped) h all = elim (Bool-cases (same j k)) [
    | inl hit ↦ rw hit (h, all.1)
    | inr miss ↦ rw miss (all.0, put-IsFull k ms grouped h all.1)
  ]

  append-ne-nil : (ms : List (MetricRecording V)) (m : MetricRecording V) → ms ++ m ∷ [] ≢ []
  append-ne-nil [] m e = cc
  append-ne-nil (n ∷ ms) m e = cc

  group-IsFull :
      (batch : List (MetricRecording V)) (grouped : Dict (List (MetricRecording V)))
      → All IsFull grouped
      → All IsFull (group digest range batch grouped)
  unfolding group
  group-IsFull [] grouped all = all
  group-IsFull (m ∷ ms) grouped all =
      group-IsFull ms _ (put-IsFull _ _ grouped (append-ne-nil _ m) all)

  all_series_some :
      (units : Dict Bytes) (tags : List Tag) (grouped : Dict (List (MetricRecording V)))
      → All IsFull grouped
      → All (λ o. is_some o ≡ true) (all_series digest range units tags grouped)
  unfolding all_series series_of
  all_series_some units tags [] all = tt
  all_series_some units tags ((k, []) ∷ grouped) (one, all) = absurd (one refl)
  all_series_some units tags ((k, m ∷ ms) ∷ grouped) (one, all) =
      (refl, all_series_some units tags grouped all)

  -- `getTimeseries` never panics, whatever the batch: every group has a first metric, provided that
  -- a range over a map visits nothing but the map's entries.
  pub get_timeseries-total :
      (units : Dict Bytes) (tags : List Tag) (batch : List (MetricRecording V))
      → ((A : Type 0) (P : Bytes × A → Type 0) (m : Dict A) → All P m → All P (range A m))
      → All (λ o. is_some o ≡ true) (get_timeseries digest range units tags batch)
  unfolding get_timeseries
  get_timeseries-total units tags batch visits =
      all_series_some units tags _
        (visits _ IsFull (group digest range batch []) (group-IsFull batch [] tt))
