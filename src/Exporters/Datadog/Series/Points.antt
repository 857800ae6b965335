-- ===== src/Exporters/Datadog/Series/Points.antt =====
-- The points of the series that `getTimeseries` of internal/exporters/datadog.go makes of a batch.
use mathlib.Core.List.{Perm, Permᴰ, perm_middle, map-append}
use mathlib.Core.List.Perm
use mathlib.Core.Logic.{∥∥₁_elim, ∥∥₁_prop}
use lspwatch.Common.{
  ◌≡◌, refl, sym, ap, ap₂, subst, ◌∙◌, inl, inr, Option, none, some, List, [], ◌∷◌, ◌++◌,
  append-nil, append_assoc, concat, map, Bytes, same, Bool-cases, arith,
}
use lspwatch.Common.Dict.{Dict, get, put}
use lspwatch.Telemetry.{MetricRecording, Tag}
use lspwatch.Exporters.Datadog.Series.{
  MetricPoint, MetricSeries, point, or_none, compute_timeseries_id, group, series_of, all_series,
  get_timeseries,
}

module _ {ℓ} {A : Type ℓ} where
  pub same-Perm : {xs ys : List A} → xs ≡ ys → Perm xs ys
  same-Perm {xs} e = subst (λ l. Perm xs l) e (Perm.refl xs)

  exchange-Perm : (xs ys zs : List A) → Perm (xs ++ (ys ++ zs)) (ys ++ (xs ++ zs))
  exchange-Perm [] ys zs = Perm.refl (ys ++ zs)
  exchange-Perm (x ∷ xs) ys zs =
      Perm.trans (Perm.cons x (exchange-Perm xs ys zs)) (Perm.symm (perm_middle ys (xs ++ zs)))

  concat-Permᴰ : {xs ys : List (List A)} → Permᴰ xs ys → Perm (concat xs) (concat ys)
  concat-Permᴰ Permᴰ.nil = Perm.refl []
  concat-Permᴰ (Permᴰ.cons {a = a} {l₂ = l} e d) =
      Perm.trans (Perm.append_left a (concat-Permᴰ d)) (same-Perm (ap (λ k. k ++ concat l) e))
  concat-Permᴰ (Permᴰ.swap {a = a} {b = b} {l = l} e f) =
      Perm.trans (exchange-Perm a b (concat l)) (same-Perm (ap₂ (λ k j. k ++ (j ++ concat l)) f e))
  concat-Permᴰ (Permᴰ.trans d e) = Perm.trans (concat-Permᴰ d) (concat-Permᴰ e)

  concat-Perm : {xs ys : List (List A)} → Perm xs ys → Perm (concat xs) (concat ys)
  concat-Perm p = ∥∥₁_elim p ∥∥₁_prop concat-Permᴰ

abbrev values : {A : Type 0} → Bytes × A → A
values e = e.1

-- The metrics of all groups.
abbrev members : {A : Type 0} → Dict (List A) → List A
members grouped = concat (map values grouped)

module _ {V : Type 0} (digest : Bytes → Bytes) (range : (A : Type 0) → Dict A → Dict A) where
  put-members :
      (k : Bytes) (m : MetricRecording V) (ns : List (MetricRecording V))
      (grouped : Dict (List (MetricRecording V)))
      → or_none (get k grouped) ≡ ns
      → Perm (members (put k (ns ++ m ∷ []) grouped)) (m ∷ members grouped)
  unfolding put get
  put-members k m ns [] q = same-Perm (ap (λ l. (l ++ m ∷ []) ++ []) (sym q))
  put-members k m ns ((j, ms) ∷ grouped) q = elim (Bool-cases (same j k)) [
    | inl hit ↦
        let found : ms ≡ ns = ground (arith, hit, q) in
        rw hit (
          Perm.trans (same-Perm (append_assoc ns (m ∷ []) (members grouped))) (
            Perm.trans (perm_middle ns (members grouped))
              (same-Perm (ap (λ l. m ∷ (l ++ members grouped)) (sym found)))))
    | inr miss ↦
        let rest : or_none (get k grouped) ≡ ns = ground (arith, miss, q) in
        rw miss (
          Perm.trans (Perm.append_left ms (put-members k m ns grouped rest))
            (perm_middle ms (members grouped)))
  ]

  group-members :
      (batch : List (MetricRecording V)) (grouped : Dict (List (MetricRecording V)))
      → Perm (members (group digest range batch grouped)) (members grouped ++ batch)
  unfolding group
  group-members [] grouped = same-Perm (sym (append-nil (members grouped)))
  group-members (m ∷ ms) grouped = Perm.trans (group-members ms _) (
      Perm.trans
        (Perm.append_right ms (put-members (compute_timeseries_id digest range m) m _ grouped refl))
        (Perm.symm (perm_middle (members grouped) ms)))

  -- The points of some series.
  pub points_of : List (Option (MetricSeries V)) → List (MetricPoint V)
  points_of [] = []
  points_of (none ∷ series) = points_of series
  points_of (some s ∷ series) = s.points ++ points_of series

  points_of-all_series :
      (units : Dict Bytes) (tags : List Tag) (grouped : Dict (List (MetricRecording V)))
      → points_of (all_series digest range units tags grouped) ≡ map point (members grouped)
  unfolding points_of all_series series_of
  points_of-all_series units tags [] = refl
  points_of-all_series units tags ((k, []) ∷ grouped) = points_of-all_series units tags grouped
  points_of-all_series units tags ((k, m ∷ ms) ∷ grouped) =
      ap (λ l. map point (m ∷ ms) ++ l) (points_of-all_series units tags grouped)
      ∙ sym (map-append point (m ∷ ms) (members grouped))

  -- The series of a batch have the batch's points, each as often as in the batch: none is lost,
  -- doubled or made up, in whatever order a range visits the entries of a map.
  pub get_timeseries-Perm :
      (units : Dict Bytes) (tags : List Tag) (batch : List (MetricRecording V))
      → ((A : Type 0) (m : Dict A) → Perm (range A m) m)
      → Perm (points_of (get_timeseries digest range units tags batch)) (map point batch)
  unfolding get_timeseries
  get_timeseries-Perm units tags batch visits =
      let groups = group digest range batch [] in
      Perm.trans
        (same-Perm (points_of-all_series units tags (range (List (MetricRecording V)) groups)))
        (Perm.map point (
          Perm.trans (concat-Perm (Perm.map values (visits (List (MetricRecording V)) groups)))
            (group-members batch [])))
