-- ===== src/Exporters/Datadog/Series.antt =====
-- `getTimeseries` of internal/exporters/datadog.go and its helpers: the grouping of a batch into
-- series by name and tags. The digest (`sha256.Sum256` in hexadecimal) is a parameter, and so is
-- the order in which Go ranges over a map, `range`.
pub mod Groups
pub mod Points
use lspwatch.Common.{
  All, ◌≢◌, is_some, ℕ, inl, inr, ◌≡◌, refl, sym, ap, ◌∙◌, Bool, true, false, ◌||◌, Option, none,
  some, List, [], ◌∷◌, ◌++◌, append-nil, append_assoc, map, ltb, ◌==◌, if◌then◌else◌, Bytes, same,
  same_iff, Bool-cases,
}
use lspwatch.Common.Dict.{Dict, get, put, get-put}
use lspwatch.Telemetry.{MetricRecording, Tag}

-- the order of Go's strings
unfoldable pub bytes_le : Bytes → Bytes → Bool
bytes_le [] ys = true
bytes_le (x ∷ xs) [] = false
bytes_le (x ∷ xs) (y ∷ ys) =
    let rest = bytes_le xs ys in ltb x y || (if x == y then rest else false)

-- `sort.Strings`, as an insertion sort
insert_sorted : Bytes → List Bytes → List Bytes
unfolding bytes_le
insert_sorted k [] = k ∷ []
insert_sorted k (j ∷ js) =
    let rest = insert_sorted k js in if bytes_le k j then k ∷ j ∷ js else j ∷ rest

unfoldable pub sort_strings : List Bytes → List Bytes
unfolding insert_sorted
sort_strings [] = []
sort_strings (k ∷ ks) = insert_sorted k (sort_strings ks)

tag_keys : Dict Bytes → List Bytes
tag_keys [] = []
tag_keys ((k, v) ∷ m) = k ∷ tag_keys m

value_of : Option Bytes → Bytes
value_of none = []
value_of (some v) = v

-- the loop that appends `k=v;` for each key
unfoldable pub append_tags : Dict Bytes → Bytes → List Bytes → Bytes
unfolding value_of get
append_tags m text [] = text
append_tags m text (k ∷ ks) =
    append_tags m (text ++ (k ++ (b'=' ∷ (value_of (get k m) ++ b';' ∷ [])))) ks

-- `getTagString`
abbrev pub get_tag_string : Bytes → Bytes → Bytes
get_tag_string key value = key ++ b':' ∷ value

unfoldable pub series_text : {V : Type 0} → MetricRecording V → Bytes
unfolding append_tags sort_strings tag_keys
series_text m = append_tags m.tags (m.name ++ b';' ∷ []) (sort_strings (tag_keys m.tags))

-- `datadogV2.MetricPoint` and `datadogV2.MetricSeries`
pub record MetricPoint (V : Type 0) : Type 0 where
  pub timestamp : ℕ
  pub value : V

pub record MetricSeries (V : Type 0) : Type 0 where
  pub metric : Bytes
  pub points : List (MetricPoint V)
  pub unit : Bytes
  pub tags : List Bytes

-- `getTags`: a tag for each entry of the metric's map, in the order of the range
unfoldable pub get_tags : Dict Bytes → List Bytes
get_tags [] = []
get_tags ((k, v) ∷ m) = get_tag_string k v ∷ get_tags m

global_tag_strings : List Tag → List Bytes
global_tag_strings [] = []
global_tag_strings (t ∷ ts) = get_tag_string t.key t.value ∷ global_tag_strings ts

unfoldable pub point : {V : Type 0} → MetricRecording V → MetricPoint V
point m = record { timestamp = m.timestamp; value = m.value }

abbrev pub or_none : {V : Type 0} → Option (List (MetricRecording V)) → List (MetricRecording V)
or_none none = []
or_none (some ms) = ms

module _ {V : Type 0} (digest : Bytes → Bytes) (range : (A : Type 0) → Dict A → Dict A) where
  -- `computeTimeseriesId`
  unfoldable pub compute_timeseries_id : MetricRecording V → Bytes
  unfolding series_text
  compute_timeseries_id m = digest (series_text m)

  -- the loop that fills `groupedMetrics`
  unfoldable pub group :
      List (MetricRecording V) → Dict (List (MetricRecording V)) → Dict (List (MetricRecording V))
  unfolding compute_timeseries_id get put
  group [] grouped = grouped
  group (m ∷ ms) grouped =
      let key = compute_timeseries_id m in
      group ms (put key (or_none (get key grouped) ++ m ∷ []) grouped)

  -- the body of the second loop; `metrics[0]` of no metrics, which would panic, is `none`
  unfoldable pub series_of :
      Dict Bytes → List Tag → List (MetricRecording V) → Option (MetricSeries V)
  unfolding get_tags global_tag_strings value_of get point
  series_of units tags [] = none
  series_of units tags (m ∷ ms) = some (record {
    metric = m.name;
    points = map point (m ∷ ms);
    unit = value_of (get m.name units);
    tags = get_tags (range Bytes m.tags) ++ global_tag_strings tags;
  })

  unfoldable pub all_series :
      Dict Bytes → List Tag → Dict (List (MetricRecording V)) → List (Option (MetricSeries V))
  unfolding series_of
  all_series units tags [] = []
  all_series units tags ((k, ms) ∷ rest) = series_of units tags ms ∷ all_series units tags rest

  -- `getTimeseries`
  unfoldable pub get_timeseries :
      Dict Bytes → List Tag → List (MetricRecording V) → List (Option (MetricSeries V))
  unfolding all_series group
  get_timeseries units tags batch =
      all_series units tags (range (List (MetricRecording V)) (group batch []))
