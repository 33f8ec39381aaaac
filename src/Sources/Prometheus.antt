-- ===== src/Sources/Prometheus.antt =====
-- plugins/sources/prometheus: point_builder.go, the points of the metric families of a scrape. A pointer
-- from the interner is the text that it points to. Tags that are handed to a point become its label
-- pairs, a copy, so that no two points share a map. A range over a map is in the order of the list.
pub mod Reader
pub mod Scrape
pub mod Built
pub mod Appended
pub mod TagsOf
pub mod Instances
pub mod Provider
use Prim.Native.Char.{Char}
use Prim.Native.String.{◌++◌}
use wavefront_collector_for.Prelude.{
  ℕ, ◌+◌, String, List, [], ◌∷◌, Option, none, some, Bool, true, false, not, ◌==◌, ◌||◌,
  if◌then◌else◌,
}
use mathlib.Core.List.{◌++◌ as ◌++ₗ◌}
use wavefront_collector_for.Prelude.Text.{replace}
use wavefront_collector_for.Prelude.Maps.{Map, insert, copy_into}
use wavefront_collector_for.Float64.{Float64}
use wavefront_collector_for.Filter.{GlobFilter}
use wavefront_collector_for.Wf.Point.{new_point, set_label_pairs}
use wavefront_collector_for.Wf.Distribution.{Centroid, Distribution, new_distribution}
use wavefront_collector_for.Wf.Metric.{Metric, point, distribution}
use wavefront_collector_for.Wf.Filtering.{filter_append}

-- The metric families of the client model: a getter of a part that is missing gives zero values.
pub record Quantile (F : Type 0) : Type 0 where
  pub quantile : F
  pub value : F

pub record Bucket (F : Type 0) : Type 0 where
  pub upper_bound : F
  pub cumulative_count : ℕ

pub record Summary (F : Type 0) : Type 0 where
  pub quantiles : List (Quantile F)
  pub sample_count : ℕ
  pub sample_sum : F

pub record Histogram (F : Type 0) : Type 0 where
  pub buckets : List (Bucket F)
  pub sample_count : ℕ
  pub sample_sum : F

pub record PromMetric (F : Type 0) : Type 0 where
  pub label : List (String × String)
  pub gauge : Option F
  pub counter : Option F
  pub untyped : Option F
  pub summary : Summary F
  pub histogram : Histogram F

pub data FamilyType : Type 0 where
  summary_type histogram_type other_type : FamilyType

pub record MetricFamily (F : Type 0) : Type 0 where
  pub type : FamilyType
  pub metrics : List (PromMetric F)

pub record PointBuilder : Type 0 where
  pub filters : Option GlobFilter
  pub source : String
  pub prefix : String
  pub omit_bucket_suffix : Bool
  pub tags : Map String

-- the tags that have a value
unfoldable pub put_tags : Map String → Map String → Map String
put_tags [] tags = tags
put_tags ((k, v) ∷ more) tags = put_tags more (if v == "" then tags else insert k v tags)

-- the labels that have a name and a value
unfoldable pub put_labels : List (String × String) → Map String → Map String
put_labels [] tags = tags
put_labels ((k, v) ∷ labels) tags =
    put_labels labels (if k == "" || v == "" then tags else insert k v tags)

unfoldable pub build_tags : {F : Type 0} → PointBuilder → PromMetric F → Map String
unfolding put_tags put_labels
build_tags b m = put_labels m.label (put_tags b.tags [])

unfoldable pub full_name : PointBuilder → String → String
full_name b name = b.prefix ++ replace b'_' "." name

unfoldable pub histogram_name : PointBuilder → String → String
histogram_name b name = if b.omit_bucket_suffix then name else name ++ ".bucket"

-- the metrics so far, and by how much the counter of filtered points grew
abbrev pub Built : Type 0 → Type 0
Built F = List (Metric F) × ℕ

abbrev pub more : {F : Type 0} → Built F → Built F → Built F
more a b = (a.0 ++ₗ b.0, a.1 + b.1)

-- `print` is the verb %v, `of_uint64` the conversion of a uint64
module _ {F : Type 0} ⦃f : Float64 F⦄ (print : F → String) (of_uint64 : ℕ → F)
    (b : PointBuilder) where
  -- FilterAppend, with the counter of the builder
  unfoldable pub add_metric : Metric F → Built F → Built F
  add_metric m done =
      let (metrics, filtered) = filter_append b.filters done.0 m in (metrics, done.1 + filtered)

  unfoldable pub point_of : String → F → ℕ → Map String → Metric F
  unfolding full_name
  point_of name value ts tags =
      point (set_label_pairs (new_point (full_name b name) value ts b.source []) tags)

  -- a value that is not NaN
  abbrev add_number : String → F → ℕ → Map String → Built F → Built F
  add_number name x now tags done =
      if f.eq x x then add_metric (point_of name x now tags) done else done

  abbrev pick_untyped : String → Option F → ℕ → Map String → Built F
  pick_untyped name none now tags = ([], 0)
  pick_untyped name (some x) now tags = add_number (name ++ ".value") x now tags ([], 0)

  abbrev pick_counter : String → Option F → Option F → ℕ → Map String → Built F
  pick_counter name none u now tags = pick_untyped name u now tags
  pick_counter name (some x) u now tags = add_number (name ++ ".counter") x now tags ([], 0)

  abbrev pick : String → Option F → Option F → Option F → ℕ → Map String → Built F
  pick name none c u now tags = pick_counter name c u now tags
  pick name (some x) c u now tags = add_number (name ++ ".gauge") x now tags ([], 0)

  unfoldable pub build_points : String → PromMetric F → ℕ → Built F
  unfolding add_metric point_of build_tags
  build_points name m now = pick name m.gauge m.counter m.untyped now (build_tags b m)

  unfoldable pub add_quantiles : String → List (Quantile F) → ℕ → Map String → Built F → Built F
  unfolding add_metric point_of
  add_quantiles name [] now tags done = done
  add_quantiles name (q ∷ qs) now tags done =
      add_quantiles name qs now tags
        (add_number name q.value now (insert "quantile" (print q.quantile) tags) done)

  unfoldable pub add_totals : String → ℕ → F → ℕ → Map String → Built F → Built F
  unfolding add_metric point_of
  add_totals name count sum now tags done =
      add_metric (point_of (name ++ ".sum") sum now tags)
        (add_metric (point_of (name ++ ".count") (of_uint64 count) now tags) done)

  unfoldable pub build_summary_points : String → PromMetric F → ℕ → Map String → Built F
  unfolding add_quantiles add_totals
  build_summary_points name m now tags =
      add_totals name m.summary.sample_count m.summary.sample_sum now tags
        (add_quantiles name m.summary.quantiles now tags ([], 0))

  unfoldable pub centroids_of : List (Bucket F) → List (Centroid F)
  centroids_of [] = []
  centroids_of (k ∷ ks) =
      (record { value = k.upper_bound; count = of_uint64 k.cumulative_count }) ∷ centroids_of ks

  -- NewCumulativeDistribution at the second `now`
  unfoldable pub build_wf_histogram : String → PromMetric F → ℕ → Map String → Metric F
  unfolding centroids_of full_name
  build_wf_histogram name m now tags = distribution (
      new_distribution true (full_name b name) b.source tags (centroids_of m.histogram.buckets) now)

  unfoldable pub add_buckets : String → List (Bucket F) → ℕ → Map String → Built F → Built F
  unfolding add_metric point_of
  add_buckets name [] now tags done = done
  add_buckets name (k ∷ ks) now tags done = add_buckets name ks now tags (
      add_metric
        (point_of name (of_uint64 k.cumulative_count) now (insert "le" (print k.upper_bound) tags))
        done)

  unfoldable pub build_histogram_points : String → PromMetric F → ℕ → Map String → Built F
  unfolding add_buckets add_totals histogram_name
  build_histogram_points name m now tags =
      add_totals name m.histogram.sample_count m.histogram.sample_sum now tags
        (add_buckets (histogram_name b name) m.histogram.buckets now tags ([], 0))

  -- one metric of a family; `converts` is whether the conversion of histograms is enabled
  unfoldable pub build_metric : Bool → FamilyType → String → PromMetric F → ℕ → Built F → Built F
  unfolding build_points build_summary_points build_histogram_points build_wf_histogram add_metric
  build_metric converts summary_type name m now done =
      more done (build_summary_points name m now (build_tags b m))
  build_metric converts histogram_type name m now done =
      more
        (if converts
          then add_metric (build_wf_histogram name m now (build_tags b m)) done
          else done)
        (build_histogram_points name m now (build_tags b m))
  build_metric converts other_type name m now done = more done (build_points name m now)

  unfoldable pub build_family :
      Bool → FamilyType → String → List (PromMetric F) → ℕ → Built F → Built F
  unfolding build_metric
  build_family converts type name [] now done = done
  build_family converts type name (m ∷ ms) now done =
      build_family converts type name ms now (build_metric converts type name m now done)

  unfoldable pub build : Bool → Map (MetricFamily F) → ℕ → Built F → Built F
  unfolding build_family
  build converts [] now done = done
  build converts ((name, mf) ∷ families) now done =
      build converts families now (build_family converts mf.type name mf.metrics now done)
