-- ===== src/Sources/Prometheus/Built.antt =====
-- How many metrics the families of a scrape become.
use Prim.Native.String.{◌++◌}
use wavefront_collector_for.Prelude.{
  ℕ, ◌+◌, String, List, [], ◌∷◌, Option, none, some, Bool, length, length-append, ◌≡◌, refl, sum_of,
  arith, if◌then◌else◌, Bool-cases, inl, inr,
}
use wavefront_collector_for.Prelude.Maps.{Map}
use wavefront_collector_for.Float64.{Float64}
use wavefront_collector_for.Wf.Metric.{Metric}
use wavefront_collector_for.Wf.Filtering.{filter_append-length}
use wavefront_collector_for.Sources.Prometheus.{
  Quantile, Bucket, PromMetric, FamilyType, summary_type, histogram_type, other_type, MetricFamily,
  PointBuilder, Built, more, add_metric, add_number, pick, build_points, add_quantiles, add_totals,
  build_summary_points, add_buckets, build_histogram_points, build_wf_histogram, build_tags,
  histogram_name, build_metric, build_family, build,
}

-- the metrics so far with those that the filter dropped
abbrev pub total : {F : Type 0} → Built F → ℕ
total done = length done.0 + done.1

module _ {F : Type 0} ⦃f : Float64 F⦄ where
  -- 1 for a number, 0 for NaN
  abbrev pub one_number : F → ℕ
  one_number x = if f.eq x x then 1 else 0

  -- the first value that is there
  abbrev pub one_value : Option F → Option F → Option F → ℕ
  one_value none none none = 0
  one_value none none (some x) = one_number x
  one_value none (some x) u = one_number x
  one_value (some x) c u = one_number x

  abbrev pub metric_points : Bool → FamilyType → PromMetric F → ℕ
  metric_points converts summary_type m = sum_of (λ q. one_number q.value) m.summary.quantiles + 2
  metric_points converts histogram_type m =
      (if converts then 1 else 0) + length m.histogram.buckets + 2
  metric_points converts other_type m = one_value m.gauge m.counter m.untyped

  abbrev pub family_points : Bool → MetricFamily F → ℕ
  family_points converts mf = sum_of (λ m. metric_points converts mf.type m) mf.metrics

module _ {F : Type 0} ⦃f : Float64 F⦄ (print : F → String) (of_uint64 : ℕ → F)
    (b : PointBuilder) where
  total-add_metric :
      (m : Metric F) (done : Built F) → total (add_metric print of_uint64 b m done) ≡ total done + 1
  unfolding add_metric
  total-add_metric m (metrics, filtered) = omega (arith, filter_append-length b.filters metrics m)

  total-add_number :
      (name : String) (x : F) (now : ℕ) (tags : Map String) (done : Built F)
      → total (add_number print of_uint64 b name x now tags done) ≡ total done + one_number x
  total-add_number name x now tags done = elim (Bool-cases (f.eq x x)) [
    | inl t ↦ rw t (total-add_metric _ done)
    | inr t ↦ rw t (omega arith)
  ]

  total-pick :
      (name : String) (g c u : Option F) (now : ℕ) (tags : Map String)
      → total (pick print of_uint64 b name g c u now tags) ≡ one_value g c u
  total-pick name none none none now tags = refl
  total-pick name none none (some x) now tags =
      omega (arith, total-add_number (name ++ ".value") x now tags ([], 0))
  total-pick name none (some x) u now tags =
      omega (arith, total-add_number (name ++ ".counter") x now tags ([], 0))
  total-pick name (some x) c u now tags =
      omega (arith, total-add_number (name ++ ".gauge") x now tags ([], 0))

  total-add_quantiles :
      (name : String) (qs : List (Quantile F)) (now : ℕ) (tags : Map String) (done : Built F)
      → total (add_quantiles print of_uint64 b name qs now tags done)
        ≡ total done + sum_of (λ q. one_number q.value) qs
  unfolding add_quantiles
  total-add_quantiles name [] now tags done = omega arith
  total-add_quantiles name (q ∷ qs) now tags done =
      omega
        (arith, total-add_quantiles name qs now tags _, total-add_number name q.value now _ done)

  total-add_buckets :
      (name : String) (ks : List (Bucket F)) (now : ℕ) (tags : Map String) (done : Built F)
      → total (add_buckets print of_uint64 b name ks now tags done) ≡ total done + length ks
  unfolding add_buckets
  total-add_buckets name [] now tags done = omega arith
  total-add_buckets name (k ∷ ks) now tags done =
      omega (arith, total-add_buckets name ks now tags _, total-add_metric _ done)

  total-add_totals :
      (name : String) (n : ℕ) (sum : F) (now : ℕ) (tags : Map String) (done : Built F)
      → total (add_totals print of_uint64 b name n sum now tags done) ≡ total done + 2
  unfolding add_totals
  total-add_totals name n sum now tags done =
      omega
        (arith, total-add_metric _ (add_metric print of_uint64 b _ done), total-add_metric _ done)

  total-more : (x y : Built F) → total (more x y) ≡ total x + total y
  total-more x y = omega (arith, length-append x.0 y.0)

  module _ (converts : Bool) where
    total-with_distribution :
        (m : Metric F) (done : Built F)
        → total (if converts then add_metric print of_uint64 b m done else done)
          ≡ total done + (if converts then 1 else 0)
    total-with_distribution m done = elim (Bool-cases converts) [
      | inl t ↦ rw t (total-add_metric m done)
      | inr t ↦ rw t (omega arith)
    ]

    total-build_metric :
        (type : FamilyType) (name : String) (m : PromMetric F) (now : ℕ) (done : Built F)
        → total (build_metric print of_uint64 b converts type name m now done)
          ≡ total done + metric_points converts type m
    unfolding build_metric build_points build_summary_points build_histogram_points
    total-build_metric summary_type name m now done = omega (
      arith,
      total-more done (build_summary_points print of_uint64 b name m now _),
      total-add_totals name m.summary.sample_count m.summary.sample_sum now _
          (add_quantiles print of_uint64 b name m.summary.quantiles now _ ([], 0)),
      total-add_quantiles name m.summary.quantiles now _ ([], 0),
    )
    total-build_metric histogram_type name m now done = omega (
      arith,
      total-more (if converts then add_metric print of_uint64 b _ done else done)
          (build_histogram_points print of_uint64 b name m now _),
      total-with_distribution (build_wf_histogram print of_uint64 b name m now (build_tags b m))
          done,
      total-add_totals name m.histogram.sample_count m.histogram.sample_sum now _
          (add_buckets print of_uint64 b _ m.histogram.buckets now _ ([], 0)),
      total-add_buckets (histogram_name b name) m.histogram.buckets now _ ([], 0),
    )
    total-build_metric other_type name m now done = omega (
      arith,
      total-more done (build_points print of_uint64 b name m now),
      total-pick name m.gauge m.counter m.untyped now _,
    )

    total-build_family :
        (type : FamilyType) (name : String) (ms : List (PromMetric F)) (now : ℕ) (done : Built F)
        → total (build_family print of_uint64 b converts type name ms now done)
          ≡ total done + sum_of (λ m. metric_points converts type m) ms
    unfolding build_family
    total-build_family type name [] now done = omega arith
    total-build_family type name (m ∷ ms) now done =
        omega
          (arith, total-build_family type name ms now _, total-build_metric type name m now done)

    -- Each number of a family becomes one metric, each bucket and both totals of a summary or histogram one,
    -- and each histogram one distribution if the conversion is enabled. Each metric is appended to the
    -- result, or dropped by the filter and counted.
    pub total-build :
        (families : Map (MetricFamily F)) (now : ℕ) (done : Built F)
        → length (build print of_uint64 b converts families now done).0
            + (build print of_uint64 b converts families now done).1
          ≡ length done.0 + done.1 + sum_of (λ entry. family_points converts entry.1) families
    unfolding build
    total-build [] now done = omega arith
    total-build ((name, mf) ∷ families) now done =
        omega
          (arith, total-build families now _, total-build_family mf.type name mf.metrics now done)
