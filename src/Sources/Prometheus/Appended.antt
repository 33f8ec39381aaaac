-- ===== src/Sources/Prometheus/Appended.antt =====
-- What families add to the metrics so far does not depend on them.
use wavefront_collector_for.Prelude.{
  ℕ, String, List, [], ◌∷◌, ◌++◌, Option, none, some, Bool, ◌≡◌, refl, sym, ap, ◌∙◌, arith,
  append-nil, append_assoc, Bool-cases, inl, inr,
}
use wavefront_collector_for.Prelude.Maps.{Map}
use wavefront_collector_for.Float64.{Float64}
use wavefront_collector_for.Wf.Metric.{Metric}
use wavefront_collector_for.Wf.Filtering.{filter, filter_append, append_some}
use wavefront_collector_for.Sources.Prometheus.{
  PromMetric, FamilyType, summary_type, histogram_type, other_type, MetricFamily, PointBuilder,
  Built, more, add_metric, build_histogram_points, build_wf_histogram, build_tags, build_metric,
  build_family, build,
}

module _ {F : Type 0} where
  pub Built-ext : (x y : Built F) → x.0 ≡ y.0 → x.1 ≡ y.1 → x ≡ y
  Built-ext x y p q = λ i. (p i, q i)

  pub more-nil : (x : Built F) → more x ([], 0) ≡ x
  more-nil x = Built-ext (more x ([], 0)) x (append-nil x.0) (omega arith)

  pub nil-more : (x : Built F) → more ([], 0) x ≡ x
  nil-more x = Built-ext (more ([], 0) x) x refl (omega arith)

  pub more_assoc : (x y z : Built F) → more (more x y) z ≡ more x (more y z)
  more_assoc x y z =
      Built-ext (more (more x y) z) (more x (more y z)) (append_assoc x.0 y.0 z.0) (omega arith)

  append_some-append :
      (xs : List (Metric F)) (o : Option (Metric F)) → append_some xs o ≡ xs ++ append_some [] o
  append_some-append xs none = sym (append-nil xs)
  append_some-append xs (some m) = refl

module _ {F : Type 0} ⦃f : Float64 F⦄ (print : F → String) (of_uint64 : ℕ → F)
    (b : PointBuilder) where
  add_metric-more :
      (m : Metric F) (done : Built F)
      → add_metric print of_uint64 b m done ≡ more done (add_metric print of_uint64 b m ([], 0))
  unfolding add_metric filter_append
  add_metric-more m done =
      Built-ext (add_metric print of_uint64 b m done)
        (more done (add_metric print of_uint64 b m ([], 0)))
        (append_some-append done.0 (filter b.filters m).0) (omega arith)

  module _ (converts : Bool) (now : ℕ) where
    build_metric-more :
        (type : FamilyType) (name : String) (m : PromMetric F) (done : Built F)
        → build_metric print of_uint64 b converts type name m now done
          ≡ more done (build_metric print of_uint64 b converts type name m now ([], 0))
    unfolding build_metric
    build_metric-more summary_type name m done = ap (more done) (sym (nil-more _))
    build_metric-more other_type name m done = ap (more done) (sym (nil-more _))
    build_metric-more histogram_type name m done = elim (Bool-cases converts) [
      | inl t ↦ rw t (
          ap (λ x. more x (build_histogram_points print of_uint64 b name m now (build_tags b m)))
            (add_metric-more (build_wf_histogram print of_uint64 b name m now (build_tags b m))
              done)
          ∙ more_assoc done _ _)
      | inr t ↦ rw t (ap (more done) (sym (nil-more _)))
    ]

    build_family-more :
        (type : FamilyType) (name : String) (ms : List (PromMetric F)) (done : Built F)
        → build_family print of_uint64 b converts type name ms now done
          ≡ more done (build_family print of_uint64 b converts type name ms now ([], 0))
    unfolding build_family
    build_family-more type name [] done = sym (more-nil done)
    build_family-more type name (m ∷ ms) done =
        let one = build_metric print of_uint64 b converts type name m now ([], 0) in
        build_family-more type name ms
          (build_metric print of_uint64 b converts type name m now done)
        ∙ ap (λ x. more x (build_family print of_uint64 b converts type name ms now ([], 0)))
            (build_metric-more type name m done)
        ∙ more_assoc done one _
        ∙ ap (more done) (sym (build_family-more type name ms one))

    pub build-more :
        (families : Map (MetricFamily F)) (done : Built F)
        → build print of_uint64 b converts families now done
          ≡ more done (build print of_uint64 b converts families now ([], 0))
    unfolding build
    build-more [] done = sym (more-nil done)
    build-more ((name, mf) ∷ families) done =
        let one = build_family print of_uint64 b converts mf.type name mf.metrics now ([], 0) in
        build-more families
          (build_family print of_uint64 b converts mf.type name mf.metrics now done)
        ∙ ap (λ x. more x (build print of_uint64 b converts families now ([], 0)))
            (build_family-more mf.type name mf.metrics done)
        ∙ more_assoc done one _
        ∙ ap (more done) (sym (build-more families one))
