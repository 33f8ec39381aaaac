-- ===== src/Sinks/Wavefront/Tags.antt =====
-- The tags of a metric when the filter of the sink sees it.
use wavefront_collector_for.Prelude.{String, [], some, ◌≡◌, ◌==◌, arith, if◌then◌else◌}
use wavefront_collector_for.Prelude.Maps.{
  Map, lookup, insert, copy_into, lookup-insert, lookup-copy_into, Distinct, first_of,
  Distinct-insert,
}
use wavefront_collector_for.Metrics.Labels.{label_cluster}
use wavefront_collector_for.Wf.Point
use wavefront_collector_for.Wf.Point.{add_all_new, tags_of}
use wavefront_collector_for.Wf.Point.Tags.{lookup-add_all_new, Distinct-add_all_new}
use wavefront_collector_for.Wf.Distribution
use wavefront_collector_for.Wf.Metric.{Metric, tags, override_tag, add_tags}
use wavefront_collector_for.Sinks.Wavefront.{WavefrontSink, enrich}

module _ {F : Type 0} where
  -- the tags of a metric without the label pairs, and the label pairs as a map
  abbrev pub own_tags : Metric F → Map String
  own_tags (Metric.point p) = p.tags
  own_tags (Metric.distribution d) = d.tags

  abbrev pub label_tags : Metric F → Map String
  label_tags (Metric.point p) = copy_into p.label_pairs []
  label_tags (Metric.distribution d) = []

module _ (sink : WavefrontSink) where
  abbrev overridden : Map String → Map String
  overridden own = insert label_cluster.key sink.cluster_name own

  lookup-enriched :
      (own : Map String) (k : String)
      → lookup k (add_all_new sink.global_tags (overridden own)) ≡ (
          if label_cluster.key == k
          then some sink.cluster_name
          else first_of (lookup k own) (lookup k sink.global_tags))
  lookup-enriched own k = ground (
    arith,
    lookup-add_all_new k sink.global_tags (overridden own),
    lookup-insert label_cluster.key k sink.cluster_name own,
  )

  -- For a metric whose own tags all have different names, the cluster tag is the sink's, whatever the metric had; any other tag is the metric's own if it
  -- has one, else the global tag, else what the label pairs say.
  pub lookup-enrich :
      {F : Type 0} (m : Metric F) (k : String)
      → Distinct (own_tags m)
      → lookup k (tags (enrich sink m)) ≡ (
          if label_cluster.key == k
          then some sink.cluster_name
          else first_of
              (lookup k (own_tags m))
              (first_of (lookup k sink.global_tags) (lookup k (label_tags m))))
  unfolding enrich tags add_tags override_tag Point.add_tags Point.override_tag
      Distribution.add_tags Distribution.override_tag
  lookup-enrich (Metric.point p) k d =
      rw
        (
          lookup-copy_into k (add_all_new sink.global_tags (overridden p.tags))
              (copy_into p.label_pairs [])
              (Distinct-add_all_new sink.global_tags (overridden p.tags)
                (Distinct-insert label_cluster.key sink.cluster_name p.tags d)),
          lookup-enriched p.tags k,
        )
        (ground arith)
  lookup-enrich (Metric.distribution h) k d =
      rw (lookup-enriched h.tags k) (unfold lookup in ground arith)
