-- ===== src/Examples/Grouped.antt =====
-- Aggregation at concrete inputs: two namespaces that are summed into the cluster.
use mathlib.Core.List.Perm
use wavefront_collector_for.Prelude.{ℕ, ◌+◌, ◌%◌, ◌^◌, [], ◌∷◌, true, ◌≡◌, refl, arith}
use wavefront_collector_for.Prelude.Maps.{lookup, insert}
use wavefront_collector_for.Float64.{nat}
use wavefront_collector_for.Metrics.Labels.{
  label_metric_set_type, metric_set_type_namespace, metric_set_type_cluster,
}
use wavefront_collector_for.Metrics.Types.{Value, MetricSet, Sets, value_int64}
use wavefront_collector_for.Metrics.Keys.{cluster_key}
use wavefront_collector_for.Processors.Aggregate.{aggregate, aggregate_count, source_count}
use wavefront_collector_for.Processors.Aggregate.Totals.{times}
use wavefront_collector_for.Processors.SumCount.{visit, visit_set, add_member, process_spec}
use wavefront_collector_for.Processors.SumCount.Groups.{
  containers_by_cluster, cluster_group, cluster_metric_set,
}
use wavefront_collector_for.Processors.SumCount.Grouping.{containers_by_cluster-Grouping}
use wavefront_collector_for.Processors.SumCount.Counts.{group_count, total, Apart}
use wavefront_collector_for.Processors.SumCount.Counts.Order.{count-process_spec, count-Perm}
use wavefront_collector_for.Processors.PodAggregator.{
  PodValues, aggregate_values, aggregate_into, aggregate_old, skipped_metric,
}
use wavefront_collector_for.Processors.PodAggregator.Values.{Own, aggregate_values-Own}

abbrev int : ℕ → Value ℕ
int n = record { int_value = n; float_value = 0; value_type = value_int64 }

abbrev namespace_with : ℕ → MetricSet ℕ
namespace_with n = record {
  collection_start_time = 0;
  entity_create_time = 0;
  scrape_time = 0;
  values = ("pod_container/count", int n) ∷ [];
  labels = (label_metric_set_type.key, metric_set_type_namespace) ∷ [];
  labeled_values = [];
}

abbrev sets : Sets ℕ
sets = ("namespace:shop", namespace_with 3) ∷ ("namespace:bank", namespace_with 4) ∷ []

abbrev cluster_with : ℕ → MetricSet ℕ
cluster_with n = record (namespace_with n) {
  labels = (label_metric_set_type.key, metric_set_type_cluster) ∷ [];
}

abbrev sets_after : Sets ℕ
sets_after =
    ("namespace:shop", namespace_with 3)
    ∷ ("namespace:bank", namespace_with 4)
    ∷ ("cluster", cluster_with 7)
    ∷ []

sets-Apart : Apart {F = ℕ} containers_by_cluster containers_by_cluster-Grouping sets
unfolding lookup
sets-Apart rs gs g t l = let e : g ≡ cluster_key = ground (arith, t) in cc (rw e at l)

count-process_spec_example :
    group_count {F = ℕ} containers_by_cluster containers_by_cluster-Grouping sets_after cluster_key
      % 2 ^ 64
    ≡ (0
        + total {F = ℕ} containers_by_cluster containers_by_cluster-Grouping sets cluster_key
            ("namespace:shop" ∷ "namespace:bank" ∷ []))
      % 2 ^ 64
unfolding process_spec visit visit_set lookup times add_member cluster_group aggregate insert
    cluster_metric_set aggregate_count source_count
count-process_spec_example =
    count-process_spec {F = ℕ} containers_by_cluster containers_by_cluster-Grouping
      ("namespace:shop" ∷ "namespace:bank" ∷ []) cluster_key sets sets_after refl sets-Apart refl

count-Perm_example :
    group_count {F = ℕ} containers_by_cluster containers_by_cluster-Grouping sets_after cluster_key
      % 2 ^ 64
    ≡ group_count {F = ℕ} containers_by_cluster containers_by_cluster-Grouping sets_after
        cluster_key
      % 2 ^ 64
unfolding process_spec visit visit_set lookup times add_member cluster_group aggregate insert
    cluster_metric_set aggregate_count source_count
count-Perm_example =
    count-Perm {F = ℕ} containers_by_cluster containers_by_cluster-Grouping
      ("namespace:shop" ∷ "namespace:bank" ∷ []) ("namespace:bank" ∷ "namespace:shop" ∷ [])
      cluster_key sets sets_after sets_after refl sets-Apart
      (Perm.swap "namespace:bank" "namespace:shop" []) refl refl

-- a pod that reports its own CPU use, and a container of it that reports more
abbrev own_use : PodValues ℕ
own_use = record { values = ("cpu/limit", int 2) ∷ []; require_aggregate = [] }

abbrev own_use_after : PodValues ℕ
own_use_after = record {
  values = ("cpu/limit", int 2) ∷ ("cpu/request", int 5) ∷ [];
  require_aggregate = ("podcpu/request", true) ∷ [];
}

aggregate_values-Own_example : Own {F = ℕ} "pod" "cpu/limit" (int 2) own_use_after
unfolding aggregate_values aggregate_into aggregate_old lookup skipped_metric insert
aggregate_values-Own_example =
    aggregate_values-Own {F = ℕ} "pod" "cpu/limit" (int 2)
      (("cpu/limit", int 9) ∷ ("cpu/request", int 5) ∷ []) own_use own_use_after (refl, refl) refl
