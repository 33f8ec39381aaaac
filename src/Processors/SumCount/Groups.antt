-- ===== src/Processors/SumCount/Groups.antt =====
-- The groups of plugins/processors/{namespace,node,cluster}_aggregator.go, and which sets are
-- members of a group (sum_count_aggregator.go).
use wavefront_collector_for.Prelude.{
  String, List, [], ◌∷◌, Option, none, some, Bool, not, ◌&&◌, ◌==◌, or_else, if◌then◌else◌,
}
use wavefront_collector_for.Prelude.Maps.{Map, lookup}
use wavefront_collector_for.Metrics.Labels.{
  label_metric_set_type, label_namespace_name, label_pod_namespace_uid, label_nodename,
  metric_set_type_pod, metric_set_type_pod_container, metric_set_type_namespace,
  metric_set_type_cluster,
}
use wavefront_collector_for.Metrics.Types.{MetricSet, Sets}
use wavefront_collector_for.Metrics.Catalog.Node.{
  metric_pod_phase, metric_container_status, metric_pod_count, metric_pod_container_count,
}
use wavefront_collector_for.Metrics.Keys.{ResourceKey, namespace_key, node_key, cluster_key}
use wavefront_collector_for.Metrics.Sets.{find_labels}
use wavefront_collector_for.Processors.SumCount.{SumCountAggregateSpec}

-- m[key], "" if the key is missing
abbrev pub at : Map String → String → String
at labels key = or_else (lookup key labels) ""

-- `string(corev1.PodRunning)` of the Kubernetes API
abbrev pub pod_running : String
pod_running = "Running"

module _ {F : Type 0} where
  abbrev pub is_type : String → MetricSet F → Bool
  is_type match_type set = at set.labels label_metric_set_type.key == match_type

  unfoldable pub pod_takes_up_resources : MetricSet F → Bool
  pod_takes_up_resources set = at (find_labels set metric_pod_phase.name).0 "phase" == pod_running

  unfoldable pub pod_container_takes_up_resources : MetricSet F → Bool
  pod_container_takes_up_resources set =
      not (at (find_labels set metric_container_status.name).0 "state" == "terminated")

  unfoldable pub is_aggregatable_pod : MetricSet F → Bool
  is_aggregatable_pod set = is_type metric_set_type_pod set && pod_takes_up_resources set

  unfoldable pub is_aggregatable_pod_container : MetricSet F → Bool
  is_aggregatable_pod_container set =
      is_type metric_set_type_pod_container set && pod_container_takes_up_resources set

  -- a new set: its times are zero and it has no values
  abbrev pub labeled : Map String → MetricSet F
  labeled labels = record {
    collection_start_time = 0;
    entity_create_time = 0;
    scrape_time = 0;
    values = [];
    labels = labels;
    labeled_values = [];
  }

  unfoldable pub namespace_metric_set : String → String → MetricSet F
  namespace_metric_set namespace_name uid = labeled (
      (label_metric_set_type.key, metric_set_type_namespace)
      ∷ (label_namespace_name.key, namespace_name)
      ∷ (label_pod_namespace_uid.key, uid)
      ∷ [])

  unfoldable pub cluster_metric_set : MetricSet F
  cluster_metric_set = labeled ((label_metric_set_type.key, metric_set_type_cluster) ∷ [])

  -- `if set == nil { set = fresh }`
  abbrev pub or_fresh : Option (MetricSet F) → MetricSet F → Option (MetricSet F)
  or_fresh none fresh = some fresh
  or_fresh (some set) fresh = some set

  unfoldable pub namespace_group :
      Sets F → ResourceKey → MetricSet F → ResourceKey × Option (MetricSet F)
  namespace_group sets resource_key rs = elim (lookup label_namespace_name.key rs.labels) [
    | none ↦ ("", none)
    | some namespace_name ↦ (
      namespace_key namespace_name,
      or_fresh (lookup (namespace_key namespace_name) sets)
          (namespace_metric_set namespace_name (at rs.labels label_pod_namespace_uid.key)),
    )
  ]

  unfoldable pub node_group :
      Sets F → ResourceKey → MetricSet F → ResourceKey × Option (MetricSet F)
  node_group sets resource_key rs =
      let node_name = at rs.labels label_nodename.key in
      if node_name == "" then ("", none) else (node_key node_name, lookup (node_key node_name) sets)

  unfoldable pub cluster_group :
      Sets F → ResourceKey → MetricSet F → ResourceKey × Option (MetricSet F)
  cluster_group sets resource_key rs =
      (cluster_key, or_fresh (lookup cluster_key sets) cluster_metric_set)

module _ {F : Type 0} (metrics_to_aggregate : List String) where
  -- the specs of NewNamespaceAggregator, of NewNodeAggregator and of NewClusterAggregator
  abbrev pub pods_by_namespace : SumCountAggregateSpec F
  pods_by_namespace = record {
    resource_sum_metrics = metrics_to_aggregate;
    resource_count_metric = metric_pod_count.name;
    is_part_of_group = is_aggregatable_pod;
    group = namespace_group;
  }

  abbrev pub pods_by_node : SumCountAggregateSpec F
  pods_by_node = record {
    resource_sum_metrics = metrics_to_aggregate;
    resource_count_metric = metric_pod_count.name;
    is_part_of_group = is_aggregatable_pod;
    group = node_group;
  }

  abbrev pub pods_by_cluster : SumCountAggregateSpec F
  pods_by_cluster = record {
    resource_sum_metrics = metrics_to_aggregate;
    resource_count_metric = metric_pod_count.name;
    is_part_of_group = is_type metric_set_type_namespace;
    group = cluster_group;
  }

module _ {F : Type 0} where
  abbrev pub containers_by_namespace : SumCountAggregateSpec F
  containers_by_namespace = record {
    resource_sum_metrics = [];
    resource_count_metric = metric_pod_container_count.name;
    is_part_of_group = is_aggregatable_pod_container;
    group = namespace_group;
  }

  abbrev pub containers_by_node : SumCountAggregateSpec F
  containers_by_node = record {
    resource_sum_metrics = [];
    resource_count_metric = metric_pod_container_count.name;
    is_part_of_group = is_aggregatable_pod_container;
    group = node_group;
  }

  abbrev pub containers_by_cluster : SumCountAggregateSpec F
  containers_by_cluster = record {
    resource_sum_metrics = [];
    resource_count_metric = metric_pod_container_count.name;
    is_part_of_group = is_type metric_set_type_namespace;
    group = cluster_group;
  }
