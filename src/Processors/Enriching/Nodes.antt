-- ===== src/Processors/Enriching/Nodes.antt =====
-- plugins/processors/node_autoscaling_enricher.go and GetNodeRole of internal/util/util.go. The nodes are
-- what the lister gives, `none` where it fails.
use wavefront_collector_for.Prelude.{
  ℕ, String, List, [], ◌∷◌, Option, none, some, ◌&&◌, is_some, eqb, if◌then◌else◌,
}
use wavefront_collector_for.Prelude.Maps.{Map, lookup, insert}
use wavefront_collector_for.Float64.{Float64}
use wavefront_collector_for.Metrics.Labels.{label_node_role}
use wavefront_collector_for.Metrics.Types.{MetricDescriptor, MetricSet, Sets, Value, value_float}
use wavefront_collector_for.Metrics.Keys.{node_key}
use wavefront_collector_for.Metrics.Catalog.Node.{
  metric_node_cpu_utilization, metric_node_cpu_reservation, metric_node_cpu_capacity,
  metric_node_cpu_allocatable, metric_node_memory_utilization, metric_node_memory_reservation,
  metric_node_memory_capacity, metric_node_memory_allocatable,
  metric_node_ephemeral_storage_capacity, metric_node_ephemeral_storage_allocatable,
  metric_node_ephemeral_storage_utilization, metric_node_ephemeral_storage_reservation,
}
use wavefront_collector_for.Metrics.Catalog.Standard.{
  metric_memory_working_set, metric_ephemeral_storage_usage,
}
use wavefront_collector_for.Metrics.Catalog.Resource.{
  metric_cpu_request, metric_cpu_usage_rate, metric_memory_request,
  metric_ephemeral_storage_request,
}
use wavefront_collector_for.Processors.Enriching.{Quantity, LabelCopier, copy}
use wavefront_collector_for.Processors.Enriching.Pods.{milli_of, whole_of}

pub record KubeNode : Type 0 where
  pub name : String
  pub labels : Map String
  pub capacity : Map Quantity
  pub allocatable : Map Quantity

unfoldable pub get_node_role : Map String → String
get_node_role labels =
    if is_some (lookup "node-role.kubernetes.io/control-plane" labels)
    then "control-plane"
    else if is_some (lookup "node-role.kubernetes.io/master" labels)
    then "control-plane"
    else "worker"

module _ {F : Type 0} ⦃f : Float64 F⦄ where
  abbrev int_of : Option (Value F) → ℕ
  int_of none = 0
  int_of (some v) = v.int_value

  unfoldable pub get_int : Map (Value F) → MetricDescriptor → ℕ
  get_int values metric = int_of (lookup metric.name values)

  unfoldable pub set_float : MetricDescriptor → F → Map (Value F) → Map (Value F)
  set_float metric x values =
      insert metric.name (record { int_value = 0; float_value = x; value_type = value_float })
        values

  -- what is used and requested as shares of what is allocatable, unless that is 0
  unfoldable pub set_shares :
      MetricDescriptor → MetricDescriptor → ℕ → ℕ → ℕ → Map (Value F) → Map (Value F)
  unfolding set_float
  set_shares utilization reservation used requested allocatable values =
      if eqb allocatable 0
      then values
      else set_float reservation (f.div (f.of_int64 requested) (f.of_int64 allocatable))
          (set_float utilization (f.div (f.of_int64 used) (f.of_int64 allocatable)) values)

  unfoldable pub set_amounts :
      MetricDescriptor → MetricDescriptor → ℕ → ℕ → Map (Value F) → Map (Value F)
  unfolding set_float
  set_amounts capacity_metric allocatable_metric capacity allocatable values =
      set_float allocatable_metric (f.of_int64 allocatable)
        (set_float capacity_metric (f.of_int64 capacity) values)

  -- `known` are the values as they were before any of them was set
  unfoldable pub set_cpu : KubeNode → Map (Value F) → Map (Value F) → Map (Value F)
  unfolding set_shares set_amounts get_int
  set_cpu node known values =
      let allocatable = milli_of (lookup "cpu" node.allocatable) in
      set_amounts metric_node_cpu_capacity metric_node_cpu_allocatable
        (milli_of (lookup "cpu" node.capacity)) allocatable
        (set_shares metric_node_cpu_utilization metric_node_cpu_reservation
          (get_int known metric_cpu_usage_rate) (get_int known metric_cpu_request) allocatable
          values)

  unfoldable pub set_memory : KubeNode → Map (Value F) → Map (Value F) → Map (Value F)
  unfolding set_shares set_amounts get_int
  set_memory node known values =
      let allocatable = whole_of (lookup "memory" node.allocatable) in
      set_amounts metric_node_memory_capacity metric_node_memory_allocatable
        (whole_of (lookup "memory" node.capacity)) allocatable
        (set_shares metric_node_memory_utilization metric_node_memory_reservation
          (get_int known metric_memory_working_set) (get_int known metric_memory_request)
          allocatable values)

  unfoldable pub set_storage : KubeNode → Map (Value F) → Map (Value F) → Map (Value F)
  unfolding set_shares set_amounts get_int
  set_storage node known values =
      let capacity = lookup "ephemeral-storage" node.capacity in
      let allocatable = lookup "ephemeral-storage" node.allocatable in
      if is_some capacity && is_some allocatable
      then set_shares metric_node_ephemeral_storage_utilization
          metric_node_ephemeral_storage_reservation (get_int known metric_ephemeral_storage_usage)
          (get_int known metric_ephemeral_storage_request) (whole_of allocatable)
          (set_amounts metric_node_ephemeral_storage_capacity
            metric_node_ephemeral_storage_allocatable (whole_of capacity) (whole_of allocatable)
            values)
      else values

  module _ (copier : LabelCopier) where
    unfoldable pub enrich_node : KubeNode → MetricSet F → MetricSet F
    unfolding get_node_role set_cpu set_memory set_storage
    enrich_node node ms = record ms {
      labels =
          insert label_node_role.key (get_node_role node.labels)
            (copy copier node.labels ms.labels);
      values =
          set_storage node ms.values (set_memory node ms.values (set_cpu node ms.values ms.values));
    }

    abbrev put_node : KubeNode → Option (MetricSet F) → Sets F → Sets F
    put_node node none sets = sets
    put_node node (some ms) sets = insert (node_key node.name) (enrich_node node ms) sets

    unfoldable pub enrich_each_node : List KubeNode → Sets F → Sets F
    unfolding enrich_node
    enrich_each_node [] sets = sets
    enrich_each_node (node ∷ nodes) sets =
        enrich_each_node nodes (put_node node (lookup (node_key node.name) sets) sets)

    abbrev with_nodes : Option (List KubeNode) → Sets F → Option (Sets F)
    with_nodes none sets = none
    with_nodes (some nodes) sets = some (enrich_each_node nodes sets)

    -- Process, `none` where the lister fails
    unfoldable pub enrich_nodes : Option (List KubeNode) → Sets F → Option (Sets F)
    unfolding enrich_each_node
    enrich_nodes nodes sets = with_nodes nodes sets
