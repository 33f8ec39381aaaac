-- ===== src/Processors/PodAggregator.antt =====
-- plugins/processors/pod_aggregator.go: the values of a pod from those of its containers, where the
-- source gives none for the pod. The set of a pod is changed through its pointer: in the batch, or
-- among the new pods, which are added to the batch in the end.
pub mod Values
use Prim.Native.String.{◌++◌}
use wavefront_collector_for.Prelude.{
  String, List, [], ◌∷◌, Option, none, some, Bool, true, false, not, ◌&&◌, ◌||◌, ◌==◌, is_some,
  or_else, if◌then◌else◌,
}
use wavefront_collector_for.Prelude.Maps.{Map, lookup, insert, copy_into}
use wavefront_collector_for.Prelude.Result.{Result, ok, err, ◌>>=◌}
use wavefront_collector_for.Float64.{Float64}
use wavefront_collector_for.Metrics.Labels.{
  LabelDescriptor, label_metric_set_type, label_pod_name, label_namespace_name, label_pod_id,
  label_pod_namespace_uid, label_hostname, label_host_id, metric_set_type_pod,
  metric_set_type_pod_container,
}
use wavefront_collector_for.Metrics.Types.{
  MetricType, cumulative, gauge, delta, MetricDescriptor, MetricSet, Sets, Value, ValueType,
  value_int64, value_float, value_other, same_type, add64,
}
use wavefront_collector_for.Metrics.Catalog.{standard_metrics}
use wavefront_collector_for.Metrics.Keys.{ResourceKey, pod_key}
use wavefront_collector_for.Processors.SumCount.Groups.{labeled}

pub data PodError : Type 0 where
  -- "PodAggregator: type not supported in <name>"
  type_not_supported : String → PodError

abbrev pub labels_to_populate : List LabelDescriptor
labels_to_populate =
    label_pod_id ∷ label_pod_name ∷ label_namespace_name ∷ label_pod_namespace_uid ∷ label_hostname
    ∷ label_host_id ∷ []

abbrev counts_up : MetricType → Bool
counts_up cumulative = true
counts_up gauge = false
counts_up delta = true

-- NewPodAggregator: the metrics of the table that are skipped
unfoldable pub skipped_in : String → List MetricDescriptor → Bool
skipped_in name [] = false
skipped_in name (m ∷ ms) = if counts_up m.type && m.name == name then true else skipped_in name ms

unfoldable pub skipped_metric : String → Bool
unfolding skipped_in
skipped_metric name = skipped_in name standard_metrics

abbrev populated : LabelDescriptor → Option String → Map String → Map String
populated l none new_labels = new_labels
populated l (some val) new_labels = insert l.key val new_labels

populate : Map String → List LabelDescriptor → Map String → Map String
populate labels [] new_labels = new_labels
populate labels (l ∷ ls) new_labels =
    populate labels ls (populated l (lookup l.key labels) new_labels)

unfoldable pub pod_metric_set : {F : Type 0} → Map String → MetricSet F
unfolding populate
pod_metric_set labels =
    labeled
      (populate labels labels_to_populate ((label_metric_set_type.key, metric_set_type_pod) ∷ []))

-- the values of the pod, and `requireAggregate`
pub record PodValues (F : Type 0) : Type 0 where
  pub values : Map (Value F)
  pub require_aggregate : Map Bool

module _ {F : Type 0} ⦃fl : Float64 F⦄ where
  -- the `switch` on the type of the pod's value
  unfoldable pub add_by_type : String → ValueType → Value F → Value F → Result PodError (Value F)
  add_by_type name value_int64 a v = ok (record a { int_value = add64 a.int_value v.int_value })
  add_by_type name value_float a v =
      ok (record a { float_value = fl.add a.float_value v.float_value })
  add_by_type name (value_other n) a v = err (type_not_supported name)

  -- the round for a value that the pod has; a value of another type is logged and dropped
  unfoldable pub aggregate_old :
      ResourceKey → String → Value F → Value F → PodValues F → Result PodError (PodValues F)
  unfolding add_by_type
  aggregate_old key name a v p =
      if not (or_else (lookup (key ++ name) p.require_aggregate) false)
      then ok (record p { values = insert name a p.values })
      else if not (same_type a.value_type v.value_type)
      then ok p
      else add_by_type name a.value_type a v >>= λ b.
          ok (record p { values = insert name b p.values })

  unfoldable pub aggregate_into :
      ResourceKey
      → String
      → Value F
      → Option (Value F)
      → PodValues F
      → Result PodError (PodValues F)
  aggregate_into key name v none p = ok (record {
    values = insert name v p.values;
    require_aggregate = insert (key ++ name) true p.require_aggregate;
  })
  aggregate_into key name v (some a) p = aggregate_old key name a v p

  -- the loop over the values of a container
  unfoldable pub aggregate_values :
      ResourceKey → Map (Value F) → PodValues F → Result PodError (PodValues F)
  aggregate_values key [] p = ok p
  aggregate_values key ((name, v) ∷ vs) p =
      (if skipped_metric name then ok p else aggregate_into key name v (lookup name p.values) p)
      >>= λ p'. aggregate_values key vs p'

-- the batch, the new pods and `requireAggregate`
pub record PodState (F : Type 0) : Type 0 where
  pub sets : Sets F
  pub new_pods : Sets F
  pub require_aggregate : Map Bool

module _ {F : Type 0} ⦃fl : Float64 F⦄ where
  -- the rounds for a pod of the batch, and for a new one
  unfoldable pub add_to_old :
      ResourceKey → MetricSet F → MetricSet F → PodState F → Result PodError (PodState F)
  add_to_old key container pod s =
      aggregate_values key container.values
        (record { values = pod.values; require_aggregate = s.require_aggregate })
      >>= λ p. ok (record s {
        sets = insert key (record pod { values = p.values }) s.sets;
        require_aggregate = p.require_aggregate;
      })

  unfoldable pub add_to_new :
      ResourceKey → MetricSet F → MetricSet F → PodState F → Result PodError (PodState F)
  add_to_new key container pod s =
      aggregate_values key container.values
        (record { values = pod.values; require_aggregate = s.require_aggregate })
      >>= λ p. ok (record s {
        new_pods = insert key (record pod { values = p.values }) s.new_pods;
        require_aggregate = p.require_aggregate;
      })

  unfoldable pub add_container :
      ResourceKey → MetricSet F → PodState F → Result PodError (PodState F)
  add_container key container s = elim (lookup key s.sets) [
    | some pod ↦ add_to_old key container pod s
    | none ↦
        add_to_new key container (or_else (lookup key s.new_pods) (pod_metric_set container.labels))
          s
  ]

  -- a container without the name of its pod or its namespace is logged and skipped
  unfoldable pub add_named :
      Option String → Option String → MetricSet F → PodState F → Result PodError (PodState F)
  add_named none ns container s = ok s
  add_named (some pod_name) none container s = ok s
  add_named (some pod_name) (some ns) container s = add_container (pod_key ns pod_name) container s

  unfoldable pub visit_set : Option (MetricSet F) → PodState F → Result PodError (PodState F)
  visit_set none s = ok s
  visit_set (some set) s =
      if not
        (or_else (lookup label_metric_set_type.key set.labels) "" == metric_set_type_pod_container)
      then ok s
      else add_named (lookup label_pod_name.key set.labels)
          (lookup label_namespace_name.key set.labels) set s

  -- the `range` over the batch, in the order of the list
  unfoldable pub visit_all : List ResourceKey → PodState F → Result PodError (PodState F)
  visit_all [] s = ok s
  visit_all (key ∷ order) s = visit_set (lookup key s.sets) s >>= λ s'. visit_all order s'

  unfoldable pub process : List ResourceKey → Sets F → Result PodError (Sets F)
  process order sets =
      visit_all order (record { sets = sets; new_pods = []; require_aggregate = [] }) >>= λ s.
      ok (copy_into s.new_pods s.sets)
