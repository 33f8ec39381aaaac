-- ===== src/Processors/Enriching/Pods.antt =====
-- plugins/processors/pod_based_enricher.go: pods and their containers get what the API server knows of
-- them. A visited set is taken out of the batch as it came, since no other round of the loop changes it,
-- and is written back; the sets of new pods and containers are kept apart until the end.
use Prim.Native.String.{◌++◌}
use wavefront_collector_for.Prelude.{
  ℕ, String, List, [], ◌∷◌, Option, none, some, Bool, not, ◌==◌, eqb, is_some, or_else, ltb,
  if◌then◌else◌,
}
use mathlib.Core.List.{◌++◌ as ◌++ₗ◌}
use wavefront_collector_for.Prelude.Maps.{Map, lookup, insert}
use wavefront_collector_for.Metrics.Labels.{
  label_metric_set_type, label_namespace_name, label_pod_name, label_pod_id, label_container_name,
  label_container_base_image, label_nodename, label_hostname, label_host_id, metric_set_type_pod,
  metric_set_type_pod_container,
}
use wavefront_collector_for.Metrics.Types.{MetricDescriptor, MetricSet, Sets, Value, value_int64}
use wavefront_collector_for.Metrics.Catalog.{resource_request_metrics}
use wavefront_collector_for.Metrics.Catalog.Node.{metric_pod_phase, metric_container_status}
use wavefront_collector_for.Metrics.Catalog.Resource.{
  metric_cpu_request, metric_cpu_limit, metric_memory_request, metric_memory_limit,
  metric_ephemeral_storage_request, metric_ephemeral_storage_limit,
}
use wavefront_collector_for.Metrics.Keys.{ResourceKey, pod_container_key}
use wavefront_collector_for.Float64.{Float64}
use wavefront_collector_for.Processors.Enriching.{
  Quantity, Container, ContainerState, Terminated, ContainerStatus, KubePod, ContainerStateInfo,
  new_container_state_info, add_metric_tags, convert_pod_phase, LabelCopier, copy,
}

abbrev pub milli_of : Option Quantity → ℕ
milli_of none = 0
milli_of (some q) = q.milli_value

abbrev pub whole_of : Option Quantity → ℕ
whole_of none = 0
whole_of (some q) = q.value

abbrev pub get : String → Map String → String
get key labels = or_else (lookup key labels) ""

abbrev named : String → Option MetricDescriptor → String
named key none = key ++ "/request"
named key (some m) = m.name

-- the name of the metric of a requested resource; a resource that the table lacks gets one of its own
unfoldable pub request_name : String → String
request_name key = named key (lookup key resource_request_metrics)

abbrev state_after : ℕ → ContainerStatus → Option Terminated → ContainerState
state_after since status none = status.state
state_after since status (some t) =
    if ltb t.finished_at since then status.state else status.last_termination_state

-- `since` is the time of the collection before
unfoldable pub find_container_state : ℕ → ContainerStatus → ContainerStateInfo
unfolding new_container_state_info
find_container_state since status =
    new_container_state_info (state_after since status status.last_termination_state.terminated)

module _ {F : Type 0} ⦃f : Float64 F⦄ where
  abbrev pub int_value : ℕ → Value F
  int_value n = record { int_value = n; float_value = f.zero; value_type = value_int64 }

  unfoldable pub add_labeled_int_metric :
      MetricDescriptor → Map String → ℕ → MetricSet F → MetricSet F
  add_labeled_int_metric metric labels value ms = record ms {
    labeled_values =
        ms.labeled_values
        ++ₗ (record { name = metric.name; labels = labels; value = int_value value } ∷ []);
  }

  unfoldable pub put_requests : Map Quantity → Map (Value F) → Map (Value F)
  unfolding request_name
  put_requests [] values = values
  put_requests ((key, val) ∷ requests) values = put_requests requests (
      insert (request_name key) (int_value (if key == "cpu" then val.milli_value else val.value))
        values)

  abbrev pub zero_unless : Bool → String → Map (Value F) → Map (Value F)
  zero_unless found name values = if found then values else insert name (int_value 0) values

  unfoldable pub update_resources : Container → MetricSet F → MetricSet F
  unfolding put_requests
  update_resources c ms =
      let requested = put_requests c.requests ms.values in
      let cpu = zero_unless (is_some (lookup "cpu" c.requests)) metric_cpu_request.name requested in
      let memory =
        zero_unless (is_some (lookup "memory" c.requests)) metric_memory_request.name cpu in
      let storage =
        zero_unless (is_some (lookup "ephemeral-storage" c.requests))
          metric_ephemeral_storage_request.name memory in
      record ms {
        values =
            insert metric_ephemeral_storage_limit.name
              (int_value (whole_of (lookup "ephemeral-storage" c.limits)))
              (insert metric_memory_limit.name (int_value (whole_of (lookup "memory" c.limits))) (
                insert metric_cpu_limit.name (int_value (milli_of (lookup "cpu" c.limits)))
                  storage));
      }

  unfoldable pub add_container_status : ℕ → ContainerStatus → MetricSet F → MetricSet F
  unfolding find_container_state add_metric_tags add_labeled_int_metric
  add_container_status since status ms =
      let info = find_container_state since status in
      add_labeled_int_metric metric_container_status (add_metric_tags info []) info.value ms

  abbrev with_status : ℕ → ContainerStatus → ResourceKey → Option (MetricSet F) → Sets F → Sets F
  with_status since status key none sets = sets
  with_status since status key (some ms) sets =
      insert key (add_container_status since status ms) sets

  unfoldable pub update_container_status : ℕ → KubePod → List ContainerStatus → Sets F → Sets F
  unfolding add_container_status
  update_container_status since pod [] sets = sets
  update_container_status since pod (status ∷ statuses) sets =
      let key = pod_container_key pod.namespace pod.name status.name in
      update_container_status since pod statuses
        (with_status since status key (lookup key sets) sets)

  abbrev pub started : KubePod → MetricSet F → MetricSet F
  started pod ms =
      if eqb pod.start_time 0 then ms else record ms { entity_create_time = pod.start_time }

-- the set of a container that the batch lacks, without its requests and limits
abbrev pub container_stub : {F : Type 0} → KubePod → MetricSet F → Container → MetricSet F
container_stub pod pod_ms c = record {
  collection_start_time = 0;
  entity_create_time = pod_ms.collection_start_time;
  scrape_time = 0;
  values = [];
  labels =
      (label_metric_set_type.key, metric_set_type_pod_container)
      ∷ (label_namespace_name.key, pod.namespace)
      ∷ (label_pod_name.key, pod.name)
      ∷ (label_container_name.key, c.name)
      ∷ (label_container_base_image.key, c.image)
      ∷ (label_pod_id.key, pod.uid)
      ∷ (label_nodename.key, get label_nodename.key pod_ms.labels)
      ∷ (label_hostname.key, get label_hostname.key pod_ms.labels)
      ∷ (label_host_id.key, get label_host_id.key pod_ms.labels)
      ∷ [];
  labeled_values = [];
}

-- the set of a pod that the batch lacks
abbrev pub pod_stub : {F : Type 0} → String → String → Map String → MetricSet F
pod_stub namespace pod_name labels = record {
  collection_start_time = 0;
  entity_create_time = 0;
  scrape_time = 0;
  values = [];
  labels =
      (label_metric_set_type.key, metric_set_type_pod)
      ∷ (label_namespace_name.key, namespace)
      ∷ (label_pod_name.key, pod_name)
      ∷ (label_nodename.key, get label_nodename.key labels)
      ∷ (label_hostname.key, get label_hostname.key labels)
      ∷ (label_host_id.key, get label_host_id.key labels)
      ∷ [];
  labeled_values = [];
}

module _ {F : Type 0} ⦃f : Float64 F⦄ (copier : LabelCopier) (since : ℕ) where
  -- `sets` is the batch
  unfoldable pub add_stubs : Sets F → KubePod → MetricSet F → List Container → Sets F → Sets F
  unfolding update_resources
  add_stubs sets pod pod_ms [] new_ms = new_ms
  add_stubs sets pod pod_ms (c ∷ containers) new_ms =
      let key = pod_container_key pod.namespace pod.name c.name in
      let stub = container_stub pod pod_ms c in
      add_stubs sets pod pod_ms containers (
        if is_some (lookup key sets)
        then new_ms
        else if is_some (lookup key new_ms)
        then new_ms
        else insert key
            (update_resources c (record stub { labels = copy copier pod.labels stub.labels }))
            new_ms)

  -- the set of the pod, and the new sets
  unfoldable pub add_pod_info : Sets F → KubePod → MetricSet F → Sets F → MetricSet F × Sets F
  unfolding add_stubs update_container_status convert_pod_phase add_labeled_int_metric
  add_pod_info sets pod pod_ms new_ms =
      if not (pod.phase == "Running")
      then (pod_ms, new_ms)
      else (let known =
            started pod
              (record pod_ms { labels = insert label_pod_id.key pod.uid pod_ms.labels }) in
          let labelled = record known { labels = copy copier pod.labels known.labels } in
          let phased =
            add_labeled_int_metric metric_pod_phase (("phase", pod.phase) ∷ [])
              (convert_pod_phase pod.phase) labelled in
          (
            phased,
            update_container_status since pod pod.statuses
                (add_stubs sets pod phased pod.containers new_ms),
          ))
