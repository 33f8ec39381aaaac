-- ===== src/Sources/Kubelet/Decoding.antt =====
-- plugins/sources/summary/summary.go: the sets of a node, its system containers, its pods and their
-- containers, and Scrape.
pub mod Newest
pub mod Values
use Prim.Native.String.{◌++◌}
use wavefront_collector_for.Prelude.{
  ℕ, ◌+◌, String, List, [], ◌∷◌, Option, none, some, Bool, true, false, ◌==◌, ltb, if◌then◌else◌,
  or_else,
}
use wavefront_collector_for.Prelude.Maps.{Map, lookup, insert}
use wavefront_collector_for.Prelude.Result.{Result, ok, err}
use wavefront_collector_for.Float64.{Float64}
use wavefront_collector_for.Metrics.Keys.{
  ResourceKey, node_key, node_container_key, pod_key, pod_container_key,
}
use wavefront_collector_for.Metrics.Labels.{
  label_metric_set_type, label_nodename, label_hostname, label_host_id, label_node_role,
  label_pod_id, label_pod_name, label_namespace_name, label_container_name, metric_set_type_node,
  metric_set_type_pod, metric_set_type_pod_container, metric_set_type_system_container,
}
use wavefront_collector_for.Metrics.Types.{MetricSet, Sets}
use wavefront_collector_for.Wf.Metric.{Batch}
use wavefront_collector_for.Sources.Kubelet.{
  CpuStats, MemoryStats, AcceleratorStats, NetworkStats, FsStats, UserDefinedMetric,
  get_scrape_time, decode_uptime, decode_cpu_stats, decode_memory_stats, decode_accelerator_stats,
  decode_network_stats, decode_fs_stats, decode_ephemeral_storage_stats,
  decode_ephemeral_storage_stats_for_container, decode_user_defined_metrics,
}

pub record NodeInfo : Type 0 where
  pub node_name : String
  pub host_name : String
  pub host_id : String
  pub node_role : String

pub record ContainerStats (F : Type 0) : Type 0 where
  pub name : String
  pub start_time : ℕ
  pub cpu : Option CpuStats
  pub memory : Option MemoryStats
  pub accelerators : List AcceleratorStats
  pub rootfs : Option FsStats
  pub logs : Option FsStats
  pub user_defined_metrics : List (UserDefinedMetric F)

pub record NodeStats (F : Type 0) : Type 0 where
  pub node_name : String
  pub start_time : ℕ
  pub cpu : Option CpuStats
  pub memory : Option MemoryStats
  pub network : Option NetworkStats
  pub fs : Option FsStats
  pub system_containers : List (ContainerStats F)

pub record VolumeStats : Type 0 where
  pub name : String
  pub fs_stats : FsStats

pub record PodStats (F : Type 0) : Type 0 where
  pub namespace : String
  pub name : String
  pub uid : String
  pub start_time : ℕ
  pub cpu : Option CpuStats
  pub memory : Option MemoryStats
  pub network : Option NetworkStats
  pub ephemeral_storage : Option FsStats
  pub volume_stats : List VolumeStats
  pub containers : List (ContainerStats F)

pub record StatsSummary (F : Type 0) : Type 0 where
  pub node : NodeStats F
  pub pods : List (PodStats F)

-- the legacy names of system containers
abbrev system_name_map : Map String
system_name_map = ("runtime", "docker-daemon") ∷ ("misc", "system") ∷ []

unfoldable pub get_system_container_name : String → String
get_system_container_name name = or_else (lookup name system_name_map) name

abbrev pub new_set : {F : Type 0} → ℕ → ℕ → Map String → MetricSet F
new_set start scrape labels = record {
  collection_start_time = start;
  entity_create_time = 0;
  scrape_time = scrape;
  values = [];
  labels = labels;
  labeled_values = [];
}

-- whether the set that is there is of a container that started later
abbrev pub newer : {F : Type 0} → Option (MetricSet F) → ℕ → Bool
newer none start = false
newer (some ms) start = ltb start ms.collection_start_time

module _ {F : Type 0} ⦃f : Float64 F⦄ (now : ℕ) where
  unfoldable pub decode_container_stats : Map String → ContainerStats F → Bool → MetricSet F
  unfolding get_scrape_time get_system_container_name
  decode_container_stats pod_labels c is_system_container =
      let labels =
        insert label_container_name.key
          (if is_system_container then get_system_container_name c.name else c.name)
          (insert label_metric_set_type.key metric_set_type_pod_container pod_labels) in
      let started =
        decode_uptime now c.start_time
          (new_set c.start_time (get_scrape_time c.cpu c.memory none) labels) in
      let measured = decode_memory_stats c.memory (decode_cpu_stats c.cpu started) in
      let stored = decode_ephemeral_storage_stats_for_container c.rootfs c.logs (
        decode_fs_stats "logs" c.logs
          (decode_fs_stats "/" c.rootfs (decode_accelerator_stats c.accelerators measured))) in
      decode_user_defined_metrics c.user_defined_metrics stored

  unfoldable pub decode_system_containers :
      Map String → String → List (ContainerStats F) → Sets F → Sets F
  decode_system_containers labels node_name [] sets = sets
  decode_system_containers labels node_name (c ∷ others) sets =
      let ms = decode_container_stats labels c true in
      let typed = record ms {
        labels = insert label_metric_set_type.key metric_set_type_system_container ms.labels;
      } in
      decode_system_containers labels node_name others
        (insert (node_container_key node_name (get_system_container_name c.name)) typed sets)

  unfoldable pub decode_node_stats : NodeInfo → Map String → NodeStats F → Sets F → Sets F
  unfolding decode_system_containers
  decode_node_stats info labels n sets =
      let own =
        insert label_node_role.key info.node_role
          (insert label_metric_set_type.key metric_set_type_node labels) in
      let started =
        decode_uptime now n.start_time
          (new_set n.start_time (get_scrape_time n.cpu n.memory n.network) own) in
      let measured =
        decode_network_stats n.network
          (decode_memory_stats n.memory (decode_cpu_stats n.cpu started)) in
      let ms = decode_ephemeral_storage_stats n.fs (decode_fs_stats "/" n.fs measured) in
      decode_system_containers labels n.node_name n.system_containers
        (insert (node_key n.node_name) ms sets)

  unfoldable pub decode_volumes : List VolumeStats → MetricSet F → MetricSet F
  decode_volumes [] ms = ms
  decode_volumes (vol ∷ vols) ms =
      decode_volumes vols (decode_fs_stats ("Volume:" ++ vol.name) (some vol.fs_stats) ms)

  unfoldable pub decode_containers :
      Map String → String → String → List (ContainerStats F) → Sets F → Sets F
  decode_containers labels namespace pod [] sets = sets
  decode_containers labels namespace pod (c ∷ others) sets =
      let key = pod_container_key namespace pod c.name in
      decode_containers labels namespace pod others (
        if newer (lookup key sets) c.start_time
        then sets
        else insert key (decode_container_stats labels c false) sets)

  abbrev pub labels_of_pod : Map String → PodStats F → Map String
  labels_of_pod node_labels pod = insert label_namespace_name.key pod.namespace (
      insert label_pod_name.key pod.name (
        insert label_pod_id.key pod.uid
          (insert label_metric_set_type.key metric_set_type_pod node_labels)))

  unfoldable pub decode_pod_stats : Map String → PodStats F → Sets F → Sets F
  unfolding decode_containers decode_volumes
  decode_pod_stats node_labels pod sets =
      let labels = labels_of_pod node_labels pod in
      let started =
        decode_uptime now pod.start_time
          (new_set pod.start_time (get_scrape_time none none pod.network) labels) in
      let measured =
        decode_memory_stats pod.memory
          (decode_cpu_stats pod.cpu (decode_network_stats pod.network started)) in
      let ms =
        decode_volumes pod.volume_stats
          (decode_ephemeral_storage_stats pod.ephemeral_storage measured) in
      decode_containers labels pod.namespace pod.name pod.containers
        (insert (pod_key pod.namespace pod.name) ms sets)

  unfoldable pub decode_pods : Map String → List (PodStats F) → Sets F → Sets F
  unfolding decode_pod_stats
  decode_pods labels [] sets = sets
  decode_pods labels (pod ∷ pods) sets = decode_pods labels pods (decode_pod_stats labels pod sets)

  unfoldable pub add_summary_metric_sets : NodeInfo → StatsSummary F → Sets F → Sets F
  unfolding decode_node_stats decode_pods
  add_summary_metric_sets info summary sets =
      let labels =
        (label_nodename.key, info.node_name)
        ∷ (label_hostname.key, info.host_name)
        ∷ (label_host_id.key, info.host_id)
        ∷ [] in
      decode_pods labels summary.pods (decode_node_stats info labels summary.node sets)

  -- Scrape, with the counter of collect errors
  unfoldable pub scrape :
      NodeInfo → ℕ → Result String (StatsSummary F) → ℕ → Result String (Batch F) × ℕ
  unfolding add_summary_metric_sets
  scrape info timestamp (err e) errors = (err e, errors + 1)
  scrape info timestamp (ok summary) errors = (
    ok (record {
      timestamp = timestamp;
      sets = add_summary_metric_sets info summary [];
      metrics = [];
    }),
    errors,
  )
