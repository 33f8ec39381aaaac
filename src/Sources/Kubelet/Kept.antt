-- ===== src/Sources/Kubelet/Kept.antt =====
-- What decoding leaves alone, and what it puts among the values of a set.
use wavefront_collector_for.Prelude.{
  ℕ, String, List, [], ◌∷◌, Option, none, some, ◌==◌, eqb, ◌≡◌, refl, ◌∙◌, Bool-cases, inl, inr,
  if◌then◌else◌,
}
use wavefront_collector_for.Prelude.Maps.{Map, lookup, lookup-insert}
use wavefront_collector_for.Float64.{Float64}
use wavefront_collector_for.Metrics.Types.{MetricDescriptor, MetricSet, Value}
use wavefront_collector_for.Metrics.Catalog.Standard.{metric_uptime, metric_ephemeral_storage_usage}
use wavefront_collector_for.Sources.Kubelet.{
  AcceleratorStats, FsStats, CpuStats, MemoryStats, UserDefinedMetric, int_value, add_int_metric,
  add_labeled_int_metric, uptime, decode_uptime, decode_cpu_stats, decode_memory_stats,
  decode_accelerator_stats, decode_fs_stats, decode_ephemeral_storage_stats_for_container,
  decode_user_defined_metrics,
}

module _ {F : Type 0} ⦃f : Float64 F⦄ where
  -- a value that is known takes the place of the one under its name
  abbrev pub put_int : String → Option ℕ → String → Option (Value F) → Option (Value F)
  put_int name none key before = before
  put_int name (some n) key before = if name == key then some (int_value n) else before

  pub lookup-add_int_metric :
      (metric : MetricDescriptor) (o : Option ℕ) (key : String) (ms : MetricSet F)
      → lookup key (add_int_metric metric o ms).values
        ≡ put_int metric.name o key (lookup key ms.values)
  unfolding add_int_metric
  lookup-add_int_metric metric none key ms = refl
  lookup-add_int_metric metric (some n) key ms =
      lookup-insert metric.name key (int_value n) ms.values

  start-add_int_metric :
      (metric : MetricDescriptor) (o : Option ℕ) (ms : MetricSet F)
      → (add_int_metric metric o ms).collection_start_time ≡ ms.collection_start_time
  unfolding add_int_metric
  start-add_int_metric metric none ms = refl
  start-add_int_metric metric (some n) ms = refl

  start-add_labeled_int_metric :
      (metric : MetricDescriptor) (labels : Map String) (o : Option ℕ) (ms : MetricSet F)
      → (add_labeled_int_metric metric labels o ms).collection_start_time ≡ ms.collection_start_time
  unfolding add_labeled_int_metric
  start-add_labeled_int_metric metric labels none ms = refl
  start-add_labeled_int_metric metric labels (some n) ms = refl

  values-add_labeled_int_metric :
      (metric : MetricDescriptor) (labels : Map String) (o : Option ℕ) (ms : MetricSet F)
      → (add_labeled_int_metric metric labels o ms).values ≡ ms.values
  unfolding add_labeled_int_metric
  values-add_labeled_int_metric metric labels none ms = refl
  values-add_labeled_int_metric metric labels (some n) ms = refl

  pub start-decode_uptime :
      (now start : ℕ) (ms : MetricSet F)
      → (decode_uptime now start ms).collection_start_time ≡ ms.collection_start_time
  unfolding decode_uptime
  start-decode_uptime now start ms = elim (Bool-cases (eqb start 0)) [
    | inl t ↦ rw t refl
    | inr t ↦ rw t (start-add_int_metric metric_uptime (some (uptime now start)) ms)
  ]

  pub start-decode_cpu_stats :
      (cpu : Option CpuStats) (ms : MetricSet F)
      → (decode_cpu_stats cpu ms).collection_start_time ≡ ms.collection_start_time
  unfolding decode_cpu_stats
  start-decode_cpu_stats none ms = refl
  start-decode_cpu_stats (some c) ms = simp start-add_int_metric refl

  pub start-decode_memory_stats :
      (memory : Option MemoryStats) (ms : MetricSet F)
      → (decode_memory_stats memory ms).collection_start_time ≡ ms.collection_start_time
  unfolding decode_memory_stats
  start-decode_memory_stats none ms = refl
  start-decode_memory_stats (some m) ms = simp start-add_int_metric refl

  pub start-decode_fs_stats :
      (key : String) (fs : Option FsStats) (ms : MetricSet F)
      → (decode_fs_stats key fs ms).collection_start_time ≡ ms.collection_start_time
  unfolding decode_fs_stats
  start-decode_fs_stats key none ms = refl
  start-decode_fs_stats key (some fs) ms = simp start-add_labeled_int_metric refl

  pub values-decode_fs_stats :
      (key : String) (fs : Option FsStats) (ms : MetricSet F)
      → (decode_fs_stats key fs ms).values ≡ ms.values
  unfolding decode_fs_stats
  values-decode_fs_stats key none ms = refl
  values-decode_fs_stats key (some fs) ms = simp values-add_labeled_int_metric refl

  pub start-decode_accelerator_stats :
      (stats : List AcceleratorStats) (ms : MetricSet F)
      → (decode_accelerator_stats stats ms).collection_start_time ≡ ms.collection_start_time
  unfolding decode_accelerator_stats
  start-decode_accelerator_stats [] ms = refl
  start-decode_accelerator_stats (a ∷ stats) ms =
      start-decode_accelerator_stats stats _ ∙ simp start-add_labeled_int_metric refl

  pub values-decode_accelerator_stats :
      (stats : List AcceleratorStats) (ms : MetricSet F)
      → (decode_accelerator_stats stats ms).values ≡ ms.values
  unfolding decode_accelerator_stats
  values-decode_accelerator_stats [] ms = refl
  values-decode_accelerator_stats (a ∷ stats) ms =
      values-decode_accelerator_stats stats _ ∙ simp values-add_labeled_int_metric refl

  pub start-decode_ephemeral :
      (rootfs logs : Option FsStats) (ms : MetricSet F)
      → (decode_ephemeral_storage_stats_for_container rootfs logs ms).collection_start_time
        ≡ ms.collection_start_time
  unfolding decode_ephemeral_storage_stats_for_container
  start-decode_ephemeral rootfs logs ms = start-add_int_metric metric_ephemeral_storage_usage _ ms

  pub start-decode_user_defined_metrics :
      (udm : List (UserDefinedMetric F)) (ms : MetricSet F)
      → (decode_user_defined_metrics udm ms).collection_start_time ≡ ms.collection_start_time
  unfolding decode_user_defined_metrics
  start-decode_user_defined_metrics [] ms = refl
  start-decode_user_defined_metrics (m ∷ udm) ms = start-decode_user_defined_metrics udm _

pub ruleset start_times = (
  start-decode_uptime, start-decode_cpu_stats, start-decode_memory_stats, start-decode_fs_stats,
  start-decode_accelerator_stats, start-decode_ephemeral, start-decode_user_defined_metrics,
)
