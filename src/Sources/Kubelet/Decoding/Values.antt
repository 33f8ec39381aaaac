-- ===== src/Sources/Kubelet/Decoding/Values.antt =====
-- The values of the set of a container.
use Prim.Native.String.{◌++◌}
use wavefront_collector_for.Prelude.{
  ℕ, String, List, [], ◌∷◌, Option, none, some, Bool, ◌==◌, eqb, ◌≡◌, refl, arith, Bool-cases, inl,
  inr, if◌then◌else◌,
}
use wavefront_collector_for.Prelude.Maps.{Map, lookup, insert, lookup-insert, first_of}
use wavefront_collector_for.Float64.{Float64}
use wavefront_collector_for.Metrics.Types.{MetricSet, Value, value_float}
use wavefront_collector_for.Metrics.Catalog.Standard.{
  metric_uptime, metric_cpu_usage, metric_cpu_usage_cores, metric_ephemeral_storage_usage,
  metric_memory_usage, metric_memory_rss, metric_memory_working_set, metric_memory_page_faults,
  metric_memory_major_page_faults,
}
use wavefront_collector_for.Sources.Kubelet.{
  CpuStats, MemoryStats, FsStats, UserDefinedMetric, int_value, uptime, millicores, both_used, used,
  decode_uptime, decode_cpu_stats, decode_memory_stats,
  decode_ephemeral_storage_stats_for_container, decode_user_defined_metrics,
}
use wavefront_collector_for.Sources.Kubelet.Kept.{
  put_int, lookup-add_int_metric, values-decode_fs_stats, values-decode_accelerator_stats,
}
use wavefront_collector_for.Sources.Kubelet.Decoding.{ContainerStats, decode_container_stats}

-- What a container reports under the names of metrics, where it does.
abbrev pub from_cpu : Option CpuStats → Map (Option ℕ)
from_cpu none = []
from_cpu (some c) =
    (metric_cpu_usage_cores.name, millicores c.usage_nano_cores)
    ∷ (metric_cpu_usage.name, c.usage_core_nano_seconds)
    ∷ []

abbrev pub from_memory : Option MemoryStats → Map (Option ℕ)
from_memory none = []
from_memory (some m) =
    (metric_memory_major_page_faults.name, m.major_page_faults)
    ∷ (metric_memory_page_faults.name, m.page_faults)
    ∷ (metric_memory_rss.name, m.rss_bytes)
    ∷ (metric_memory_working_set.name, m.working_set_bytes)
    ∷ (metric_memory_usage.name, m.usage_bytes)
    ∷ []

abbrev pub from_start : ℕ → ℕ → Map (Option ℕ)
from_start now start =
    (metric_uptime.name, if eqb start 0 then none else some (uptime now start)) ∷ []

abbrev pub from_storage : Option FsStats → Option FsStats → Map (Option ℕ)
from_storage rootfs logs =
    (metric_ephemeral_storage_usage.name, both_used (used rootfs) (used logs)) ∷ []

module _ {F : Type 0} ⦃f : Float64 F⦄ where
  abbrev pub hit : String → Option ℕ → String → Option (Value F)
  hit name none key = none
  hit name (some n) key = if name == key then some (int_value n) else none

  -- the reading of a name, as a value
  abbrev pub found : String → Map (Option ℕ) → Option (Value F)
  found key [] = none
  found key ((name, o) ∷ readings) = first_of (hit name o key) (found key readings)

  -- the last metric of the user of a name
  abbrev pub custom : String → List (UserDefinedMetric F) → Option (Value F)
  custom key [] = none
  custom key (m ∷ udm) = first_of (custom key udm) (
      if ("custom/" ++ m.name) == key
      then some (record { int_value = 0; float_value = m.value; value_type = value_float })
      else none)

  lookup-user_defined :
      (key : String) (udm : List (UserDefinedMetric F)) (ms : MetricSet F)
      → lookup key (decode_user_defined_metrics udm ms).values
        ≡ first_of (custom key udm) (lookup key ms.values)
  unfolding decode_user_defined_metrics
  lookup-user_defined key [] ms = refl
  lookup-user_defined key (m ∷ udm) ms = ground (
    arith,
    lookup-user_defined key udm (record ms {
      values =
          insert ("custom/" ++ m.name)
            (record { int_value = 0; float_value = m.value; value_type = value_float }) ms.values;
    }),
    lookup-insert ("custom/" ++ m.name) key
        (record { int_value = 0; float_value = m.value; value_type = value_float }) ms.values,
  )

  put_int-hit :
      (name : String) (o : Option ℕ) (key : String) (before : Option (Value F))
      → put_int name o key before ≡ first_of (hit name o key) before
  put_int-hit name none key before = refl
  put_int-hit name (some n) key before = ground arith

  first_of-none : (o : Option (Value F)) → first_of o none ≡ o
  first_of-none none = refl
  first_of-none (some v) = refl

  first_of_assoc :
      (a b c : Option (Value F)) → first_of (first_of a b) c ≡ first_of a (first_of b c)
  first_of_assoc none b c = refl
  first_of_assoc (some v) b c = refl

  no_value : (key : String) → lookup {V = Value F} key [] ≡ none
  unfolding lookup
  no_value key = refl

  ruleset readings = (lookup-add_int_metric, put_int-hit, first_of-none, first_of_assoc)

  lookup-cpu :
      (key : String) (cpu : Option CpuStats) (ms : MetricSet F)
      → lookup key (decode_cpu_stats cpu ms).values
        ≡ first_of (found key (from_cpu cpu)) (lookup key ms.values)
  unfolding decode_cpu_stats
  lookup-cpu key none ms = refl
  lookup-cpu key (some c) ms = simp readings refl

  lookup-memory :
      (key : String) (memory : Option MemoryStats) (ms : MetricSet F)
      → lookup key (decode_memory_stats memory ms).values
        ≡ first_of (found key (from_memory memory)) (lookup key ms.values)
  unfolding decode_memory_stats
  lookup-memory key none ms = refl
  lookup-memory key (some m) ms = simp readings refl

  lookup-uptime :
      (key : String) (now start : ℕ) (ms : MetricSet F)
      → lookup key (decode_uptime now start ms).values
        ≡ first_of (found key (from_start now start)) (lookup key ms.values)
  unfolding decode_uptime
  lookup-uptime key now start ms = elim (Bool-cases (eqb start 0)) [
    | inl t ↦ rw t refl
    | inr t ↦ rw t (simp readings refl)
  ]

  lookup-storage :
      (key : String) (rootfs logs : Option FsStats) (ms : MetricSet F)
      → lookup key (decode_ephemeral_storage_stats_for_container rootfs logs ms).values
        ≡ first_of (found key (from_storage rootfs logs)) (lookup key ms.values)
  unfolding decode_ephemeral_storage_stats_for_container
  lookup-storage key rootfs logs ms = simp readings refl

  -- Under each name the set of a container has the last metric of the user, if it is a name of one, and else
  -- what the kubelet reports: the uptime if the start is known, the CPU, the memory, and the storage used
  -- by the file system and the logs together, modulo 2 ^ 64, if both are known. It has no other value.
  pub values-decode_container_stats :
      (now : ℕ) (labels : Map String) (c : ContainerStats F) (is_system : Bool) (key : String)
      → lookup key (decode_container_stats now labels c is_system).values
        ≡ first_of (custom key c.user_defined_metrics) (
            first_of (found key (from_storage c.rootfs c.logs)) (
              first_of
                (found key (from_memory c.memory))
                (first_of (found key (from_cpu c.cpu)) (found key (from_start now c.start_time)))))
  unfolding decode_container_stats
  values-decode_container_stats now labels c is_system key =
      simp
        (
          lookup-user_defined, lookup-storage, values-decode_fs_stats,
          values-decode_accelerator_stats, lookup-memory, lookup-cpu, lookup-uptime, no_value,
          first_of-none,
        )
        refl
