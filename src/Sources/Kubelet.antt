-- ===== src/Sources/Kubelet.antt =====
-- plugins/sources/summary/summary.go: the statistics of a kubelet become metric sets. Missing values are
-- `none`, an unsigned 64-bit number is below 2 ^ 64, and a time counts nanoseconds from the zero time.
-- The labeled values of one file system, accelerator or interface share a map of labels. The converter,
-- which writes to it, takes as a parameter which do (Sources/Summary).
pub mod Decoding
pub mod Kept
use Prim.Native.String.{◌++◌}
use wavefront_collector_for.Prelude.{
  ℕ, ◌+◌, ◌-◌, ◌/◌, ◌%◌, ◌^◌, String, List, [], ◌∷◌, Option, none, some, Bool, true, false, leb,
  ltb, eqb, if◌then◌else◌, or_else,
}
use mathlib.Core.List.{◌++◌ as ◌++ₗ◌}
use wavefront_collector_for.Prelude.Maps.{Map, lookup, insert}
use wavefront_collector_for.Float64.{Float64}
use wavefront_collector_for.Metrics.Labels.{
  label_accelerator_make, label_accelerator_model, label_accelerator_id, label_resource_id,
}
use wavefront_collector_for.Metrics.Types.{
  MetricDescriptor, MetricSet, Value, LabeledValue, value_int64, value_float,
}
use wavefront_collector_for.Metrics.Catalog.Standard.{
  metric_uptime, metric_cpu_usage, metric_cpu_usage_cores, metric_ephemeral_storage_usage,
  metric_memory_usage, metric_memory_rss, metric_memory_working_set, metric_memory_page_faults,
  metric_memory_major_page_faults, metric_network_rx, metric_network_rx_errors, metric_network_tx,
  metric_network_tx_errors,
}
use wavefront_collector_for.Metrics.Catalog.Labeled.{
  metric_filesystem_usage, metric_filesystem_limit, metric_filesystem_available,
  metric_filesystem_inodes, metric_filesystem_inodes_free, metric_accelerator_memory_total,
  metric_accelerator_memory_used, metric_accelerator_duty_cycle,
}

-- The structures of the stats API of the kubelet, as far as they are read.
pub record CpuStats : Type 0 where
  pub time : ℕ
  pub usage_nano_cores : Option ℕ
  pub usage_core_nano_seconds : Option ℕ

pub record MemoryStats : Type 0 where
  pub time : ℕ
  pub usage_bytes : Option ℕ
  pub working_set_bytes : Option ℕ
  pub rss_bytes : Option ℕ
  pub page_faults : Option ℕ
  pub major_page_faults : Option ℕ

pub record AcceleratorStats : Type 0 where
  pub make : String
  pub model : String
  pub id : String
  pub memory_total : ℕ
  pub memory_used : ℕ
  pub duty_cycle : ℕ

pub record InterfaceStats : Type 0 where
  pub name : String
  pub rx_bytes : Option ℕ
  pub rx_errors : Option ℕ
  pub tx_bytes : Option ℕ
  pub tx_errors : Option ℕ

-- the default interface is embedded
pub record NetworkStats : Type 0 where
  pub time : ℕ
  pub default : InterfaceStats
  pub interfaces : List InterfaceStats

pub record FsStats : Type 0 where
  pub used_bytes : Option ℕ
  pub capacity_bytes : Option ℕ
  pub available_bytes : Option ℕ
  pub inodes : Option ℕ
  pub inodes_free : Option ℕ

pub record UserDefinedMetric (F : Type 0) : Type 0 where
  pub name : String
  pub value : F

-- the milliseconds since a start, as the bits of an int64; time.Since stops at the bounds of int64
unfoldable pub uptime : ℕ → ℕ → ℕ
uptime now start =
    if leb start now
    then (if ltb (now - start) (2 ^ 63) then now - start else 2 ^ 63 - 1) / 1000000
    else (2 ^ 64 - (if leb (start - now) (2 ^ 63) then start - now else 2 ^ 63) / 1000000) % 2 ^ 64

abbrev time_of_cpu : Option CpuStats → ℕ
time_of_cpu none = 0
time_of_cpu (some c) = c.time

abbrev time_of_memory : Option MemoryStats → ℕ
time_of_memory none = 0
time_of_memory (some m) = m.time

abbrev time_of_network : Option NetworkStats → ℕ
time_of_network none = 0
time_of_network (some n) = n.time

-- the first time that is known, of the CPU, the memory and the network
unfoldable pub get_scrape_time : Option CpuStats → Option MemoryStats → Option NetworkStats → ℕ
get_scrape_time cpu memory network =
    if eqb (time_of_cpu cpu) 0
    then (if eqb (time_of_memory memory) 0 then time_of_network network else time_of_memory memory)
    else time_of_cpu cpu

abbrev pub millicores : Option ℕ → Option ℕ
millicores none = none
millicores (some n) = some (n / 1000000)

abbrev pub used : Option FsStats → Option ℕ
used none = none
used (some fs) = fs.used_bytes

abbrev pub both_used : Option ℕ → Option ℕ → Option ℕ
both_used (some a) (some b) = some ((a + b) % 2 ^ 64)
both_used _ _ = none

module _ {F : Type 0} ⦃f : Float64 F⦄ where
  abbrev pub int_value : ℕ → Value F
  int_value n = record { int_value = n; float_value = f.zero; value_type = value_int64 }

  unfoldable pub add_int_metric : MetricDescriptor → Option ℕ → MetricSet F → MetricSet F
  add_int_metric metric none ms = ms
  add_int_metric metric (some n) ms = record ms {
    values = insert metric.name (int_value n) ms.values;
  }

  unfoldable pub add_labeled_int_metric :
      MetricDescriptor → Map String → Option ℕ → MetricSet F → MetricSet F
  add_labeled_int_metric metric labels none ms = ms
  add_labeled_int_metric metric labels (some n) ms = record ms {
    labeled_values =
        ms.labeled_values
        ++ₗ (record { name = metric.name; labels = labels; value = int_value n } ∷ []);
  }

  unfoldable pub decode_uptime : ℕ → ℕ → MetricSet F → MetricSet F
  unfolding uptime
  decode_uptime now start ms =
      if eqb start 0 then ms else add_int_metric metric_uptime (some (uptime now start)) ms

  unfoldable pub decode_cpu_stats : Option CpuStats → MetricSet F → MetricSet F
  decode_cpu_stats none ms = ms
  decode_cpu_stats (some cpu) ms =
      add_int_metric metric_cpu_usage_cores (millicores cpu.usage_nano_cores)
        (add_int_metric metric_cpu_usage cpu.usage_core_nano_seconds ms)

  unfoldable pub decode_ephemeral_storage_stats : Option FsStats → MetricSet F → MetricSet F
  decode_ephemeral_storage_stats none ms = ms
  decode_ephemeral_storage_stats (some storage) ms =
      add_int_metric metric_ephemeral_storage_usage storage.used_bytes ms

  unfoldable pub decode_ephemeral_storage_stats_for_container :
      Option FsStats → Option FsStats → MetricSet F → MetricSet F
  decode_ephemeral_storage_stats_for_container rootfs logs ms =
      add_int_metric metric_ephemeral_storage_usage (both_used (used rootfs) (used logs)) ms

  unfoldable pub decode_memory_stats : Option MemoryStats → MetricSet F → MetricSet F
  decode_memory_stats none ms = ms
  decode_memory_stats (some m) ms =
      add_int_metric metric_memory_major_page_faults m.major_page_faults (
        add_int_metric metric_memory_page_faults m.page_faults (
          add_int_metric metric_memory_rss m.rss_bytes (
            add_int_metric metric_memory_working_set m.working_set_bytes
              (add_int_metric metric_memory_usage m.usage_bytes ms))))

  unfoldable pub decode_accelerator_stats : List AcceleratorStats → MetricSet F → MetricSet F
  decode_accelerator_stats [] ms = ms
  decode_accelerator_stats (a ∷ others) ms =
      let labels = insert label_accelerator_id.key a.id (
        insert label_accelerator_model.key a.model (insert label_accelerator_make.key a.make [])) in
      decode_accelerator_stats others (
        add_labeled_int_metric metric_accelerator_duty_cycle labels (some a.duty_cycle) (
          add_labeled_int_metric metric_accelerator_memory_used labels (some a.memory_used) (
            add_labeled_int_metric metric_accelerator_memory_total labels (some a.memory_total)
              ms)))

  unfoldable pub decode_interfaces : List InterfaceStats → MetricSet F → MetricSet F
  decode_interfaces [] ms = ms
  decode_interfaces (i ∷ others) ms =
      let labels = ("interface_name", i.name) ∷ [] in
      decode_interfaces others (
        add_labeled_int_metric metric_network_tx_errors labels i.tx_errors (
          add_labeled_int_metric metric_network_tx labels i.tx_bytes (
            add_labeled_int_metric metric_network_rx_errors labels i.rx_errors
              (add_labeled_int_metric metric_network_rx labels i.rx_bytes ms))))

  unfoldable pub decode_network_stats : Option NetworkStats → MetricSet F → MetricSet F
  unfolding decode_interfaces
  decode_network_stats none ms = ms
  decode_network_stats (some n) ms = add_int_metric metric_network_tx_errors n.default.tx_errors (
      add_int_metric metric_network_tx n.default.tx_bytes (
        add_int_metric metric_network_rx_errors n.default.rx_errors (
          add_int_metric metric_network_rx n.default.rx_bytes (decode_interfaces n.interfaces ms))))

  unfoldable pub decode_fs_stats : String → Option FsStats → MetricSet F → MetricSet F
  decode_fs_stats key none ms = ms
  decode_fs_stats key (some fs) ms =
      let labels = (label_resource_id.key, key) ∷ [] in
      add_labeled_int_metric metric_filesystem_inodes_free labels fs.inodes_free (
        add_labeled_int_metric metric_filesystem_inodes labels fs.inodes (
          add_labeled_int_metric metric_filesystem_available labels fs.available_bytes (
            add_labeled_int_metric metric_filesystem_limit labels fs.capacity_bytes
              (add_labeled_int_metric metric_filesystem_usage labels fs.used_bytes ms))))

  unfoldable pub decode_user_defined_metrics :
      List (UserDefinedMetric F) → MetricSet F → MetricSet F
  decode_user_defined_metrics [] ms = ms
  decode_user_defined_metrics (m ∷ udm) ms = decode_user_defined_metrics udm (record ms {
    values =
        insert ("custom/" ++ m.name)
          (record { int_value = 0; float_value = m.value; value_type = value_float }) ms.values;
  })
