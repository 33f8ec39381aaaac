-- ===== src/Metrics/Catalog.antt =====
-- internal/metrics/metrics.go: the tables of metrics and the lookups in them.
pub mod Standard
pub mod Resource
pub mod Node
pub mod Labeled
use wavefront_collector_for.Prelude.{
  String, List, [], ◌∷◌, ◌++◌, map, Bool, true, false, ◌==◌, if◌then◌else◌, some_of,
}
use wavefront_collector_for.Prelude.Maps.{Map}
use wavefront_collector_for.Metrics.Types.{MetricDescriptor}
use Standard.{
  metric_uptime, metric_cpu_load, metric_cpu_usage, metric_ephemeral_storage_usage,
  metric_memory_usage, metric_memory_cache, metric_memory_rss, metric_memory_working_set,
  metric_memory_page_faults, metric_memory_major_page_faults, metric_network_rx,
  metric_network_rx_errors, metric_network_tx, metric_network_tx_errors,
}
use Resource.{
  metric_cpu_request, metric_cpu_limit, metric_memory_request, metric_memory_limit,
  metric_ephemeral_storage_request, metric_ephemeral_storage_limit, metric_cpu_usage_rate,
  metric_memory_page_faults_rate, metric_memory_major_page_faults_rate, metric_network_rx_rate,
  metric_network_rx_errors_rate, metric_network_tx_rate, metric_network_tx_errors_rate,
}
use Node.{
  metric_node_cpu_capacity, metric_node_memory_capacity, metric_node_ephemeral_storage_capacity,
  metric_node_cpu_allocatable, metric_node_memory_allocatable,
  metric_node_ephemeral_storage_allocatable, metric_node_cpu_utilization,
  metric_node_memory_utilization, metric_node_ephemeral_storage_utilization,
  metric_node_cpu_reservation, metric_node_memory_reservation,
  metric_node_ephemeral_storage_reservation,
}
use Labeled.{
  metric_filesystem_usage, metric_filesystem_limit, metric_filesystem_available,
  metric_filesystem_inodes, metric_filesystem_inodes_free, metric_accelerator_memory_total,
  metric_accelerator_memory_used, metric_accelerator_duty_cycle, metric_disk_io_read,
  metric_disk_io_write, metric_disk_io_read_rate, metric_disk_io_write_rate,
}

abbrev pub standard_metrics : List MetricDescriptor
standard_metrics =
    metric_uptime ∷ metric_cpu_usage ∷ metric_cpu_load ∷ metric_ephemeral_storage_usage
    ∷ metric_memory_usage ∷ metric_memory_rss ∷ metric_memory_cache ∷ metric_memory_working_set
    ∷ metric_memory_page_faults ∷ metric_memory_major_page_faults ∷ metric_network_rx
    ∷ metric_network_rx_errors ∷ metric_network_tx ∷ metric_network_tx_errors ∷ []

abbrev pub additional_metrics : List MetricDescriptor
additional_metrics =
    metric_cpu_request ∷ metric_cpu_limit ∷ metric_memory_request ∷ metric_memory_limit
    ∷ metric_ephemeral_storage_request ∷ metric_ephemeral_storage_limit ∷ []

abbrev pub rate_metrics : List MetricDescriptor
rate_metrics =
    metric_cpu_usage_rate ∷ metric_memory_page_faults_rate ∷ metric_memory_major_page_faults_rate
    ∷ metric_network_rx_rate ∷ metric_network_rx_errors_rate ∷ metric_network_tx_rate
    ∷ metric_network_tx_errors_rate ∷ metric_disk_io_read_rate ∷ metric_disk_io_write_rate ∷ []

abbrev pub labeled_metrics : List MetricDescriptor
labeled_metrics =
    metric_disk_io_read ∷ metric_disk_io_read_rate ∷ metric_disk_io_write
    ∷ metric_disk_io_write_rate ∷ metric_filesystem_usage ∷ metric_filesystem_limit
    ∷ metric_filesystem_available ∷ metric_filesystem_inodes ∷ metric_filesystem_inodes_free
    ∷ metric_accelerator_memory_total ∷ metric_accelerator_memory_used
    ∷ metric_accelerator_duty_cycle ∷ []

abbrev pub node_autoscaling_metrics : List MetricDescriptor
node_autoscaling_metrics =
    metric_node_cpu_capacity ∷ metric_node_memory_capacity ∷ metric_node_ephemeral_storage_capacity
    ∷ metric_node_cpu_allocatable ∷ metric_node_memory_allocatable
    ∷ metric_node_ephemeral_storage_allocatable ∷ metric_node_cpu_utilization
    ∷ metric_node_memory_utilization ∷ metric_node_ephemeral_storage_utilization
    ∷ metric_node_cpu_reservation ∷ metric_node_memory_reservation
    ∷ metric_node_ephemeral_storage_reservation ∷ []

abbrev pub cpu_metrics : List MetricDescriptor
cpu_metrics =
    metric_cpu_limit ∷ metric_cpu_request ∷ metric_cpu_usage ∷ metric_cpu_load
    ∷ metric_cpu_usage_rate ∷ metric_node_cpu_allocatable ∷ metric_node_cpu_capacity
    ∷ metric_node_cpu_reservation ∷ metric_node_cpu_utilization ∷ []

abbrev pub filesystem_metrics : List MetricDescriptor
filesystem_metrics =
    metric_filesystem_available ∷ metric_filesystem_limit ∷ metric_filesystem_usage
    ∷ metric_filesystem_inodes ∷ metric_filesystem_inodes_free ∷ []

abbrev pub memory_metrics : List MetricDescriptor
memory_metrics =
    metric_memory_limit ∷ metric_memory_major_page_faults ∷ metric_memory_major_page_faults_rate
    ∷ metric_memory_page_faults ∷ metric_memory_page_faults_rate ∷ metric_memory_request
    ∷ metric_memory_usage ∷ metric_memory_rss ∷ metric_memory_cache ∷ metric_memory_working_set
    ∷ metric_node_memory_allocatable ∷ metric_node_memory_capacity ∷ metric_node_memory_utilization
    ∷ metric_node_memory_reservation ∷ []

abbrev pub network_metrics : List MetricDescriptor
network_metrics =
    metric_network_rx ∷ metric_network_rx_errors ∷ metric_network_rx_errors_rate
    ∷ metric_network_rx_rate ∷ metric_network_tx ∷ metric_network_tx_errors
    ∷ metric_network_tx_errors_rate ∷ metric_network_tx_rate ∷ []

abbrev pub rate_metrics_mapping : Map MetricDescriptor
rate_metrics_mapping =
    (metric_cpu_usage.name, metric_cpu_usage_rate)
    ∷ (metric_memory_page_faults.name, metric_memory_page_faults_rate)
    ∷ (metric_memory_major_page_faults.name, metric_memory_major_page_faults_rate)
    ∷ (metric_network_rx.name, metric_network_rx_rate)
    ∷ (metric_network_rx_errors.name, metric_network_rx_errors_rate)
    ∷ (metric_network_tx.name, metric_network_tx_rate)
    ∷ (metric_network_tx_errors.name, metric_network_tx_errors_rate)
    ∷ (metric_disk_io_read.name, metric_disk_io_read_rate)
    ∷ (metric_disk_io_write.name, metric_disk_io_write_rate)
    ∷ []

abbrev pub resource_request_metrics : Map MetricDescriptor
resource_request_metrics =
    ("cpu", metric_cpu_request)
    ∷ ("memory", metric_memory_request)
    ∷ ("ephemeral-storage", metric_ephemeral_storage_request)
    ∷ []

pub data MetricFamily : Type 0 where
  cpu filesystem memory network general : MetricFamily

abbrev pub metric_families : List (MetricFamily × List MetricDescriptor)
metric_families =
    (cpu, cpu_metrics)
    ∷ (filesystem, filesystem_metrics)
    ∷ (memory, memory_metrics)
    ∷ (network, network_metrics)
    ∷ []

-- the loop over the metrics of one family
unfoldable pub is_named : String → List MetricDescriptor → Bool
unfolding some_of
is_named metric_name ms = some_of (λ m. metric_name == m.name) ms

-- MetricFamilyForName over the families in the order of the list
unfoldable pub family_in : String → List (MetricFamily × List MetricDescriptor) → MetricFamily
family_in metric_name [] = general
family_in metric_name ((family, ms) ∷ rest) =
    if is_named metric_name ms then family else family_in metric_name rest

unfoldable pub metric_family_for_name : String → MetricFamily
unfolding family_in is_named
metric_family_for_name metric_name = family_in metric_name metric_families

abbrev pub all_metrics : List MetricDescriptor
all_metrics =
    standard_metrics
    ++ (additional_metrics ++ (rate_metrics ++ (labeled_metrics ++ node_autoscaling_metrics)))

unfoldable pub is_node_autoscaling_metric : String → Bool
unfolding is_named
is_node_autoscaling_metric name = is_named name node_autoscaling_metrics
