-- ===== src/Metrics/Catalog/Standard.antt =====
-- internal/metrics/metrics.go: the descriptors of the metrics of containers.
use mathlib.Core.List.{[]}
use wavefront_collector_for.Metrics.Types.{
  MetricDescriptor, cumulative, gauge, value_int64, count, bytes, milliseconds, nanoseconds,
  millicores,
}

abbrev pub metric_uptime : MetricDescriptor
metric_uptime = record {
  name = "uptime";
  description = "Number of milliseconds since the container was started";
  labels = [];
  type = cumulative;
  value_type = value_int64;
  units = milliseconds;
}

abbrev pub metric_restart_count : MetricDescriptor
metric_restart_count = record {
  name = "restart_count";
  description = "Number of container restarts";
  labels = [];
  type = cumulative;
  value_type = value_int64;
  units = count;
}

abbrev pub metric_cpu_load : MetricDescriptor
metric_cpu_load = record {
  name = "cpu/load";
  description = "CPU load";
  labels = [];
  type = gauge;
  value_type = value_int64;
  units = count;
}

abbrev pub metric_cpu_usage : MetricDescriptor
metric_cpu_usage = record {
  name = "cpu/usage";
  description = "Cumulative CPU usage on all cores";
  labels = [];
  type = cumulative;
  value_type = value_int64;
  units = nanoseconds;
}

abbrev pub metric_cpu_usage_cores : MetricDescriptor
metric_cpu_usage_cores = record {
  name = "cpu/usage_millicores";
  description = "Cumulative CPU usage on all cores averaged over time window";
  labels = [];
  type = cumulative;
  value_type = value_int64;
  units = millicores;
}

abbrev pub metric_ephemeral_storage_usage : MetricDescriptor
metric_ephemeral_storage_usage = record {
  name = "ephemeral_storage/usage";
  description = "Ephemeral storage usage";
  labels = [];
  type = gauge;
  value_type = value_int64;
  units = bytes;
}

abbrev pub metric_memory_usage : MetricDescriptor
metric_memory_usage = record {
  name = "memory/usage";
  description = "Total memory usage";
  labels = [];
  type = gauge;
  value_type = value_int64;
  units = bytes;
}

abbrev pub metric_memory_cache : MetricDescriptor
metric_memory_cache = record {
  name = "memory/cache";
  description = "Cache memory";
  labels = [];
  type = gauge;
  value_type = value_int64;
  units = bytes;
}

abbrev pub metric_memory_rss : MetricDescriptor
metric_memory_rss = record {
  name = "memory/rss";
  description = "RSS memory";
  labels = [];
  type = gauge;
  value_type = value_int64;
  units = bytes;
}

abbrev pub metric_memory_working_set : MetricDescriptor
metric_memory_working_set = record {
  name = "memory/working_set";
  description =
      "Total working set usage. Working set is the memory being used and not easily dropped by the kernel";
  labels = [];
  type = gauge;
  value_type = value_int64;
  units = bytes;
}

abbrev pub metric_memory_page_faults : MetricDescriptor
metric_memory_page_faults = record {
  name = "memory/page_faults";
  description = "Number of page faults";
  labels = [];
  type = cumulative;
  value_type = value_int64;
  units = count;
}

abbrev pub metric_memory_major_page_faults : MetricDescriptor
metric_memory_major_page_faults = record {
  name = "memory/major_page_faults";
  description = "Number of major page faults";
  labels = [];
  type = cumulative;
  value_type = value_int64;
  units = count;
}

abbrev pub metric_network_rx : MetricDescriptor
metric_network_rx = record {
  name = "network/rx";
  description = "Cumulative number of bytes received over the network";
  labels = [];
  type = cumulative;
  value_type = value_int64;
  units = bytes;
}

abbrev pub metric_network_rx_errors : MetricDescriptor
metric_network_rx_errors = record {
  name = "network/rx_errors";
  description = "Cumulative number of errors while receiving over the network";
  labels = [];
  type = cumulative;
  value_type = value_int64;
  units = count;
}

abbrev pub metric_network_tx : MetricDescriptor
metric_network_tx = record {
  name = "network/tx";
  description = "Cumulative number of bytes sent over the network";
  labels = [];
  type = cumulative;
  value_type = value_int64;
  units = bytes;
}

abbrev pub metric_network_tx_errors : MetricDescriptor
metric_network_tx_errors = record {
  name = "network/tx_errors";
  description = "Cumulative number of errors while sending over the network";
  labels = [];
  type = cumulative;
  value_type = value_int64;
  units = count;
}
