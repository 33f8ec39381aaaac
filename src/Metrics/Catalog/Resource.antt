-- ===== src/Metrics/Catalog/Resource.antt =====
-- internal/metrics/metrics.go: the descriptors of requests, limits and rates.
use mathlib.Core.List.{[]}
use wavefront_collector_for.Metrics.Types.{
  MetricDescriptor, gauge, value_int64, value_float, count, bytes,
}

abbrev pub metric_cpu_request : MetricDescriptor
metric_cpu_request = record {
  name = "cpu/request";
  description =
      "CPU request (the guaranteed amount of resources) in millicores. This metric is Kubernetes specific.";
  labels = [];
  type = gauge;
  value_type = value_int64;
  units = count;
}

abbrev pub metric_cpu_limit : MetricDescriptor
metric_cpu_limit = record {
  name = "cpu/limit";
  description = "CPU hard limit in millicores.";
  labels = [];
  type = gauge;
  value_type = value_int64;
  units = count;
}

abbrev pub metric_memory_request : MetricDescriptor
metric_memory_request = record {
  name = "memory/request";
  description =
      "Memory request (the guaranteed amount of resources) in bytes. This metric is Kubernetes specific.";
  labels = [];
  type = gauge;
  value_type = value_int64;
  units = bytes;
}

abbrev pub metric_memory_limit : MetricDescriptor
metric_memory_limit = record {
  name = "memory/limit";
  description = "Memory hard limit in bytes.";
  labels = [];
  type = gauge;
  value_type = value_int64;
  units = bytes;
}

abbrev pub metric_ephemeral_storage_request : MetricDescriptor
metric_ephemeral_storage_request = record {
  name = "ephemeral_storage/request";
  description =
      "ephemeral storage request (the guaranteed amount of resources) in bytes. This metric is Kubernetes specific.";
  labels = [];
  type = gauge;
  value_type = value_int64;
  units = bytes;
}

abbrev pub metric_ephemeral_storage_limit : MetricDescriptor
metric_ephemeral_storage_limit = record {
  name = "ephemeral_storage/limit";
  description = "ephemeral storage hard limit in bytes.";
  labels = [];
  type = gauge;
  value_type = value_int64;
  units = bytes;
}

abbrev pub metric_cpu_usage_rate : MetricDescriptor
metric_cpu_usage_rate = record {
  name = "cpu/usage_rate";
  description = "CPU usage on all cores in millicores";
  labels = [];
  type = gauge;
  value_type = value_int64;
  units = count;
}

abbrev pub metric_memory_page_faults_rate : MetricDescriptor
metric_memory_page_faults_rate = record {
  name = "memory/page_faults_rate";
  description = "Rate of page faults in counts per second";
  labels = [];
  type = gauge;
  value_type = value_float;
  units = count;
}

abbrev pub metric_memory_major_page_faults_rate : MetricDescriptor
metric_memory_major_page_faults_rate = record {
  name = "memory/major_page_faults_rate";
  description = "Rate of major page faults in counts per second";
  labels = [];
  type = gauge;
  value_type = value_float;
  units = count;
}

abbrev pub metric_network_rx_rate : MetricDescriptor
metric_network_rx_rate = record {
  name = "network/rx_rate";
  description = "Rate of bytes received over the network in bytes per second";
  labels = [];
  type = gauge;
  value_type = value_float;
  units = count;
}

abbrev pub metric_network_rx_errors_rate : MetricDescriptor
metric_network_rx_errors_rate = record {
  name = "network/rx_errors_rate";
  description = "Rate of errors sending over the network in errors per second";
  labels = [];
  type = gauge;
  value_type = value_float;
  units = count;
}

abbrev pub metric_network_tx_rate : MetricDescriptor
metric_network_tx_rate = record {
  name = "network/tx_rate";
  description = "Rate of bytes transmitted over the network in bytes per second";
  labels = [];
  type = gauge;
  value_type = value_float;
  units = count;
}

abbrev pub metric_network_tx_errors_rate : MetricDescriptor
metric_network_tx_errors_rate = record {
  name = "network/tx_errors_rate";
  description = "Rate of errors transmitting over the network in errors per second";
  labels = [];
  type = gauge;
  value_type = value_float;
  units = count;
}
