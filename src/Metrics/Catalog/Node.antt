-- ===== src/Metrics/Catalog/Node.antt =====
-- internal/metrics/metrics.go: the descriptors of nodes, phases, statuses and counts.
use mathlib.Core.List.{[]}
use wavefront_collector_for.Metrics.Types.{MetricDescriptor, gauge, value_int64, value_float, count}

abbrev pub metric_node_cpu_capacity : MetricDescriptor
metric_node_cpu_capacity = record {
  name = "cpu/node_capacity";
  description = "Cpu capacity of a node";
  labels = [];
  type = gauge;
  value_type = value_float;
  units = count;
}

abbrev pub metric_node_memory_capacity : MetricDescriptor
metric_node_memory_capacity = record {
  name = "memory/node_capacity";
  description = "Memory capacity of a node";
  labels = [];
  type = gauge;
  value_type = value_float;
  units = count;
}

abbrev pub metric_node_ephemeral_storage_capacity : MetricDescriptor
metric_node_ephemeral_storage_capacity = record {
  name = "ephemeral_storage/node_capacity";
  description = "Ephemeral storage capacity of a node";
  labels = [];
  type = gauge;
  value_type = value_float;
  units = count;
}

abbrev pub metric_node_cpu_allocatable : MetricDescriptor
metric_node_cpu_allocatable = record {
  name = "cpu/node_allocatable";
  description = "Cpu allocatable of a node";
  labels = [];
  type = gauge;
  value_type = value_float;
  units = count;
}

abbrev pub metric_node_memory_allocatable : MetricDescriptor
metric_node_memory_allocatable = record {
  name = "memory/node_allocatable";
  description = "Memory allocatable of a node";
  labels = [];
  type = gauge;
  value_type = value_float;
  units = count;
}

abbrev pub metric_node_ephemeral_storage_allocatable : MetricDescriptor
metric_node_ephemeral_storage_allocatable = record {
  name = "ephemeral_storage/node_allocatable";
  description = "Ephemeral storage allocatable of a node";
  labels = [];
  type = gauge;
  value_type = value_float;
  units = count;
}

abbrev pub metric_node_cpu_utilization : MetricDescriptor
metric_node_cpu_utilization = record {
  name = "cpu/node_utilization";
  description = "Cpu utilization as a share of node capacity";
  labels = [];
  type = gauge;
  value_type = value_float;
  units = count;
}

abbrev pub metric_node_memory_utilization : MetricDescriptor
metric_node_memory_utilization = record {
  name = "memory/node_utilization";
  description = "Memory utilization as a share of memory capacity";
  labels = [];
  type = gauge;
  value_type = value_float;
  units = count;
}

abbrev pub metric_node_ephemeral_storage_utilization : MetricDescriptor
metric_node_ephemeral_storage_utilization = record {
  name = "ephemeral_storage/node_utilization";
  description = "Ephemeral storage utilization as a share of storage capacity";
  labels = [];
  type = gauge;
  value_type = value_float;
  units = count;
}

abbrev pub metric_node_cpu_reservation : MetricDescriptor
metric_node_cpu_reservation = record {
  name = "cpu/node_reservation";
  description = "Share of cpu that is reserved on the node";
  labels = [];
  type = gauge;
  value_type = value_float;
  units = count;
}

abbrev pub metric_node_memory_reservation : MetricDescriptor
metric_node_memory_reservation = record {
  name = "memory/node_reservation";
  description = "Share of memory that is reserved on the node";
  labels = [];
  type = gauge;
  value_type = value_float;
  units = count;
}

abbrev pub metric_node_ephemeral_storage_reservation : MetricDescriptor
metric_node_ephemeral_storage_reservation = record {
  name = "ephemeral_storage/node_reservation";
  description = "Share of ephemeral storage that is reserved on the node";
  labels = [];
  type = gauge;
  value_type = value_float;
  units = count;
}

abbrev pub metric_node_condition : MetricDescriptor
metric_node_condition = record {
  name = "status/condition";
  description = "Node conditions";
  labels = [];
  type = gauge;
  value_type = value_int64;
  units = count;
}

abbrev pub metric_pod_phase : MetricDescriptor
metric_pod_phase = record {
  name = "status/phase";
  description = "Phase of pods";
  labels = [];
  type = gauge;
  value_type = value_int64;
  units = count;
}

abbrev pub metric_container_status : MetricDescriptor
metric_container_status = record {
  name = "status";
  description = "Container status";
  labels = [];
  type = gauge;
  value_type = value_int64;
  units = count;
}

abbrev pub metric_pod_count : MetricDescriptor
metric_pod_count = record {
  name = "pod/count";
  description = "Count of pods";
  labels = [];
  type = gauge;
  value_type = value_int64;
  units = count;
}

abbrev pub metric_pod_container_count : MetricDescriptor
metric_pod_container_count = record {
  name = "pod_container/count";
  description = "Count of pod containers";
  labels = [];
  type = gauge;
  value_type = value_int64;
  units = count;
}
