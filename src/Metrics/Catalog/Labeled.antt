-- ===== src/Metrics/Catalog/Labeled.antt =====
-- internal/metrics/metrics.go: the descriptors of file systems, accelerators and disks.
use wavefront_collector_for.Metrics.Types.{
  MetricDescriptor, cumulative, gauge, value_int64, value_float, count, bytes,
}
use wavefront_collector_for.Metrics.Labels.{metric_labels, accelerator_labels}

abbrev pub metric_filesystem_usage : MetricDescriptor
metric_filesystem_usage = record {
  name = "filesystem/usage";
  description = "Total number of bytes consumed on a filesystem";
  labels = metric_labels;
  type = gauge;
  value_type = value_int64;
  units = bytes;
}

abbrev pub metric_filesystem_limit : MetricDescriptor
metric_filesystem_limit = record {
  name = "filesystem/limit";
  description = "The total size of filesystem in bytes";
  labels = metric_labels;
  type = gauge;
  value_type = value_int64;
  units = bytes;
}

abbrev pub metric_filesystem_available : MetricDescriptor
metric_filesystem_available = record {
  name = "filesystem/available";
  description = "The number of available bytes remaining in a the filesystem";
  labels = metric_labels;
  type = gauge;
  value_type = value_int64;
  units = bytes;
}

abbrev pub metric_filesystem_inodes : MetricDescriptor
metric_filesystem_inodes = record {
  name = "filesystem/inodes";
  description = "Total number of inodes on a filesystem";
  labels = metric_labels;
  type = gauge;
  value_type = value_int64;
  units = bytes;
}

abbrev pub metric_filesystem_inodes_free : MetricDescriptor
metric_filesystem_inodes_free = record {
  name = "filesystem/inodes_free";
  description = "Free number of inodes on a filesystem";
  labels = metric_labels;
  type = gauge;
  value_type = value_int64;
  units = bytes;
}

abbrev pub metric_accelerator_memory_total : MetricDescriptor
metric_accelerator_memory_total = record {
  name = "accelerator/memory_total";
  description = "Total accelerator memory (in bytes)";
  labels = accelerator_labels;
  type = gauge;
  value_type = value_int64;
  units = bytes;
}

abbrev pub metric_accelerator_memory_used : MetricDescriptor
metric_accelerator_memory_used = record {
  name = "accelerator/memory_used";
  description = "Total accelerator memory allocated (in bytes)";
  labels = accelerator_labels;
  type = gauge;
  value_type = value_int64;
  units = bytes;
}

abbrev pub metric_accelerator_duty_cycle : MetricDescriptor
metric_accelerator_duty_cycle = record {
  name = "accelerator/duty_cycle";
  description =
      "Percent of time over the past sample period (10s) during which the accelerator was actively processing";
  labels = accelerator_labels;
  type = gauge;
  value_type = value_int64;
  units = count;
}

abbrev pub metric_disk_io_read : MetricDescriptor
metric_disk_io_read = record {
  name = "disk/io_read_bytes";
  description = "Cumulative number of bytes read over disk";
  labels = metric_labels;
  type = cumulative;
  value_type = value_int64;
  units = bytes;
}

abbrev pub metric_disk_io_write : MetricDescriptor
metric_disk_io_write = record {
  name = "disk/io_write_bytes";
  description = "Cumulative number of bytes write over disk";
  labels = metric_labels;
  type = cumulative;
  value_type = value_int64;
  units = bytes;
}

abbrev pub metric_disk_io_read_rate : MetricDescriptor
metric_disk_io_read_rate = record {
  name = "disk/io_read_bytes_rate";
  description = "Rate of bytes read over disk in bytes per second";
  labels = metric_labels;
  type = gauge;
  value_type = value_float;
  units = count;
}

abbrev pub metric_disk_io_write_rate : MetricDescriptor
metric_disk_io_write_rate = record {
  name = "disk/io_write_bytes_rate";
  description = "Rate of bytes written over disk in bytes per second";
  labels = metric_labels;
  type = gauge;
  value_type = value_float;
  units = count;
}
