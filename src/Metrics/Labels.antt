-- ===== src/Metrics/Labels.antt =====
-- internal/metrics/labels.go: the labels of a metric set, and the tables of labels.
use mathlib.Core.List.{List, [], ◌∷◌}
use Prim.Native.String.{String}

pub record LabelDescriptor : Type 0 where
  pub key : String
  pub description : String

abbrev pub label_metric_set_type : LabelDescriptor
label_metric_set_type = record {
  key = "type";
  description = "Type of the metrics set (container, pod, namespace, node, cluster)";
}

abbrev pub metric_set_type_system_container : String
metric_set_type_system_container = "sys_container"

abbrev pub metric_set_type_pod_container : String
metric_set_type_pod_container = "pod_container"

abbrev pub metric_set_type_pod : String
metric_set_type_pod = "pod"

abbrev pub metric_set_type_namespace : String
metric_set_type_namespace = "ns"

abbrev pub metric_set_type_node : String
metric_set_type_node = "node"

abbrev pub metric_set_type_cluster : String
metric_set_type_cluster = "cluster"

abbrev pub label_cluster : LabelDescriptor
label_cluster = record { key = "cluster"; description = "The name of the kubernetes cluster" }

abbrev pub label_pod_id : LabelDescriptor
label_pod_id = record { key = "pod_id"; description = "The unique ID of the pod" }

abbrev pub label_pod_name : LabelDescriptor
label_pod_name = record { key = "pod_name"; description = "The name of the pod" }

abbrev pub label_namespace_name : LabelDescriptor
label_namespace_name = record { key = "namespace_name"; description = "The name of the namespace" }

abbrev pub label_pod_namespace_uid : LabelDescriptor
label_pod_namespace_uid = record {
  key = "namespace_id";
  description = "The UID of namespace of the pod";
}

abbrev pub label_container_name : LabelDescriptor
label_container_name = record {
  key = "container_name";
  description = "User-provided name of the container or full container name for system containers";
}

abbrev pub label_labels : LabelDescriptor
label_labels = record {
  key = "labels";
  description = "Comma-separated list of user-provided labels";
}

abbrev pub label_nodename : LabelDescriptor
label_nodename = record { key = "nodename"; description = "nodename where the container ran" }

abbrev pub label_node_role : LabelDescriptor
label_node_role = record { key = "node_role"; description = "Node role worker or control-plane" }

abbrev pub label_hostname : LabelDescriptor
label_hostname = record { key = "hostname"; description = "Hostname where the container ran" }

abbrev pub label_resource_id : LabelDescriptor
label_resource_id = record {
  key = "resource_id";
  description = "Identifier(s) specific to a metric";
}

abbrev pub label_host_id : LabelDescriptor
label_host_id = record {
  key = "host_id";
  description = "Identifier specific to a host. Set by cloud provider or user";
}

abbrev pub label_container_base_image : LabelDescriptor
label_container_base_image = record {
  key = "container_base_image";
  description = "User-defined image name that is run inside the container";
}

abbrev pub label_custom_metric_name : LabelDescriptor
label_custom_metric_name = record {
  key = "custom_metric_name";
  description = "User-defined name of the exported custom metric";
}

abbrev pub label_gce_resource_id : LabelDescriptor
label_gce_resource_id = record {
  key = "resource_id";
  description = "Resource id for nodes specific for GCE.";
}

abbrev pub label_gce_resource_type : LabelDescriptor
label_gce_resource_type = record {
  key = "resource_type";
  description = "Resource types for nodes specific for GCE.";
}

abbrev pub label_node_schedulable : LabelDescriptor
label_node_schedulable = record { key = "schedulable"; description = "Node schedulable status." }

abbrev pub label_volume_name : LabelDescriptor
label_volume_name = record { key = "volume_name"; description = "The name of the volume." }

abbrev pub label_accelerator_make : LabelDescriptor
label_accelerator_make = record {
  key = "make";
  description = "Make of the accelerator (nvidia, amd, google etc.)";
}

abbrev pub label_accelerator_model : LabelDescriptor
label_accelerator_model = record {
  key = "model";
  description = "Model of the accelerator (tesla-p100, tesla-k80 etc.)";
}

abbrev pub label_accelerator_id : LabelDescriptor
label_accelerator_id = record { key = "accelerator_id"; description = "ID of the accelerator" }

abbrev pub common_labels : List LabelDescriptor
common_labels = label_nodename ∷ label_hostname ∷ label_host_id ∷ []

abbrev pub container_labels : List LabelDescriptor
container_labels = label_container_name ∷ label_container_base_image ∷ []

abbrev pub pod_labels : List LabelDescriptor
pod_labels = label_pod_name ∷ label_pod_id ∷ label_pod_namespace_uid ∷ label_labels ∷ []

abbrev pub metric_labels : List LabelDescriptor
metric_labels = label_resource_id ∷ []

abbrev pub custom_metric_labels : List LabelDescriptor
custom_metric_labels = label_custom_metric_name ∷ []

abbrev pub accelerator_labels : List LabelDescriptor
accelerator_labels = label_accelerator_make ∷ label_accelerator_model ∷ label_accelerator_id ∷ []
