-- ===== src/Sources/State/Pods.antt =====
-- plugins/sources/kstate: non_running_pods.go and nodes.go. Messages are ASCII, so that the bytes of a
-- message are its characters.
pub mod Messages
use Prim.Native.String.{◌++◌, count}
use wavefront_collector_for.Prelude.{
  ℕ, zero, suc, String, List, [], ◌∷◌, Option, none, some, Bool, true, false, not, ◌==◌, ◌&&◌, eqb,
  leb, if◌then◌else◌,
}
use mathlib.Core.List.{◌++◌ as ◌++ₗ◌}
use wavefront_collector_for.Prelude.Maps.{Map, insert}
use wavefront_collector_for.Float64.{Float64}
use wavefront_collector_for.Metrics.Labels.{
  label_metric_set_type, label_pod_id, label_nodename, label_container_name,
  label_container_base_image, label_node_role, metric_set_type_pod, metric_set_type_pod_container,
}
use wavefront_collector_for.Processors.Enriching.{
  ContainerState, new_container_state_info, add_metric_tags, convert_pod_phase,
}
use wavefront_collector_for.Processors.Enriching.Nodes.{get_node_role}
use wavefront_collector_for.Sources.State.{
  Transforms, Group, build_tags, copy_labels, copy_tags, minus_one,
}

pub record Condition : Type 0 where
  pub type : String
  pub status : String
  pub reason : String
  pub message : String

pub record ContainerStatus : Type 0 where
  pub name : String
  pub image : String
  pub state : ContainerState

pub record Pod : Type 0 where
  pub namespace : String
  pub name : String
  pub uid : String
  pub labels : Map String
  pub node_name : String
  pub phase : String
  pub conditions : List Condition
  pub container_statuses : List ContainerStatus

pub record Taint : Type 0 where
  pub key : String
  pub value : String
  pub effect : String

pub record Node : Type 0 where
  pub name : String
  pub labels : Map String
  pub conditions : List Condition
  pub taints : List Taint
  pub kernel_version : String
  pub os_image : String
  pub container_runtime_version : String
  pub kubelet_version : String
  pub kube_proxy_version : String
  pub provider_id : String
  pub pod_cidr : String
  -- the type and the address
  pub addresses : List (String × String)

-- s[0:n], where s has so many characters
unfoldable pub take : ℕ → String → String
take zero s = ""
take (suc n) String.[] = ""
take (suc n) (String.◌∷◌ c s) = String.◌∷◌ c (take n s)

-- 255 - len("=") - len("message")
abbrev pub max_point_tag_length : ℕ
max_point_tag_length = 247

unfoldable pub truncate_message : String → String
unfolding take
truncate_message message =
    if leb max_point_tag_length (count message) then take max_point_tag_length message else message

abbrev pub explain : Condition → Map String → Map String
explain c tags = insert "message" (truncate_message c.message) (insert "reason" c.reason tags)

unfoldable pub explain_pending : List Condition → Map String → Map String
unfolding truncate_message
explain_pending [] tags = tags
explain_pending (c ∷ conditions) tags = explain_pending conditions (
    if c.type == "PodScheduled" && c.status == "False"
    then explain c (insert label_nodename.key "none" tags)
    else if c.type == "ContainersReady" && c.status == "False"
    then explain c tags
    else tags)

unfoldable pub explain_failed : List Condition → Map String → Map String
unfolding truncate_message
explain_failed [] tags = tags
explain_failed (c ∷ conditions) tags =
    explain_failed conditions (if c.type == "Ready" then explain c tags else tags)

unfoldable pub explained : Pod → Map String → Map String
unfolding convert_pod_phase explain_pending explain_failed
explained pod tags =
    let pending =
      if eqb (convert_pod_phase pod.phase) 1 then explain_pending pod.conditions tags else tags in
    if eqb (convert_pod_phase pod.phase) 4 then explain_failed pod.conditions pending else pending

-- the tags that all points of a pod have, once the node is known
unfoldable pub shared_tags : Pod → Map String
unfolding copy_labels
shared_tags pod =
    let shared = copy_labels pod.labels [] in
    if not (pod.node_name == "") then insert label_nodename.key pod.node_name shared else shared

abbrev pub node_tags : Transforms → Node → Map String
node_tags t node = copy_labels node.labels (build_tags "nodename" node.name "" t.tags)

unfoldable pub put_internal_ip : List (String × String) → Map String → Map String
put_internal_ip [] tags = tags
put_internal_ip ((type, address) ∷ addresses) tags =
    put_internal_ip addresses
      (if type == "InternalIP" then insert "internal_ip" address tags else tags)

module _ {F : Type 0} ⦃f : Float64 F⦄ (t : Transforms) where
  unfoldable pub build_pod_phase_metrics : Pod → Map String → Group F
  unfolding build_tags explained copy_tags convert_pod_phase
  build_pod_phase_metrics pod shared =
      let own = insert "phase" pod.phase (
        insert label_pod_id.key pod.uid (
          insert label_metric_set_type.key metric_set_type_pod
            (build_tags "pod_name" pod.name pod.namespace t.tags))) in
      record {
        tags = copy_tags shared (explained pod own);
        readings = ("pod.status.phase", f.of_int64 (convert_pod_phase pod.phase)) ∷ [];
      }

  unfoldable pub build_container_status_metrics :
      Pod → Map String → List ContainerStatus → List (Group F)
  unfolding new_container_state_info add_metric_tags build_tags copy_tags
  build_container_status_metrics pod shared [] = []
  build_container_status_metrics pod shared (status ∷ statuses) =
      let info = new_container_state_info status.state in
      let tags = insert label_container_base_image.key status.image (
        insert label_container_name.key status.name (
          insert label_metric_set_type.key metric_set_type_pod_container
            (build_tags "pod_name" pod.name pod.namespace t.tags))) in
      record {
        tags = add_metric_tags info (copy_tags shared tags);
        readings = ("pod_container.status", f.of_int64 info.value) ∷ [];
      }
      ∷ build_container_status_metrics pod shared statuses

  unfoldable pub points_for_non_running_pods : Pod → List (Group F)
  unfolding build_pod_phase_metrics build_container_status_metrics shared_tags
  points_for_non_running_pods pod =
      build_pod_phase_metrics pod (shared_tags pod)
      ∷ build_container_status_metrics pod (shared_tags pod) pod.container_statuses

  unfoldable pub node_condition_float64 : String → F
  node_condition_float64 status =
      if status == "True" then f.one else if status == "False" then f.zero else minus_one

  unfoldable pub build_node_conditions : Node → List Condition → List (Group F)
  unfolding build_tags copy_labels get_node_role node_condition_float64
  build_node_conditions node [] = []
  build_node_conditions node (c ∷ conditions) =
      record {
        tags =
            insert label_node_role.key (get_node_role node.labels)
              (insert "condition" c.type (insert "status" c.status (node_tags t node)));
        readings = ("node.status.condition", node_condition_float64 c.status) ∷ [];
      }
      ∷ build_node_conditions node conditions

  unfoldable pub build_node_taints : Node → List Taint → List (Group F)
  unfolding build_tags copy_labels
  build_node_taints node [] = []
  build_node_taints node (taint ∷ taints) =
      record {
        tags =
            insert "effect" taint.effect
              (insert "value" taint.value (insert "key" taint.key (node_tags t node)));
        readings = ("node.spec.taint", f.one) ∷ [];
      }
      ∷ build_node_taints node taints

  unfoldable pub build_node_info : Node → Group F
  unfolding build_tags copy_labels get_node_role put_internal_ip
  build_node_info node = record {
    tags = put_internal_ip node.addresses (
        insert "node_role" (get_node_role node.labels) (
          insert "pod_cidr" node.pod_cidr (
            insert "provider_id" node.provider_id (
              insert "kubeproxy_version" node.kube_proxy_version (
                insert "kubelet_version" node.kubelet_version (
                  insert "container_runtime_version" node.container_runtime_version (
                    insert "os_image" node.os_image
                      (insert "kernel_version" node.kernel_version (node_tags t node)))))))));
    readings = ("node.info", f.one) ∷ [];
  }

  unfoldable pub points_for_node : Node → List (Group F)
  unfolding build_node_conditions build_node_taints build_node_info
  points_for_node node =
      build_node_conditions node node.conditions
      ++ₗ (build_node_taints node node.taints ++ₗ (build_node_info node ∷ []))
