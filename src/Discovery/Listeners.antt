-- ===== src/Discovery/Listeners.antt =====
-- plugins/discovery/pod.go and service.go: what the informers' callbacks ask of the discoverer. The
-- informers are Kubernetes' own: an object that one hands over may be of another type.
pub mod Deleted
use wavefront_collector_for.Prelude.{
  String, List, [], Bool, true, false, not, ◌&&◌, ◌||◌, ◌==◌, if◌then◌else◌,
}
use wavefront_collector_for.Discovery.Resources.{
  Meta, Resource, type_string, pod_type, service_type,
}
use wavefront_collector_for.Discovery.Discoverer.{Discoverer, discover, delete_resource}

pub record Pod : Type 0 where
  pub meta : Meta
  pub phase : String
  pub pod_ip : String
  pub containers : List String

pub record Service : Type 0 where
  pub meta : Meta
  pub cluster_ip : String

pub data Object : Type 0 where
  pod : Pod → Object
  service : Service → Object
  other : Object

unfoldable pub pod_ready : Pod → Bool
pod_ready p =
    if not (p.phase == "Running")
    then false
    else if p.pod_ip == "" || p.pod_ip == "None"
    then false
    else true

unfoldable pub has_ip : String → Bool
has_ip ip = not (ip == "") && not (ip == "None")

abbrev pub pod_resource : Pod → Resource
pod_resource p = record {
  kind = type_string pod_type;
  ip = p.pod_ip;
  meta = p.meta;
  status = "";
  containers = p.containers;
}

abbrev pub service_resource : Service → Resource
service_resource s = record {
  kind = type_string service_type;
  ip = s.cluster_ip;
  meta = s.meta;
  status = "";
  containers = [];
}

module _ {C S : Type 0} where
  unfoldable pub pod_updated : Pod → Discoverer C S → Discoverer C S
  pod_updated p d = if pod_ready p then discover (pod_resource p) d else d

  unfoldable pub update_pod_if_valid : Object → Discoverer C S → Discoverer C S
  unfolding pod_updated
  update_pod_if_valid (pod p) d = pod_updated p d
  update_pod_if_valid (service s) d = d
  update_pod_if_valid other d = d

  unfoldable pub delete_pod_if_valid : Object → Discoverer C S → Discoverer C S
  delete_pod_if_valid (pod p) d = delete_resource (pod_resource p) d
  delete_pod_if_valid (service s) d = d
  delete_pod_if_valid other d = d

  unfoldable pub update_service_if_valid : Object → Discoverer C S → Discoverer C S
  update_service_if_valid (service s) d =
      if has_ip s.cluster_ip then discover (service_resource s) d else d
  update_service_if_valid (pod p) d = d
  update_service_if_valid other d = d

  unfoldable pub delete_service_if_valid : Object → Discoverer C S → Discoverer C S
  delete_service_if_valid (service s) d = discover (service_resource s) d
  delete_service_if_valid (pod p) d = d
  delete_service_if_valid other d = d
