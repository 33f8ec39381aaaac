-- ===== src/Discovery/Listeners/Deleted.antt =====
-- What the discoverer holds of a pod or a service that was deleted.
use wavefront_collector_for.Prelude.{[], none, ◌≡◌, refl}
use wavefront_collector_for.Prelude.Maps.{lookup}
use wavefront_collector_for.Discovery.Creation.{EndpointCreator, discover_endpoints}
use wavefront_collector_for.Discovery.Discoverer.{
  Handler, Discoverer, DeepEqual, dequeue, discover, delete_resource,
}
use wavefront_collector_for.Discovery.Discoverer.Latest.{name_of, non_empty, lookup-dequeue}
use wavefront_collector_for.Discovery.Listeners.{
  Pod, Service, pod, service, pod_resource, service_resource, delete_pod_if_valid,
  delete_service_if_valid,
}

module _ {C S : Type 0} (handler : Handler C S) (deep_equal : DeepEqual C)
    (creator : EndpointCreator C) where
  -- When a pod was deleted and the queue is empty again, no endpoints are held for the pod.
  pub lookup-delete_pod_if_valid :
      (p : Pod) (d : Discoverer C S)
      → lookup
          (name_of (pod_resource p))
          (dequeue handler deep_equal creator (delete_pod_if_valid (pod p) d)).endpoints
        ≡ none
  unfolding delete_pod_if_valid delete_resource
  lookup-delete_pod_if_valid p d =
      lookup-dequeue handler deep_equal creator d.queue []
        (record (pod_resource p) { status = "delete" }) (delete_pod_if_valid (pod p) d) refl tt

  -- When a service was deleted and the queue is empty again, all endpoints that are found for the
  -- service are held, as after an update: the deletion of a service takes none of them away.
  pub lookup-delete_service_if_valid :
      (s : Service) (d : Discoverer C S)
      → lookup
          (name_of (service_resource s))
          (dequeue handler deep_equal creator (delete_service_if_valid (service s) d)).endpoints
        ≡ non_empty (discover_endpoints creator (service_resource s))
  unfolding delete_service_if_valid discover
  lookup-delete_service_if_valid s d =
      lookup-dequeue handler deep_equal creator d.queue [] (service_resource s)
        (delete_service_if_valid (service s) d) refl tt
