-- ===== src/Discovery/Discoverer.antt =====
-- The discoverer of plugins/discovery/discoverer.go: its queue of resources, the endpoints that it
-- holds for each resource, and the calls of its endpoint handler, an interface. `deep_equal` is
-- reflect.DeepEqual on two slices of endpoints. The queue is a list, since a full channel delays a
-- sender and changes no order. The lock makes each operation one step.
pub mod Latest
pub mod Held
pub mod Counts
use wavefront_collector_for.Prelude.{
  String, List, [], ◌∷◌, ◌++◌, Option, none, some, Bool, true, false, ◌==◌, if◌then◌else◌,
}
use wavefront_collector_for.Prelude.Maps.{Map, lookup, insert, delete}
use wavefront_collector_for.Discovery.Resources.{
  Resource, PluginConfig, resource_name, type_string, node_type,
}
use wavefront_collector_for.Discovery.Endpoints.{Endpoint}
use wavefront_collector_for.Discovery.Creation.{EndpointCreator, make_endpoint, discover_endpoints}

-- discovery.EndpointHandler, on a state S
pub record Handler (C S : Type 0) : Type 0 where
  pub add_one : Endpoint C → S → S
  pub delete_one : Endpoint C → S → S

abbrev pub DeepEqual : Type 0 → Type 0
DeepEqual C = List (Endpoint C) → List (Endpoint C) → Bool

pub record Discoverer (C S : Type 0) : Type 0 where
  pub queue : List Resource
  pub endpoints : Map (List (Endpoint C))
  pub handled : S

-- what a lister says of the nodes: its own error, or for each node its address, if that is known
pub data Nodes : Type 0 where
  not_listed : Nodes
  listed : List (Option String) → Nodes

abbrev pub held_of {ℓ} : {A : Type ℓ} → Option (List A) → List A
held_of none = []
held_of (some eps) = eps

abbrev pub put_endpoints {ℓ} : {A : Type ℓ} → String → List A → Map (List A) → Map (List A)
put_endpoints name [] endpoints = endpoints
put_endpoints name (ep ∷ eps) endpoints = insert name (ep ∷ eps) endpoints

module _ {C S : Type 0} (handler : Handler C S) where
  -- the `for` over the endpoints that calls Add, and the one that calls Delete
  unfoldable pub add_each : List (Endpoint C) → S → S
  add_each [] s = s
  add_each (ep ∷ eps) s = add_each eps (handler.add_one ep s)

  unfoldable pub delete_each : List (Endpoint C) → S → S
  delete_each [] s = s
  delete_each (ep ∷ eps) s = delete_each eps (handler.delete_one ep s)

  unfoldable pub delete_endpoints : Map (List (Endpoint C)) → S → S
  unfolding delete_each
  delete_endpoints [] s = s
  delete_endpoints ((name, eps) ∷ endpoints) s = delete_endpoints endpoints (delete_each eps s)

  -- DeleteAll: every entry that is visited is deleted from the map
  unfoldable pub delete_all : Discoverer C S → Discoverer C S
  delete_all d = record d { endpoints = []; handled = delete_endpoints d.endpoints d.handled }

  unfoldable pub internal_delete : Resource → Discoverer C S → Discoverer C S
  internal_delete resource d =
      let name = resource_name resource.kind resource.meta in
      record d {
        endpoints = delete name d.endpoints;
        handled = delete_each (held_of (lookup name d.endpoints)) d.handled;
      }

  module _ (deep_equal : DeepEqual C) (creator : EndpointCreator C) where
    unfoldable pub internal_discover : Resource → Discoverer C S → Discoverer C S
    internal_discover resource d =
        let eps = discover_endpoints creator resource in
        let name = resource_name resource.kind resource.meta in
        let old_eps = held_of (lookup name d.endpoints) in
        record d {
          endpoints = put_endpoints name eps (delete name d.endpoints);
          handled =
              (if deep_equal eps old_eps
                then d.handled
                else add_each eps (delete_each old_eps d.handled));
        }

    unfoldable pub handle_resource : Resource → Discoverer C S → Discoverer C S
    unfolding internal_discover
    handle_resource resource d =
        if resource.status == "delete"
        then internal_delete resource d
        else internal_discover resource d

    unfoldable pub handle_all : List Resource → Discoverer C S → Discoverer C S
    unfolding handle_resource
    handle_all [] d = d
    handle_all (resource ∷ queue) d = handle_all queue (handle_resource resource d)

    -- one round of dequeue
    abbrev pub take_from : List Resource → Discoverer C S → Discoverer C S
    take_from [] d = d
    take_from (resource ∷ queue) d = handle_resource resource (record d { queue = queue })

    unfoldable pub dequeue_one : Discoverer C S → Discoverer C S
    dequeue_one d = take_from d.queue d

    -- dequeue, until the queue is empty
    unfoldable pub dequeue : Discoverer C S → Discoverer C S
    dequeue d = handle_all d.queue (record d { queue = [] })

    abbrev add_node_endpoint : String → Option (Endpoint C) → Discoverer C S → Discoverer C S
    add_node_endpoint name none d = d
    add_node_endpoint name (some ep) d = record d {
      endpoints = insert name (held_of (lookup name d.endpoints) ++ (ep ∷ [])) d.endpoints;
      handled = handler.add_one ep d.handled;
    }

    abbrev node_resource : String → String → Resource
    node_resource ip node_name = record {
      kind = type_string node_type;
      ip = ip;
      meta = record { name = node_name; namespace = ""; labels = []; annotations = [] };
      status = "";
      containers = [];
    }

    -- `node_name` is the name of the collector's own node; an error changes nothing
    unfoldable pub discover_node_endpoint :
        Nodes → String → PluginConfig → Discoverer C S → Discoverer C S
    discover_node_endpoint (listed (some ip ∷ [])) node_name plugin d =
        let resource = node_resource ip node_name in
        add_node_endpoint (resource_name resource.kind resource.meta)
          (make_endpoint creator resource plugin) d
    discover_node_endpoint _ node_name plugin d = d

    -- the listers may answer each rule differently
    unfoldable pub discover_node_endpoints :
        List (Nodes × PluginConfig) → String → Discoverer C S → Discoverer C S
    unfolding discover_node_endpoint
    discover_node_endpoints [] node_name d = d
    discover_node_endpoints ((nodes, plugin) ∷ plugins) node_name d =
        discover_node_endpoints plugins node_name (
          if plugin.selectors.resource_type == type_string node_type
          then discover_node_endpoint nodes node_name plugin d
          else d)

unfoldable pub discover : {C S : Type 0} → Resource → Discoverer C S → Discoverer C S
discover resource d = record d { queue = d.queue ++ (resource ∷ []) }

-- Delete of the interface
unfoldable pub delete_resource : {C S : Type 0} → Resource → Discoverer C S → Discoverer C S
delete_resource resource d = record d {
  queue = d.queue ++ (record resource { status = "delete" } ∷ []);
}
