-- ===== src/Discovery/Discoverer/Latest.antt =====
-- Which endpoints the discoverer holds once the queue is empty.
use wavefront_collector_for.Prelude.{
  String, List, [], ◌∷◌, ◌++◌, Option, none, some, false, ◌==◌, ◌≡◌, ◌∙◌, refl, if◌then◌else◌,
  eq_refl, arith, All,
}
use wavefront_collector_for.Prelude.Maps.{Map, lookup, delete, lookup-insert, lookup-delete}
use wavefront_collector_for.Discovery.Resources.{Resource, resource_name}
use wavefront_collector_for.Discovery.Endpoints.{Endpoint}
use wavefront_collector_for.Discovery.Creation.{EndpointCreator, discover_endpoints}
use wavefront_collector_for.Discovery.Discoverer.{
  Handler, Discoverer, DeepEqual, put_endpoints, internal_delete, internal_discover,
  handle_resource, handle_all, dequeue,
}

-- the name under which a resource is held
abbrev pub name_of : Resource → String
name_of r = resource_name r.kind r.meta

abbrev pub non_empty {ℓ} : {A : Type ℓ} → List A → Option (List A)
non_empty [] = none
non_empty (x ∷ xs) = some (x ∷ xs)

lookup-put_endpoints :
    {A : Type 0} (name k : String) (eps : List A) (m : Map (List A))
    → lookup k (put_endpoints name eps (delete name m))
      ≡ (if name == k then non_empty eps else lookup k m)
lookup-put_endpoints name k [] m = lookup-delete name k m
lookup-put_endpoints name k (ep ∷ eps) m =
    ground (arith, lookup-insert name k (ep ∷ eps) (delete name m), lookup-delete name k m)

module _ {C S : Type 0} (handler : Handler C S) where
  module _ (deep_equal : DeepEqual C) (creator : EndpointCreator C) where
    -- what a resource of the queue makes of the entry of its name
    abbrev pub outcome : Resource → Option (List (Endpoint C))
    outcome r = if r.status == "delete" then none else non_empty (discover_endpoints creator r)

    lookup-handle_resource :
        (k : String) (r : Resource) (d : Discoverer C S)
        → lookup k (handle_resource handler deep_equal creator r d).endpoints
          ≡ (if name_of r == k then outcome r else lookup k d.endpoints)
    unfolding handle_resource internal_delete internal_discover
    lookup-handle_resource k r d = ground (
      arith,
      lookup-delete (name_of r) k d.endpoints,
      lookup-put_endpoints (name_of r) k (discover_endpoints creator r) d.endpoints,
    )

    handle_all-append :
        (before after : List Resource) (d : Discoverer C S)
        → handle_all handler deep_equal creator (before ++ after) d
          ≡ handle_all handler deep_equal creator after
              (handle_all handler deep_equal creator before d)
    unfolding handle_all
    handle_all-append [] after d = refl
    handle_all-append (r ∷ before) after d = handle_all-append before after _

    lookup-handle_all_others :
        (k : String) (queue : List Resource) (d : Discoverer C S)
        → All (λ r. (name_of r == k) ≡ false) queue
        → lookup k (handle_all handler deep_equal creator queue d).endpoints ≡ lookup k d.endpoints
    unfolding handle_all
    lookup-handle_all_others k [] d h = refl
    lookup-handle_all_others k (r ∷ queue) d h =
        lookup-handle_all_others k queue (handle_resource handler deep_equal creator r d) h.1
        ∙ ground (arith, lookup-handle_resource k r d, h.0)

    -- When the queue has been emptied, the last resource of a name decides what is held under it: no
    -- endpoints if it was deleted or none are found for it, and otherwise the endpoints found for it.
    pub lookup-dequeue :
        (before after : List Resource) (r : Resource) (d : Discoverer C S)
        → d.queue ≡ before ++ (r ∷ after)
        → All (λ later. (name_of later == name_of r) ≡ false) after
        → lookup (name_of r) (dequeue handler deep_equal creator d).endpoints
          ≡ (if r.status == "delete" then none else non_empty (discover_endpoints creator r))
    unfolding dequeue handle_all
    lookup-dequeue before after r d q h =
        let start : Discoverer C S = record d { queue = [] } in
        let middle = handle_all handler deep_equal creator before start in
        let last = lookup-handle_resource (name_of r) r middle in
        let rest =
          lookup-handle_all_others (name_of r) after
            (handle_resource handler deep_equal creator r middle) h in
        ground
          (arith, q, handle_all-append before (r ∷ after) start, rest, last, eq_refl (name_of r))
