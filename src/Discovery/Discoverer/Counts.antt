-- ===== src/Discovery/Discoverer/Counts.antt =====
-- The discoverer's operations in any order, with a handler that counts, and the counters of the real
-- endpoint handler.
use wavefront_collector_for.Prelude.{
  ℕ, ◌+◌, ◌%◌, ◌^◌, String, List, [], ◌∷◌, ◌++◌, Option, none, some, true, ◌==◌, ◌≡◌, is_some, inl,
  inr, if◌then◌else◌, eq_iff, arith, Bool-cases,
}
use wavefront_collector_for.Prelude.Maps.{lookup, Distinct-insert, lookup-insert}
use wavefront_collector_for.Discovery.Resources.{Resource, PluginConfig}
use wavefront_collector_for.Discovery.Endpoints.{
  Endpoint, Factory, EndpointHandler, add, delete, inc64, dec64,
}
use wavefront_collector_for.Discovery.Creation.{EndpointCreator, make_endpoint}
use wavefront_collector_for.Discovery.Discoverer.{
  Handler, Discoverer, DeepEqual, Nodes, listed, not_listed, held_of, delete_all, handle_resource,
  dequeue_one, take_from, add_node_endpoint, discover_node_endpoint, discover, delete_resource,
}
use wavefront_collector_for.Discovery.Discoverer.Held.{
  Counting, Balanced, held, held-insert, weigh-append, Shows-at, Balanced-delete_all,
  Balanced-internal_delete, Balanced-internal_discover,
}

-- what the listeners, the queue's reader, the manager and the node rules do
pub data Action : Type 0 where
  discovered : Resource → Action
  removed : Resource → Action
  taken : Action
  all_removed : Action
  node_found : Nodes → String → PluginConfig → Action

module _ {C S : Type 0} (handler : Handler C S) (deep_equal : DeepEqual C) where
  module _ (creator : EndpointCreator C) where
    abbrev pub act : Action → Discoverer C S → Discoverer C S
    act (discovered r) d = discover r d
    act (removed r) d = delete_resource r d
    act taken d = dequeue_one handler deep_equal creator d
    act all_removed d = delete_all handler d
    act (node_found nodes name plugin) d =
        discover_node_endpoint handler deep_equal creator nodes name plugin d

    abbrev pub run : List Action → Discoverer C S → Discoverer C S
    run [] d = d
    run (a ∷ actions) d = run actions (act a d)

    module _ (counting : Counting handler)
        (deep_equal-same : (a b : List (Endpoint C)) → deep_equal a b ≡ true → a ≡ b) where
      Balanced-handle_resource :
          (r : Resource) (d : Discoverer C S)
          → Balanced handler counting d
          → Balanced handler counting (handle_resource handler deep_equal creator r d)
      unfolding handle_resource
      Balanced-handle_resource r d b = elim (Bool-cases (r.status == "delete")) [
        | inl e ↦ rw e (Balanced-internal_delete handler counting r d b)
        | inr e ↦
            rw e
              (Balanced-internal_discover handler counting deep_equal creator deep_equal-same r d b)
      ]

      Balanced-take_from :
          (queue : List Resource) (d : Discoverer C S)
          → Balanced handler counting d
          → Balanced handler counting (take_from handler deep_equal creator queue d)
      Balanced-take_from [] d b = b
      Balanced-take_from (r ∷ queue) d b =
          Balanced-handle_resource r (record d { queue = queue })
            (record { distinct = b.distinct; shown = b.shown })

      Balanced-add_node_endpoint :
          (name : String) (o : Option (Endpoint C)) (d : Discoverer C S)
          → Balanced handler counting d
          → Balanced handler counting (add_node_endpoint handler deep_equal creator name o d)
      Balanced-add_node_endpoint name none d b = b
      Balanced-add_node_endpoint name (some ep) d b =
          let old = held_of (lookup name d.endpoints) in
          record {
            distinct = Distinct-insert name (old ++ (ep ∷ [])) d.endpoints b.distinct;
            shown =
                Shows-at handler counting _ _ _
                  (omega (
                    arith,
                    held-insert handler counting name (old ++ (ep ∷ [])) d.endpoints,
                    weigh-append handler counting old (ep ∷ []),
                  ))
                  (counting.Shows-add _ ep d.handled b.shown);
          }

      Balanced-discover_node_endpoint :
          (nodes : Nodes) (name : String) (plugin : PluginConfig) (d : Discoverer C S)
          → Balanced handler counting d
          → Balanced handler counting
              (discover_node_endpoint handler deep_equal creator nodes name plugin d)
      unfolding discover_node_endpoint
      Balanced-discover_node_endpoint (listed (some ip ∷ [])) name plugin d b =
          Balanced-add_node_endpoint _ (make_endpoint creator _ plugin) d b
      Balanced-discover_node_endpoint not_listed name plugin d b = b
      Balanced-discover_node_endpoint (listed []) name plugin d b = b
      Balanced-discover_node_endpoint (listed (none ∷ [])) name plugin d b = b
      Balanced-discover_node_endpoint (listed (none ∷ o ∷ os)) name plugin d b = b
      Balanced-discover_node_endpoint (listed (some ip ∷ o ∷ os)) name plugin d b = b

      Balanced-act :
          (a : Action) (d : Discoverer C S)
          → Balanced handler counting d
          → Balanced handler counting (act a d)
      unfolding discover delete_resource dequeue_one
      Balanced-act (discovered r) d b = record { distinct = b.distinct; shown = b.shown }
      Balanced-act (removed r) d b = record { distinct = b.distinct; shown = b.shown }
      Balanced-act taken d b = Balanced-take_from d.queue d b
      Balanced-act all_removed d b = Balanced-delete_all handler counting d b
      Balanced-act (node_found nodes name plugin) d b =
          Balanced-discover_node_endpoint nodes name plugin d b

      Balanced-run :
          (actions : List Action) (d : Discoverer C S)
          → Balanced handler counting d
          → Balanced handler counting (run actions d)
      Balanced-run [] d b = b
      Balanced-run (a ∷ actions) d b = Balanced-run actions (act a d) (Balanced-act a d b)

-- the endpoint handler of discovered endpoints, as the discoverer's
abbrev pub endpoint_handler : (C : Type 0) → Handler C (EndpointHandler C)
endpoint_handler C = record { add_one = add; delete_one = delete }

module _ {C : Type 0} (type : String) (factory : Factory C)
    (builds : (c : C) → is_some (factory.build c) ≡ true) where
  -- the counter of the type shows n, modulo 2^64
  abbrev pub CounterShows : ℕ → EndpointHandler C → Type 0
  CounterShows n h =
      (lookup type h.providers ≡ some factory) × (lookup type h.counts ≡ some (n % 2 ^ 64))

  abbrev pub of_type : Endpoint C → ℕ
  of_type ep = if ep.plugin_type == type then 1 else 0

  pub CounterShows-add :
      (n : ℕ) (ep : Endpoint C) (h : EndpointHandler C)
      → CounterShows n h
      → CounterShows (of_type ep + n) (add ep h)
  unfolding add
  CounterShows-add n ep h shows =
      let t = ep.plugin_type in
      ground (
        arith,
        shows.0,
        shows.1,
        builds ep.config,
        eq_iff t type,
        lookup-insert t type (inc64 (lookup t h.counts)) h.counts,
      )

  pub CounterShows-delete :
      (n : ℕ) (ep : Endpoint C) (h : EndpointHandler C)
      → CounterShows (of_type ep + n) h
      → CounterShows n (delete ep h)
  unfolding delete
  CounterShows-delete n ep h shows =
      let t = ep.plugin_type in
      ground (
        arith,
        shows.0,
        shows.1,
        eq_iff t type,
        lookup-insert t type (dec64 (lookup t h.counts)) h.counts,
      )

  abbrev pub counting : Counting (endpoint_handler C)
  counting = record {
    weight = of_type;
    Shows = CounterShows;
    Shows-add = CounterShows-add;
    Shows-delete = CounterShows-delete;
  }

  -- Where every endpoint of a type can be built, its counter shows, modulo 2^64, how many endpoints of
  -- the type the discoverer holds, after any operations from a state in which it does: resources
  -- offered and deleted, the queue read, node rules, and the deletion of all. Equal endpoints are the
  -- only ones that DeepEqual takes for equal.
  pub counts-run :
      (deep_equal : DeepEqual C) (creator : EndpointCreator C)
      → ((a b : List (Endpoint C)) → deep_equal a b ≡ true → a ≡ b)
      → (actions : List Action) (d : Discoverer C (EndpointHandler C))
      → Balanced (endpoint_handler C) counting d
      → lookup type (run (endpoint_handler C) deep_equal creator actions d).handled.counts
        ≡ some (
            held
              (endpoint_handler C)
              counting
              (run (endpoint_handler C) deep_equal creator actions d).endpoints
            % 2 ^ 64)
  counts-run deep_equal creator same actions d b =
      (Balanced-run (endpoint_handler C) deep_equal creator counting same actions d b).shown.1
