-- ===== src/Examples/Discovered.antt =====
-- Service discovery at concrete inputs: a pod that a rule selects, and a service with annotations. A
-- configuration is a number, a pattern matches its own text only.
use wavefront_collector_for.Prelude.{
  ℕ, ◌%◌, ◌^◌, ◌+◌, List, [], ◌∷◌, Option, none, some, Bool, true, false, ◌&&◌, ◌≡◌, ◌↔◌, ◌⊎◌, refl,
  ◌==◌, eq_iff, is_some, eqb, arith, if◌then◌else◌,
}
use wavefront_collector_for.Prelude.Maps.{lookup}
use wavefront_collector_for.Discovery.Resources.{Resource, PluginConfig, resource_name, type_string}
use wavefront_collector_for.Discovery.Selection.{ResourceFilter, matches}
use wavefront_collector_for.Discovery.Selection.Selected.{Selects, matches-Selects}
use wavefront_collector_for.Discovery.Endpoints.{Endpoint, Factory, EndpointHandler}
use wavefront_collector_for.Discovery.Creation.{
  Encoder, EndpointCreator, annotated, discover_endpoints,
}
use wavefront_collector_for.Discovery.Creation.Made.{
  In, OfRule, OfAnnotations, In-discover_endpoints,
}
use wavefront_collector_for.Discovery.Discoverer.{Discoverer, DeepEqual, dequeue, listed}
use wavefront_collector_for.Discovery.Discoverer.Latest.{name_of, non_empty, lookup-dequeue}
use wavefront_collector_for.Discovery.Discoverer.Held.{Balanced, held}
use wavefront_collector_for.Discovery.Discoverer.Counts.{
  Action, discovered, removed, taken, node_found, run, endpoint_handler, counting, counts-run,
}
use wavefront_collector_for.Discovery.Listeners.{
  Service, service, delete_service_if_valid, service_resource,
}
use wavefront_collector_for.Discovery.Listeners.Deleted.{lookup-delete_service_if_valid}
use wavefront_collector_for.Discovery.Access.{
  Moment, new_auth_checker, can_list_secrets, can_list_secrets_each,
}
use wavefront_collector_for.Discovery.Access.Spaced.{
  Spaced, InOrder, last_answer, Spaced-can_list_secrets,
}

abbrev pub web : Resource
web = record {
  kind = "pod";
  ip = "10.0.0.1";
  meta = record {
    name = "web";
    namespace = "shop";
    labels = ("app", "web") ∷ [];
    annotations = ("prometheus.io/scrape", "true") ∷ [];
  };
  status = "";
  containers = "web:1" ∷ [];
}

abbrev front : Service
front = record {
  meta = record {
    name = "front";
    namespace = "shop";
    labels = [];
    annotations = ("prometheus.io/scrape", "true") ∷ [];
  };
  cluster_ip = "10.1.0.1";
}

abbrev pub web_filter : ResourceFilter
web_filter = record {
  kind = "pod";
  images = some (λ s. s == "web:1");
  namespaces = none;
  labels = some (("app", λ s. s == "web") ∷ []);
}

matches-Selects_example : (matches (some web_filter) web ≡ true) ↔ Selects web_filter web
matches-Selects_example = matches-Selects web_filter web

-- the port is the configuration
abbrev by_ip : Encoder ℕ
by_ip ip kind meta rule =
    if ip == "" then none else some (meta.name, if rule.port == "" then 80 else 9090)

abbrev pub web_rule : PluginConfig
web_rule = record annotated { name = "web"; port = "9090" }

abbrev creator : EndpointCreator ℕ
creator = record {
  delegates = ("web", record { filter = web_filter; plugin = web_rule }) ∷ [];
  providers = ("prometheus", by_ip) ∷ [];
  disable_annotation_discovery = false;
  annotation_excludes = [];
}

abbrev web_endpoint : Endpoint ℕ
web_endpoint = record { name = "web"; plugin_type = "prometheus"; config = 9090 }

In-discover_endpoints_example :
    In web_endpoint (discover_endpoints creator web)
    ↔ (OfRule creator web web_endpoint creator.delegates ⊎ OfAnnotations creator web web_endpoint)
In-discover_endpoints_example = In-discover_endpoints creator web web_endpoint

abbrev same_endpoint : Endpoint ℕ → Endpoint ℕ → Bool
same_endpoint a b = a.name == b.name && (a.plugin_type == b.plugin_type && eqb a.config b.config)

abbrev same_endpoints : DeepEqual ℕ
same_endpoints [] [] = true
same_endpoints [] (b ∷ bs) = false
same_endpoints (a ∷ more) [] = false
same_endpoints (a ∷ more) (b ∷ bs) = same_endpoint a b && same_endpoints more bs

same_endpoint_lem : (a b : Endpoint ℕ) → same_endpoint a b ≡ true → a ≡ b
same_endpoint_lem a b h =
    ground (arith, h, eq_iff a.name b.name, eq_iff a.plugin_type b.plugin_type)

same_endpoints_lem : (a b : List (Endpoint ℕ)) → same_endpoints a b ≡ true → a ≡ b
same_endpoints_lem [] [] h = refl
same_endpoints_lem [] (b ∷ bs) h = cc
same_endpoints_lem (a ∷ more) [] h = cc
same_endpoints_lem (a ∷ more) (b ∷ bs) h =
    ground (arith, h, same_endpoint_lem a b, same_endpoints_lem more bs)

abbrev prometheus_factory : Factory ℕ
prometheus_factory = record { name = "prometheus_provider"; build = λ port. some "web" }

abbrev handler : EndpointHandler ℕ
handler = record {
  providers = ("prometheus", prometheus_factory) ∷ [];
  counts = ("prometheus", 0) ∷ [];
  calls = [];
}

abbrev idle : Discoverer ℕ (EndpointHandler ℕ)
idle = record { queue = []; endpoints = []; handled = handler }

builds : (port : ℕ) → is_some (prometheus_factory.build port) ≡ true
builds port = refl

Balanced-idle : Balanced (endpoint_handler ℕ) (counting "prometheus" prometheus_factory builds) idle
unfolding lookup
Balanced-idle = record { distinct = tt; shown = (refl, refl) }

abbrev actions : List Action
actions =
    discovered web
    ∷ taken
    ∷ node_found (listed (some "10.0.0.9" ∷ [])) "node-1" annotated
    ∷ discovered (service_resource front)
    ∷ taken
    ∷ removed web
    ∷ taken
    ∷ []

counts-run_example :
    let d = run (endpoint_handler ℕ) same_endpoints creator actions idle in
    lookup "prometheus" d.handled.counts
    ≡ some (
        held (endpoint_handler ℕ) (counting "prometheus" prometheus_factory builds) d.endpoints
        % 2 ^ 64)
counts-run_example =
    counts-run "prometheus" prometheus_factory builds same_endpoints creator same_endpoints_lem
      actions idle Balanced-idle

other_name : (name_of (service_resource front) == name_of web) ≡ false
unfolding resource_name type_string
other_name = refl

lookup-dequeue_example :
    lookup
      (name_of web)
      (dequeue (endpoint_handler ℕ) same_endpoints creator (record idle {
        queue = web ∷ record web { status = "delete" } ∷ web ∷ service_resource front ∷ [];
      })).endpoints
    ≡ (if web.status == "delete" then none else non_empty (discover_endpoints creator web))
lookup-dequeue_example =
    lookup-dequeue (endpoint_handler ℕ) same_endpoints creator
      (web ∷ record web { status = "delete" } ∷ []) (service_resource front ∷ []) web _ refl
      (other_name, tt)

lookup-delete_service_if_valid_example :
    lookup
      (name_of (service_resource front))
      (dequeue
        (endpoint_handler ℕ)
        same_endpoints
        creator
        (delete_service_if_valid (service front) idle)).endpoints
    ≡ non_empty (discover_endpoints creator (service_resource front))
lookup-delete_service_if_valid_example =
    lookup-delete_service_if_valid (endpoint_handler ℕ) same_endpoints creator front idle

-- the answers of the API server, ten seconds apart
abbrev at_time : ℕ → Option Bool → Moment
at_time t answer = record {
  now_refresh = t;
  now_checked = t + 1;
  now_report = t + 2;
  now_reported = t + 3;
  allowed = answer;
}

in_order : (t : ℕ) (answer : Option Bool) → InOrder (at_time t answer)
in_order t answer = record { checked_later = omega arith; reported_later = omega arith }

Spaced-can_list_secrets_example :
    let c =
      can_list_secrets_each
        (at_time 1000 (some false) ∷ at_time 1010 none ∷ at_time 1020 (some true) ∷ [])
        (new_auth_checker 5 60) in
    let m = at_time 1030 (some false) in
    Spaced 5 60 (can_list_secrets m c).1.log
    × ((can_list_secrets m c).0 ≡ last_answer (can_list_secrets m c).1.log)
Spaced-can_list_secrets_example =
    Spaced-can_list_secrets 5 60
      (at_time 1000 (some false) ∷ at_time 1010 none ∷ at_time 1020 (some true) ∷ [])
      (at_time 1030 (some false)) (omega arith)
      (in_order 1000 _, (in_order 1010 _, (in_order 1020 _, tt))) (in_order 1030 _)
