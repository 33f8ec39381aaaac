-- ===== src/Examples/Encoded.antt =====
-- Prometheus sources and runtime rules at concrete inputs.
use wavefront_collector_for.Prelude.{
  ℕ, ◌+◌, String, List, [], ◌∷◌, Option, none, some, Bool, true, false, ◌&&◌, ◌≡◌, refl, ◌==◌,
  eq_refl, length, ◌≤◌, and_then, arith, if◌then◌else◌,
}
use wavefront_collector_for.Prelude.Maps.{Map, lookup, insert}
use wavefront_collector_for.Discovery.Resources.{Resource, resource_name, type_string}
use wavefront_collector_for.Filter.Query.{no_config}
use wavefront_collector_for.Filter.{matches_all_tags}
use wavefront_collector_for.Discovery.Selection.{matches}
use wavefront_collector_for.Discovery.Endpoints.{Endpoint}
use wavefront_collector_for.Discovery.Creation.{
  EndpointCreator, discover_endpoints, discover_endpoints_with_rules, of_delegates, make_endpoint,
}
use wavefront_collector_for.Discovery.Creation.Made.{In, OfRule}
use wavefront_collector_for.Discovery.Prometheus.{
  Outside, PrometheusSourceConfig, encode, param, annotation,
}
use wavefront_collector_for.Discovery.Prometheus.Scraped.{scrape, OfRule-discover_endpoints}
use wavefront_collector_for.Prelude.Sort.{sort_by}
use wavefront_collector_for.Discovery.Runtime.{
  ConfigHandler, contents, config, appended, updated, notifies,
}
use wavefront_collector_for.Discovery.Runtime.Combined.{concat, changed, notifies-changed}
use wavefront_collector_for.Examples.Discovered.{web, web_filter, web_rule}

-- durations are numbers of one digit, and no YAML is read
abbrev outside : Outside ℕ
outside = record {
  node_name = "node-1";
  parse_duration = λ s. if s == "0s" then some 0 else none;
  duration_string = λ n. "0s";
  parse_bool = λ s. s == "true";
  from_yaml = λ s. none;
  client_config = λ insecure server_name. if insecure then 1 else 0;
}

abbrev quiet : Resource
quiet = record web { meta = record web.meta { annotations = [] } }

abbrev prometheus_creator : EndpointCreator (PrometheusSourceConfig ℕ)
prometheus_creator = record {
  delegates = ("web", record { filter = web_filter; plugin = web_rule }) ∷ [];
  providers = ("prometheus", encode outside "") ∷ [];
  disable_annotation_discovery = false;
  annotation_excludes = [];
}

abbrev quiet_endpoint : Endpoint (PrometheusSourceConfig ℕ)
quiet_endpoint = record {
  name = "shop-pod-web:9090/metrics";
  plugin_type = "prometheus";
  config = record {
    url = "http://10.0.0.1:9090/metrics";
    name = "shop-pod-web:9090/metrics";
    source = "node-1";
    prefix = "";
    tags = ("pod", "web") ∷ ("namespace", "shop") ∷ ("label.app", "web") ∷ [];
    filters = no_config;
    discovered = "rule";
    use_leader_election = false;
    interval = 0;
    timeout = 0;
    http_client_config = 1;
  };
}

found_quiet : discover_endpoints prometheus_creator quiet ≡ quiet_endpoint ∷ []
unfolding discover_endpoints discover_endpoints_with_rules of_delegates matches matches_all_tags
    lookup make_endpoint encode and_then param annotation resource_name insert type_string
found_quiet = refl

In-quiet : In quiet_endpoint (discover_endpoints prometheus_creator quiet)
In-quiet = rw found_quiet (In.here refl)

by_encoder : lookup "prometheus" prometheus_creator.providers ≡ some (encode outside "")
unfolding lookup
by_encoder = refl

not_asked : (scrape outside "" quiet == "true") ≡ false
unfolding param annotation lookup
not_asked = refl

-- the rule for the pod is enough, though the pod has no annotation
OfRule-discover_endpoints_example :
    OfRule prometheus_creator quiet quiet_endpoint prometheus_creator.delegates
OfRule-discover_endpoints_example =
    OfRule-discover_endpoints outside "" prometheus_creator quiet quiet_endpoint by_encoder
      not_asked In-quiet

-- a text is a rule; the array of the one wired rule has room for two more
abbrev rule_text : String → Option (List String)
rule_text text = some (text ∷ [])

abbrev rules : ConfigHandler String
rules = record {
  wired = 1;
  cells = "wired" ∷ "" ∷ "" ∷ [];
  runtime_cfgs = ("redis", "redis-1" ∷ []) ∷ [];
}

abbrev same_texts : List String → List String → Bool
same_texts [] [] = true
same_texts [] (b ∷ bs) = false
same_texts (a ∷ more) [] = false
same_texts (a ∷ more) (b ∷ bs) = a == b && same_texts more bs

same_texts_lem : (x : List String) → same_texts x x ≡ true
same_texts_lem [] = refl
same_texts_lem (a ∷ more) = ground (arith, eq_refl a, same_texts_lem more)

abbrev runtime : Map String
runtime = ("wavefront.com/discovery-config", "true") ∷ []

room : rules.wired + length (concat (appended none rules)) ≤ length rules.cells
unfolding appended sort_by
room = omega arith

-- redis-2 replaces redis-1
as_many :
    length (
      concat
        (appended none (changed rule_text none "redis" runtime (("rules", "redis-2") ∷ []) rules)))
    ≡ length (concat (appended none rules))
unfolding appended updated lookup and_then insert config sort_by
as_many = refl

notifies-changed_example :
    let (old, before) = config none rules in
    let (new, after) =
      config none (changed rule_text none "redis" runtime (("rules", "redis-2") ∷ []) rules) in
    notifies same_texts (contents old after.cells) (contents new after.cells) ≡ false
notifies-changed_example =
    notifies-changed same_texts rule_text none "redis" runtime (("rules", "redis-2") ∷ []) rules
      same_texts_lem (omega arith) room as_many
