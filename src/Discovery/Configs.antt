-- ===== src/Discovery/Configs.antt =====
-- internal/discovery/configs.go, ConvertPromToPlugin of helper.go, and what newDiscoverer makes of a
-- configuration. The intervals of discovery itself and the deprecated global part are left out.
use wavefront_collector_for.Prelude.{
  String, List, [], ◌∷◌, ◌++◌, Bool, false, ◌==◌, map, if◌then◌else◌,
}
use wavefront_collector_for.Prelude.Maps.{Map}
use wavefront_collector_for.Filter.{GlobCompiler}
use wavefront_collector_for.Filter.Config
use wavefront_collector_for.Discovery.Resources.{Selectors, PluginConfig}
use wavefront_collector_for.Discovery.Creation.{
  Encoder, EndpointCreator, make_delegates, make_annotation_exclusions,
}

pub record PrometheusConfig : Type 0 where
  pub name : String
  pub resource_type : String
  pub labels : Map String
  pub namespace : String
  pub port : String
  pub path : String
  pub scheme : String
  pub prefix : String
  pub tags : Map String
  pub source : String
  pub include_labels : String
  pub filters : Config.Config

pub record DiscoveryConfig : Type 0 where
  pub annotation_prefix : String
  pub annotation_excludes : List Selectors
  pub disable_annotation_discovery : Bool
  pub plugin_configs : List PluginConfig
  pub prom_configs : List PrometheusConfig

abbrev label_lists : Map String → Map (List String)
label_lists [] = []
label_lists ((k, v) ∷ labels) = (k, v ∷ []) ∷ label_lists labels

unfoldable pub plugin_of : PrometheusConfig → PluginConfig
plugin_of prom = record {
  name = prom.name;
  type = "prometheus";
  selectors = record {
    resource_type = prom.resource_type;
    images = [];
    labels = label_lists prom.labels;
    namespaces = if prom.namespace == "" then [] else prom.namespace ∷ [];
  };
  port = prom.port;
  scheme = prom.scheme;
  path = prom.path;
  conf = "";
  source = prom.source;
  prefix = prom.prefix;
  tags = prom.tags;
  include_labels = prom.include_labels;
  filters = prom.filters;
  interval = 0;
  timeout = 0;
  internal = false;
}

unfoldable pub convert_prom_to_plugin : DiscoveryConfig → DiscoveryConfig
unfolding plugin_of
convert_prom_to_plugin cfg = record cfg {
  plugin_configs = cfg.plugin_configs ++ map plugin_of cfg.prom_configs;
}

-- the providers' encoders are given: Prometheus' from the annotation prefix, and Telegraf's
unfoldable pub new_endpoint_creator :
    {C : Type 0}
    → GlobCompiler
    → (String → Bool)
    → (String → Encoder C)
    → Encoder C
    → DiscoveryConfig
    → EndpointCreator C
new_endpoint_creator glob_compile parse_port prometheus telegraf cfg = record {
  delegates = make_delegates glob_compile parse_port cfg.plugin_configs;
  providers = ("prometheus", prometheus cfg.annotation_prefix) ∷ ("telegraf", telegraf) ∷ [];
  disable_annotation_discovery = cfg.disable_annotation_discovery;
  annotation_excludes = make_annotation_exclusions glob_compile cfg.annotation_excludes;
}
