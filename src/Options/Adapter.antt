-- ===== src/Options/Adapter.antt =====
-- internal/options/adapter.go: a configuration from the deprecated flags. `fatal` is log.Fatalf, `panic` the
-- use of a nil pointer.
pub mod Prefixes
use Prim.Native.String.{◌++◌}
use wavefront_collector_for.Prelude.{
  ℕ, String, List, [], ◌∷◌, Option, none, some, Bool, true, false, not, ◌==◌, eqb, or_else,
  if◌then◌else◌,
}
use mathlib.Core.List.{◌++◌ as ◌++ₗ◌}
use wavefront_collector_for.Prelude.Text.{split}
use wavefront_collector_for.Prelude.Maps.{Map, lookup}
use wavefront_collector_for.Filter.Config.{Config as FilterConfig}
use wavefront_collector_for.Filter.Query.{from_query}
use wavefront_collector_for.Discovery.Resources.{PluginConfig}
use wavefront_collector_for.Discovery.Configs.{DiscoveryConfig, convert_prom_to_plugin}
use wavefront_collector_for.Options.{
  AgentType, scrape_cluster, Values, UrlLibrary, Uri, decode_value, decode_boolean, decode_tags,
}
use wavefront_collector_for.Options.Settings.{
  Transforms, SummarySource, PrometheusSource, TelegrafSource, SystemdSource, SourceConfig,
  no_sources, WavefrontSink, Discovery, Config, Options,
}

pub data Outcome (A : Type 0) : Type 0 where
  done : A → Outcome A
  error : String → Outcome A
  fatal : String → Outcome A
  panic : Outcome A

infixl 5 ◌>>=◌
abbrev pub ◌>>=◌ : {A B : Type 0} → Outcome A → (A → Outcome B) → Outcome B
done a >>= f = f a
error e >>= f = error e
fatal e >>= f = fatal e
panic >>= f = panic

unfoldable pub get_transforms : Values → Transforms
unfolding decode_value decode_tags from_query
get_transforms vals = record {
  prefix = decode_value vals "prefix";
  source = decode_value vals "source";
  tags = decode_tags vals;
  filters = from_query vals;
}

module _ {U : Type 0} (lib : UrlLibrary U) (parse_bool : String → Option Bool) where
  unfoldable pub add_summary_source : Uri U → SourceConfig → SourceConfig
  unfolding get_transforms
  add_summary_source uri sources =
      let vals = lib.query uri.val in
      record sources {
        summary_config = some (record {
          url =
              if lib.scheme uri.val == ""
              then ""
              else lib.scheme uri.val ++ "://" ++ lib.host uri.val ++ lib.path uri.val;
          kubelet_port = decode_value vals "kubeletPort";
          kubelet_https = decode_value vals "kubeletHttps";
          in_cluster_config = decode_value vals "inClusterConfig";
          use_service_account = decode_value vals "useServiceAccount";
          insecure = decode_value vals "insecure";
          auth = decode_value vals "auth";
          transforms = get_transforms vals;
        });
      }

  unfoldable pub add_state_source : Uri U → SourceConfig → SourceConfig
  unfolding get_transforms
  add_state_source uri sources = record sources {
    state_config = some (get_transforms (lib.query uri.val));
  }

  unfoldable pub add_prometheus_source : Uri U → SourceConfig → SourceConfig
  unfolding get_transforms
  add_prometheus_source uri sources =
      let vals = lib.query uri.val in
      record sources {
        prometheus_configs =
            sources.prometheus_configs
            ++ₗ (record { url = decode_value vals "url"; transforms = get_transforms vals } ∷ []);
      }

  unfoldable pub add_cadvisor_source : Uri U → SourceConfig → SourceConfig
  unfolding get_transforms
  add_cadvisor_source uri sources = record sources {
    cadvisor_config = some (get_transforms (lib.query uri.val));
  }

  unfoldable pub add_telegraf_source : Uri U → SourceConfig → SourceConfig
  unfolding get_transforms
  add_telegraf_source uri sources =
      let vals = lib.query uri.val in
      let plugins = decode_value vals "plugins" in
      record sources {
        telegraf_configs =
            sources.telegraf_configs
            ++ₗ (record {
              plugins = if plugins == "" then [] else split b',' plugins;
              transforms = get_transforms vals;
            }
                ∷ []);
      }

  unfoldable pub add_systemd_source : Uri U → SourceConfig → SourceConfig
  unfolding get_transforms decode_boolean
  add_systemd_source uri sources =
      let vals = lib.query uri.val in
      record sources {
        systemd_config = some (record {
          include_task_metrics = decode_boolean parse_bool vals "taskMetrics";
          include_restart_metrics = decode_boolean parse_bool vals "restartMetrics";
          include_start_time_metrics = decode_boolean parse_bool vals "startTimeMetrics";
          unit_allow_list = or_else (lookup "unitWhitelist" vals) [];
          unit_deny_list = or_else (lookup "unitBlacklist" vals) [];
          transforms = get_transforms vals;
        });
      }

  -- the handler of a key, unless it is invalid
  unfoldable pub source_of : String → Option (Uri U → SourceConfig → SourceConfig)
  unfolding add_summary_source add_state_source add_prometheus_source add_cadvisor_source
      add_telegraf_source add_systemd_source
  source_of key =
      if key == "kubernetes.summary_api"
      then some add_summary_source
      else if key == "kubernetes.state"
      then some add_state_source
      else if key == "prometheus"
      then some add_prometheus_source
      else if key == "kubernetes.cadvisor"
      then some add_cadvisor_source
      else if key == "telegraf"
      then some add_telegraf_source
      else if key == "systemd"
      then some add_systemd_source
      else none

  -- the loop returns at the first invalid key
  unfoldable pub add_sources : List (Uri U) → SourceConfig → SourceConfig
  unfolding source_of
  add_sources [] sources = sources
  add_sources (src ∷ more) sources = elim (source_of src.key) [
    | none ↦ sources
    | some add ↦ add_sources more (add src sources)
  ]

  unfoldable pub wavefront_sink : Uri U → WavefrontSink
  unfolding get_transforms
  wavefront_sink uri =
      let vals = lib.query uri.val in
      record {
        server = decode_value vals "server";
        token = decode_value vals "token";
        proxy_address = decode_value vals "proxyAddress";
        cluster_name = decode_value vals "clusterName";
        transforms = get_transforms vals;
      }

  -- the loop returns at the first key that is not `wavefront`
  unfoldable pub add_sinks : List (Uri U) → List WavefrontSink → List WavefrontSink
  unfolding wavefront_sink
  add_sinks [] sinks = sinks
  add_sinks (sink ∷ more) sinks =
      let rest = add_sinks more (sinks ++ₗ (wavefront_sink sink ∷ [])) in
      if sink.key == "wavefront" then rest else sinks

  abbrev with_prefix : String → Option SummarySource → Outcome SummarySource
  with_prefix prefix none = panic
  with_prefix prefix (some summary) =
      done (record summary { transforms = record summary.transforms { prefix = prefix } })

  abbrev prefixed : WavefrontSink → List WavefrontSink → SourceConfig → Outcome SourceConfig
  prefixed sink others sources =
      with_prefix sink.transforms.prefix sources.summary_config >>= λ summary.
      done (record sources { summary_config = some summary })

  abbrev extract : List WavefrontSink → Config → Outcome Config
  extract [] cfg = fatal "no sink configured"
  extract (sink ∷ others) cfg =
      if not (sink.transforms.prefix == "")
      then (prefixed sink others cfg.sources >>= λ sources. done (record cfg {
        sources = sources;
        sinks = record sink { transforms = record sink.transforms { prefix = "" } } ∷ others;
        cluster_name = sink.cluster_name;
      }))
      else done (record cfg { cluster_name = sink.cluster_name })

  unfoldable pub extract_sink_properties : Config → Outcome Config
  extract_sink_properties cfg = extract cfg.sinks cfg

  -- discovery.FromFile is a parameter: it reads a file
  module _ (from_file : String → Option DiscoveryConfig) where
    abbrev loaded : Option DiscoveryConfig → Outcome (List PluginConfig)
    loaded none = fatal "error loading discovery configuration"
    loaded (some cfg) = done (convert_prom_to_plugin cfg).plugin_configs

    abbrev load_discovery_file : String → Outcome (List PluginConfig)
    load_discovery_file file = if file == "" then done [] else loaded (from_file file)

    abbrev with_discovery : Options U → Config → Outcome Config
    with_discovery opts cfg =
        if opts.enable_discovery
        then (load_discovery_file opts.discovery_config_file >>= λ plugins. done (record cfg {
          discovery_config = record {
            enable_runtime_plugins = opts.enable_runtime_configs;
            discovery_interval = 300000000000;
            plugin_configs = plugins;
          };
        }))
        else done cfg

    -- the configuration before the properties of the sink are taken out
    unfoldable pub converted : Options U → Config
    unfolding add_sources add_sinks scrape_cluster
    converted opts = record {
      default_collection_interval = opts.metric_resolution;
      flush_interval = opts.metric_resolution;
      sink_export_data_timeout = opts.sink_export_data_timeout;
      enable_discovery = opts.enable_discovery;
      scrape_cluster = scrape_cluster opts.agent_type;
      cluster_name = "";
      sinks = add_sinks opts.sinks [];
      sources = record (add_sources opts.sources no_sources) {
        stats_config = some opts.internal_stats_prefix;
      };
      discovery_config = record {
        enable_runtime_plugins = false;
        discovery_interval = 0;
        plugin_configs = [];
      };
    }

    abbrev converting : List (Uri U) → List (Uri U) → Options U → Outcome Config
    converting [] sinks o = error "missing sources"
    converting (s ∷ ss) [] o = error "missing sink"
    converting (s ∷ ss) (k ∷ ks) o = extract_sink_properties (converted o) >>= with_discovery o

    -- Convert
    unfoldable pub convert : Options U → Outcome Config
    unfolding converted extract_sink_properties convert_prom_to_plugin
    convert opts = converting opts.sources opts.sinks opts
