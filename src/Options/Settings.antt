-- ===== src/Options/Settings.antt =====
-- The options of internal/options/options.go, and the parts of internal/configuration/config.go that are
-- set from them.
use wavefront_collector_for.Prelude.{ℕ, String, List, [], Option, none, Bool}
use wavefront_collector_for.Prelude.Maps.{Map}
use wavefront_collector_for.Filter.Config.{Config as FilterConfig}
use wavefront_collector_for.Discovery.Resources.{PluginConfig}
use wavefront_collector_for.Options.{AgentType, Uri}

pub record Transforms : Type 0 where
  pub prefix : String
  pub source : String
  pub tags : Map String
  pub filters : FilterConfig

pub record SummarySource : Type 0 where
  pub url : String
  pub kubelet_port : String
  pub kubelet_https : String
  pub in_cluster_config : String
  pub use_service_account : String
  pub insecure : String
  pub auth : String
  pub transforms : Transforms

pub record PrometheusSource : Type 0 where
  pub url : String
  pub transforms : Transforms

pub record TelegrafSource : Type 0 where
  pub plugins : List String
  pub transforms : Transforms

pub record SystemdSource : Type 0 where
  pub include_task_metrics : Bool
  pub include_restart_metrics : Bool
  pub include_start_time_metrics : Bool
  pub unit_allow_list : List String
  pub unit_deny_list : List String
  pub transforms : Transforms

pub record SourceConfig : Type 0 where
  pub summary_config : Option SummarySource
  pub state_config : Option Transforms
  pub prometheus_configs : List PrometheusSource
  pub cadvisor_config : Option Transforms
  pub telegraf_configs : List TelegrafSource
  pub systemd_config : Option SystemdSource
  -- the prefix of the internal statistics
  pub stats_config : Option String

-- `&configuration.SourceConfig{}`
abbrev pub no_sources : SourceConfig
no_sources = record {
  summary_config = none;
  state_config = none;
  prometheus_configs = [];
  cadvisor_config = none;
  telegraf_configs = [];
  systemd_config = none;
  stats_config = none;
}

pub record WavefrontSink : Type 0 where
  pub server : String
  pub token : String
  pub proxy_address : String
  pub cluster_name : String
  pub transforms : Transforms

pub record Discovery : Type 0 where
  pub enable_runtime_plugins : Bool
  pub discovery_interval : ℕ
  pub plugin_configs : List PluginConfig

pub record Config : Type 0 where
  pub default_collection_interval : ℕ
  pub flush_interval : ℕ
  pub sink_export_data_timeout : ℕ
  pub enable_discovery : Bool
  pub scrape_cluster : Bool
  pub cluster_name : String
  pub sinks : List WavefrontSink
  pub sources : SourceConfig
  pub discovery_config : Discovery

pub record Options (U : Type 0) : Type 0 where
  pub agent_type : AgentType
  pub metric_resolution : ℕ
  pub sources : List (Uri U)
  pub sinks : List (Uri U)
  pub sink_export_data_timeout : ℕ
  pub enable_discovery : Bool
  pub enable_runtime_configs : Bool
  pub discovery_config_file : String
  pub internal_stats_prefix : String
