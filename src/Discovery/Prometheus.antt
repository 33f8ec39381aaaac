-- ===== src/Discovery/Prometheus.antt =====
-- plugins/discovery/prometheus/encoder.go with internal/discovery/utils/encoding.go: the configuration
-- of a Prometheus source from a resource's metadata and a rule. Go's parsers of durations and truth
-- values, the printer of durations and the YAML reader are parameters, as are the collector's own node
-- name and the type of an HTTP client's configuration. What is returned beside `false` is not kept: the
-- endpoint creator drops it.
pub mod Scraped
use Prim.Native.String.{◌++◌}
use wavefront_collector_for.Prelude.{
  ℕ, String, List, [], ◌∷◌, Option, none, some, Bool, true, false, not, ◌&&◌, ◌||◌, ◌==◌, or_else,
  and_then, if◌then◌else◌,
}
use mathlib.Core.Option
use wavefront_collector_for.Prelude.Text.{contains}
use wavefront_collector_for.Prelude.Maps.{Map, lookup, insert}
use wavefront_collector_for.Filter.Config.{Config}
use wavefront_collector_for.Discovery.Resources.{
  Meta, PluginConfig, resource_name, type_string, service_type,
}

pub record PrometheusSourceConfig (H : Type 0) : Type 0 where
  pub url : String
  pub name : String
  pub source : String
  pub prefix : String
  pub tags : Map String
  pub filters : Config
  pub discovered : String
  pub use_leader_election : Bool
  pub interval : ℕ
  pub timeout : ℕ
  pub http_client_config : H

-- what the encoder takes from elsewhere
pub record Outside (H : Type 0) : Type 0 where
  pub node_name : String
  pub parse_duration : String → Option ℕ
  pub duration_string : ℕ → String
  -- false on an error
  pub parse_bool : String → Bool
  pub from_yaml : String → Option H
  -- InsecureSkipVerify and ServerName
  pub client_config : Bool → String → H

abbrev or_default : String → String → String
or_default s d = if s == "" then d else s

unfoldable pub param : Meta → String → String → String → String
param meta annotation cfg_val default_val =
    let value =
      if not (annotation == "") then or_else (lookup annotation meta.annotations) "" else "" in
    or_default (or_default value cfg_val) default_val

unfoldable pub encode_tags : Map String → String → Map String → Map String
encode_tags dest prefix [] = dest
encode_tags dest prefix ((k, v) ∷ tags) =
    encode_tags
      (if not (k == "pod-template-hash") && not (k == "") && not (v == "")
        then insert (prefix ++ k) v dest
        else dest)
      prefix tags

unfoldable pub encode_meta : Map String → String → Meta → Map String
encode_meta tags kind meta =
    let named = insert kind meta.name tags in
    if not (meta.namespace == "") then insert "namespace" meta.namespace named else named

unfoldable pub sanitize_port : String → String → String
sanitize_port name port = if contains "kube-state-metrics" name && port == "" then "8080" else port

unfoldable pub unique_name : String → String → String → Bool → String
unique_name name port path internal =
    let with_port = if not (port == "") then name ++ ":" ++ port else name in
    let with_path = if not (path == "") then with_port ++ path else with_port in
    if internal then with_path ++ ".internal" else with_path

unfoldable pub base_url : String → String → String → String → String
base_url scheme ip port path =
    scheme ++ "://" ++ ip ++ (if not (port == "") then ":" ++ port else port) ++ path

-- newPrometheusEncoder: the prefix of every annotation, with the text behind it
unfoldable pub annotation : String → String → String
annotation prefix name = or_default prefix "prometheus.io" ++ "/" ++ name

module _ {H : Type 0} (o : Outside H) where
  unfoldable pub encode_http_conf : String → String → String → Option H
  encode_http_conf conf insecure server_name =
      if not (conf == "")
      then o.from_yaml conf
      else some (
          o.client_config
            (if not (insecure == "")
              then o.parse_bool insecure
              else if not (server_name == "")
              then false
              else true)
            server_name)

  module _ (prefix ip kind : String) (meta : Meta) (rule : PluginConfig) where
    abbrev pub annotated_or : String → String → String → String
    annotated_or name cfg_val default_val = param meta (annotation prefix name) cfg_val default_val

    unfoldable pub encoded_interval : Option ℕ
    encoded_interval =
        o.parse_duration (annotated_or "collectionInterval" (o.duration_string rule.interval) "0s")

    unfoldable pub encoded_timeout : Option ℕ
    encoded_timeout =
        o.parse_duration (annotated_or "timeout" (o.duration_string rule.timeout) "0s")

    unfoldable pub encoded_conf : Option H
    unfolding encode_http_conf
    encoded_conf =
        encode_http_conf rule.conf (annotated_or "insecureSkipVerify" "" "")
          (annotated_or "serverName" "" "")

    unfoldable pub encoded_tags : Map String
    unfolding encode_meta encode_tags
    encoded_tags =
        let tags = encode_tags (encode_meta [] kind meta) "" rule.tags in
        if annotated_or "includeLabels" rule.include_labels "true" == "true"
        then encode_tags tags "label." meta.labels
        else tags

    unfoldable pub encoded_name : String
    unfolding unique_name sanitize_port
    encoded_name =
        unique_name (resource_name kind meta)
          (sanitize_port meta.name (annotated_or "port" rule.port ""))
          (annotated_or "path" rule.path "/metrics") rule.internal

    abbrev config_of : ℕ → ℕ → H → PrometheusSourceConfig H
    config_of interval timeout conf = record {
      url =
          base_url (annotated_or "scheme" rule.scheme "http") ip
            (sanitize_port meta.name (annotated_or "port" rule.port ""))
            (annotated_or "path" rule.path "/metrics");
      name = encoded_name;
      source = or_default (annotated_or "source" rule.source o.node_name) meta.name;
      prefix = annotated_or "prefix" rule.prefix "";
      tags = encoded_tags;
      filters = rule.filters;
      discovered = if not (rule.name == "") then "rule" else "annotation";
      use_leader_election = kind == type_string service_type;
      interval = interval;
      timeout = timeout;
      http_client_config = conf;
    }

    unfoldable pub encode : Option (String × PrometheusSourceConfig H)
    unfolding encoded_interval encoded_timeout encoded_conf encoded_tags encoded_name base_url
    encode =
        if ip == "" || ip == "None"
        then none
        else and_then encoded_interval (λ interval. and_then encoded_timeout (λ timeout.
          if rule.name == "" && not (annotated_or "scrape" "" "false" == "true")
          then none
          else and_then encoded_conf
              (λ conf. some (encoded_name, config_of interval timeout conf))))
