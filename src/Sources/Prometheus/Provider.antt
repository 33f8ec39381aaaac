-- ===== src/Sources/Prometheus/Provider.antt =====
-- plugins/sources/prometheus/prometheus.go: the provider and the sources that it builds. Go's net/url and
-- the client of internal/httputil, which reads certificates, are parameters, as are the name of the node
-- and the value of omitBucketSuffix in the environment. The registry of internal counters is left out.
use Prim.Native.String.{◌++◌}
use wavefront_collector_for.Prelude.{
  String, List, [], ◌∷◌, Option, Bool, true, not, ◌==◌, ◌&&◌, ◌||◌, if◌then◌else◌,
}
use wavefront_collector_for.Prelude.Text.{contains}
use wavefront_collector_for.Prelude.Maps.{Map, insert, copy_into}
use wavefront_collector_for.Prelude.Result.{Result, ok, err, ◌>>=◌}
use wavefront_collector_for.Filter.{GlobFilter, GlobCompiler}
use wavefront_collector_for.Filter.Config.{from_config}
use wavefront_collector_for.Discovery.Prometheus.{PrometheusSourceConfig}
use wavefront_collector_for.Sources.Prometheus.Instances.{Instance}

-- the configuration of a client, with that of its TLS
pub record ClientConfig : Type 0 where
  pub bearer_token : String
  pub bearer_token_file : String
  pub proxy_url : String
  pub ca_file : String
  pub cert_file : String
  pub key_file : String
  pub server_name : String
  pub insecure_skip_verify : Bool

pub record MetricsSource (C : Type 0) : Type 0 where
  pub metrics_url : String
  pub prefix : String
  pub source : String
  pub tags : Map String
  pub filters : Option GlobFilter
  pub client : C
  -- the tags of the internal counters
  pub internal_tags : Map String
  pub auto_discovered : Bool
  pub omit_bucket_suffix : Bool

abbrev pub is_target_tag : String → Bool
is_target_tag k =
    k == "pod" || (k == "service" || (k == "apiserver" || (k == "namespace" || k == "node")))

unfoldable pub target_tags : Map String → Map String → Map String
target_tags [] result = result
target_tags ((k, v) ∷ tags) result =
    target_tags tags (if is_target_tag k then insert k v result else result)

unfoldable pub extract_tags : Map String → String → String → Map String
unfolding target_tags
extract_tags tags discovered metrics_url =
    let result = target_tags tags [] in
    insert "type" "prometheus" (
      if not (discovered == "")
      then insert "discovered" discovered result
      else insert "url" metrics_url (insert "discovered" "static" result))

-- the default for the API server
unfoldable pub client_config : String → ClientConfig → ClientConfig
unfolding contains
client_config metrics_url cfg =
    if contains "kubernetes.default.svc.cluster.local" metrics_url && cfg.ca_file == ""
    then record cfg {
      ca_file = "/var/run/secrets/kubernetes.io/serviceaccount/ca.crt";
      insecure_skip_verify = true;
    }
    else cfg

-- GetStringValue
abbrev pub get_string_value : String → String → String
get_string_value value default_value = if not (value == "") then value else default_value

-- what the provider takes from elsewhere
pub record Outside (C U : Type 0) : Type 0 where
  pub new_client : ClientConfig → Result String C
  pub omit_bucket_suffix : Bool
  pub node_name : String
  pub parse_request_uri : String → Result String U
  pub host : U → String
  -- the text of the URL with another host
  pub at_host : String → U → String
  pub glob_compile : GlobCompiler

abbrev pub SourceBuilder : Type 0 → Type 0
SourceBuilder C = String → Map String → Result String (MetricsSource C)

pub record Provider (C U : Type 0) : Type 0 where
  pub name : String
  pub use_leader_election : Bool
  pub url : U
  pub lookup_instances : String → Result String (List Instance)
  pub build_source : SourceBuilder C

module _ {C U : Type 0} (o : Outside C U) where
  unfoldable pub new_source :
      String
      → String
      → String
      → String
      → Map String
      → Option GlobFilter
      → ClientConfig
      → Result String (MetricsSource C)
  unfolding client_config extract_tags
  new_source metrics_url prefix source discovered tags filters cfg =
      o.new_client (client_config metrics_url cfg) >>= λ client. ok (record {
        metrics_url = metrics_url;
        prefix = prefix;
        source = source;
        tags = tags;
        filters = filters;
        client = client;
        internal_tags = extract_tags tags discovered metrics_url;
        auto_discovered = not (discovered == "");
        omit_bucket_suffix = o.omit_bucket_suffix;
      })

  -- the closure of a provider
  unfoldable pub build_source : PrometheusSourceConfig ClientConfig → SourceBuilder C
  unfolding new_source from_config copy_into
  build_source cfg url tags =
      new_source url cfg.prefix
        (get_string_value (get_string_value cfg.source o.node_name) "prom_source")
        (get_string_value cfg.discovered "") (copy_into tags (copy_into cfg.tags []))
        (from_config o.glob_compile cfg.filters) cfg.http_client_config

  abbrev pub provider_name : String → String → String
  provider_name name url =
      "prometheus_metrics_provider: " ++ (if not (name == "") then name else url)

  unfoldable pub new_provider :
      PrometheusSourceConfig ClientConfig
      → (String → Result String (List Instance))
      → Result String (Provider C U)
  unfolding build_source
  new_provider cfg lookup_instances = o.parse_request_uri cfg.url >>= λ url. ok (record {
    name = provider_name cfg.name cfg.url;
    use_leader_election = cfg.use_leader_election || get_string_value cfg.discovered "" == "";
    url = url;
    lookup_instances = lookup_instances;
    build_source = build_source cfg;
  })

  abbrev pub onto_sources :
      Result String (MetricsSource C) → List (MetricsSource C) → List (MetricsSource C)
  onto_sources (ok source) sources = source ∷ sources
  onto_sources (err e) sources = sources

  -- the loop over the instances
  unfoldable pub sources_of : Provider C U → List Instance → List (MetricsSource C)
  sources_of p [] = []
  sources_of p (i ∷ instances) =
      onto_sources (p.build_source (o.at_host i.host p.url) i.tags) (sources_of p instances)

  abbrev pub sources_found : Provider C U → Result String (List Instance) → List (MetricsSource C)
  sources_found p (ok instances) = sources_of p instances
  sources_found p (err e) = []

  -- GetMetricsSources, on a node that leads or not
  unfoldable pub get_metrics_sources : Bool → Provider C U → List (MetricsSource C)
  unfolding sources_of
  get_metrics_sources leading p =
      if p.use_leader_election && not leading
      then []
      else sources_found p (p.lookup_instances (o.host p.url))
