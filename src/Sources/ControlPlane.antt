-- ===== src/Sources/ControlPlane.antt =====
-- plugins/sources/controlplane/provider.go: the metrics of the API server, as two configurations of a
-- Prometheus source. What GetKubeConfigs answers is a parameter. A duration is the 64 bits of an int64.
pub mod Led
use Prim.Native.String.{◌++◌ as ◌++ₛ◌}
use wavefront_collector_for.Prelude.{
  ℕ, ◌+◌, ◌%◌, ◌^◌, String, List, [], ◌∷◌, ◌++◌, Bool, true, false, if◌then◌else◌,
}
use wavefront_collector_for.Prelude.Maps.{Map}
use wavefront_collector_for.Prelude.Result.{Result, ok, err, ◌>>=◌}
use wavefront_collector_for.Filter.Config.{Config}
use wavefront_collector_for.Discovery.Resources.{PluginConfig}
use wavefront_collector_for.Discovery.Prometheus.{PrometheusSourceConfig}
use wavefront_collector_for.Sources.Prometheus.Instances.{Instance}
use wavefront_collector_for.Sources.Prometheus.Provider.{
  ClientConfig, MetricsSource, Outside, Provider, new_provider, get_metrics_sources,
}

-- the part of rest.Config that is read
pub record KubeConfig : Type 0 where
  pub bearer_token_file : String
  pub bearer_token : String
  pub ca_file : String
  pub cert_file : String
  pub key_file : String
  pub server_name : String
  pub insecure : Bool

abbrev pub jitter_time : ℕ
jitter_time = 40000000000

-- the lists of metric names and of tags that are let through
abbrev pub allow : List String → Map (List String) → Config
allow metric_allow_list metric_tag_allow_list = record {
  metric_allow_list = metric_allow_list;
  metric_deny_list = [];
  metric_tag_allow_list = metric_tag_allow_list;
  metric_tag_deny_list = [];
  tag_include = [];
  tag_exclude = [];
  metric_whitelist = [];
  metric_blacklist = [];
  metric_tag_whitelist = [];
  metric_tag_blacklist = [];
}

unfoldable pub create_prometheus_source_config :
    String
    → ClientConfig
    → List String
    → Map (List String)
    → ℕ
    → PrometheusSourceConfig ClientConfig
create_prometheus_source_config name http metrics tags interval = record {
  url = "https://kubernetes.default.svc/metrics";
  name = name;
  source = "control_plane_source";
  prefix = "kubernetes.controlplane.";
  tags = [];
  filters = allow metrics tags;
  discovered = "";
  use_leader_election = true;
  interval = interval;
  timeout = 0;
  http_client_config = http;
}

unfoldable pub http_client_config : KubeConfig → ClientConfig
http_client_config kube = record {
  bearer_token_file = kube.bearer_token_file;
  bearer_token = kube.bearer_token;
  proxy_url = "";
  ca_file = kube.ca_file;
  cert_file = kube.cert_file;
  key_file = kube.key_file;
  server_name = kube.server_name;
  insecure_skip_verify = kube.insecure;
}

abbrev pub metric_allow_list : List String
metric_allow_list =
    "kubernetes.controlplane.etcd.request.duration.seconds.bucket"
    ∷ "kubernetes.controlplane.etcd.request.duration.seconds"
    ∷ "kubernetes.controlplane.etcd.db.total.size.in.bytes.gauge"
    ∷ "kubernetes.controlplane.workqueue.adds.total.counter"
    ∷ "kubernetes.controlplane.workqueue.queue.duration.seconds.bucket"
    ∷ "kubernetes.controlplane.workqueue.queue.duration.seconds" ∷ []

abbrev pub api_server_allow_list : List String
api_server_allow_list =
    "kubernetes.controlplane.apiserver.request.duration.seconds.bucket"
    ∷ "kubernetes.controlplane.apiserver.request.duration.seconds"
    ∷ "kubernetes.controlplane.apiserver.request.total.counter"
    ∷ "kubernetes.controlplane.apiserver.storage.objects.gauge" ∷ []

abbrev pub api_server_tag_allow_list : Map (List String)
api_server_tag_allow_list =
    (
      "resource",
      "customresourcedefinitions" ∷ "namespaces" ∷ "lease" ∷ "nodes" ∷ "pods" ∷ "tokenreviews"
          ∷ "subjectaccessreviews" ∷ [],
    )
    ∷ []

abbrev pub etcd_config : ℕ → KubeConfig → PrometheusSourceConfig ClientConfig
etcd_config interval kube =
    create_prometheus_source_config "etcd-workqueue" (http_client_config kube) metric_allow_list []
      ((interval + jitter_time) % 2 ^ 64)

abbrev pub api_server_config : ℕ → KubeConfig → PrometheusSourceConfig ClientConfig
api_server_config interval kube =
    create_prometheus_source_config "apiserver" (http_client_config kube) api_server_allow_list
      api_server_tag_allow_list interval

-- no configuration where the cluster's cannot be read
unfoldable pub build_prom_configs :
    ℕ → Result String KubeConfig → List (PrometheusSourceConfig ClientConfig)
unfolding create_prometheus_source_config http_client_config
build_prom_configs interval (err e) = []
build_prom_configs interval (ok kube) =
    etcd_config interval kube ∷ api_server_config interval kube ∷ []

-- DiscoveryPluginConfigs, with the provider's interval and timeout
unfoldable pub discovery_plugin_configs : Bool → ℕ → ℕ → List PluginConfig
discovery_plugin_configs scrape_any_nodes interval timeout =
    if scrape_any_nodes
    then (record {
      name = "coredns-discovery-controlplane";
      type = "prometheus";
      selectors = record {
        resource_type = "";
        images = "*coredns:*" ∷ [];
        labels = ("k8s-app", "kube-dns" ∷ []) ∷ [];
        namespaces = [];
      };
      port = "9153";
      scheme = "http";
      path = "/metrics";
      conf = "";
      source = "";
      prefix = "kubernetes.controlplane.";
      tags = [];
      include_labels = "";
      filters =
          allow
            ("kubernetes.controlplane.coredns.dns.request.duration.seconds.bucket"
              ∷ "kubernetes.controlplane.coredns.dns.responses.total.counter" ∷ [])
            [];
      interval = interval;
      timeout = timeout;
      internal = true;
    })
      ∷ []
    else []

abbrev wrap_error {ℓ} : {A : Type ℓ} → Result String A → Result String A
wrap_error (ok a) = ok a
wrap_error (err e) = err ("error building prometheus sources for control plane: " ++ₛ e)

module _ {C U : Type 0} (o : Outside C U) where
  -- the loop of NewProvider
  unfoldable pub append_providers :
      (String → Result String (List Instance))
      → List (Provider C U)
      → List (PrometheusSourceConfig ClientConfig)
      → Result String (List (Provider C U))
  unfolding new_provider
  append_providers lookup providers [] = ok providers
  append_providers lookup providers (cfg ∷ cfgs) = wrap_error (new_provider o cfg lookup) >>= λ p.
      append_providers lookup (providers ++ p ∷ []) cfgs

  unfoldable pub new_control_plane :
      ℕ
      → Result String KubeConfig
      → (String → Result String (List Instance))
      → Result String (List (Provider C U))
  unfolding append_providers build_prom_configs
  new_control_plane interval kube lookup =
      append_providers lookup [] (build_prom_configs interval kube)

  -- GetMetricsSources
  unfoldable pub all_sources : Bool → List (Provider C U) → List (MetricsSource C)
  unfolding get_metrics_sources
  all_sources leading [] = []
  all_sources leading (p ∷ providers) =
      get_metrics_sources o leading p ++ all_sources leading providers
