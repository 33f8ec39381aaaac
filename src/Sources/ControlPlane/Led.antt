-- ===== src/Sources/ControlPlane/Led.antt =====
-- Which sources the control plane has: what the endpoints of the API server give, on the leader only.
use wavefront_collector_for.Prelude.{
  ◌⊎◌, ℕ, ◌+◌, append-nil, ◌%◌, ◌^◌, String, List, [], ◌∷◌, ◌++◌, Option, some, true, false, ◌≡◌,
  refl, inl, inr, All, some_of,
}
use wavefront_collector_for.Filter.{GlobFilter}
use wavefront_collector_for.Filter.Config.{from_config}
use wavefront_collector_for.Prelude.Maps.{Map, insert, copy_into}
use wavefront_collector_for.Prelude.Result.{Result, ok}
use wavefront_collector_for.Discovery.Prometheus.{PrometheusSourceConfig}
use wavefront_collector_for.Sources.Prometheus.Instances.{
  Instance, EndpointSubset, instances_from_endpoints, lookup_endpoints,
}
use wavefront_collector_for.Sources.Prometheus.Instances.Found.{
  lacks_port, Found, Found-instances_from_endpoints,
}
use wavefront_collector_for.Sources.Prometheus.Instances.Tagged.{
  IsTagged, IsTagged-instances_from_endpoints,
}
use wavefront_collector_for.Sources.Prometheus.Provider.{
  ClientConfig, extract_tags, MetricsSource, Outside, Provider, client_config, new_source,
  build_source, new_provider, provider_name, sources_of, sources_found, get_metrics_sources,
}
use wavefront_collector_for.Sources.ControlPlane.{
  KubeConfig, allow, http_client_config, metric_allow_list, api_server_allow_list,
  api_server_tag_allow_list, jitter_time, create_prometheus_source_config, etcd_config,
  api_server_config, build_prom_configs, append_providers, new_control_plane, all_sources,
}

-- two lists of one length, whose elements are related in order
abbrev pub Each {ℓ κ} : {A : Type ℓ} {B : Type κ} → (A → B → Type 0) → List A → List B → Type 0
Each R [] [] = Unit
Each R [] (y ∷ ys) = ⊥
Each R (x ∷ xs) [] = ⊥
Each R (x ∷ xs) (y ∷ ys) = R x y × Each R xs ys

module _ {C U : Type 0} (o : Outside C U) where
  -- a source of the control plane that asks an instance, with a filter
  pub record Asks (url : U) (filters : Option GlobFilter) (i : Instance) (s : MetricsSource C)
      : Type 0 where
    pub metrics_url : s.metrics_url ≡ o.at_host i.host url
    pub tags : s.tags ≡ ("instance", i.host) ∷ []
    pub filters_set : s.filters ≡ filters
    pub prefix : s.prefix ≡ "kubernetes.controlplane."
    pub source : s.source ≡ "control_plane_source"
    pub discovered : s.auto_discovered ≡ false

  -- the sources are one for each instance that the endpoints give with the filter for etcd, and then one
  -- for each with that for the API server; none, where a subset of the endpoints lacks a port
  abbrev pub AskedFrom : (ℕ → String) → U → List EndpointSubset → List (MetricsSource C) → Type 0
  AskedFrom show url subsets sources =
      ((some_of lacks_port subsets ≡ true) × (sources ≡ []))
      ⊎ ((some_of lacks_port subsets ≡ false)
          × ((instances : List Instance) × Found show subsets instances
              × ((etcd : List (MetricsSource C)) × (api_server : List (MetricsSource C)) × (sources
                    ≡ etcd ++ api_server)
                  × Each (Asks url (from_config o.glob_compile (allow metric_allow_list [])))
                      instances etcd
                  × Each
                      (Asks url (
                        from_config o.glob_compile
                          (allow api_server_allow_list api_server_tag_allow_list)))
                      instances api_server)))

module _ {C U : Type 0} (o : Outside C U) (show : ℕ → String)
    (match_name : String → Option (String × String))
    (get : String → String → Result String (List EndpointSubset)) where
  -- a provider of a configuration
  abbrev made : U → PrometheusSourceConfig ClientConfig → Provider C U
  made url cfg = record {
    name = provider_name o cfg.name cfg.url;
    use_leader_election = true;
    url = url;
    lookup_instances = lookup_endpoints show match_name get;
    build_source = build_source o cfg;
  }

  module _ (url : U) (subsets : List EndpointSubset) (name : String) (http : ClientConfig)
      (metrics : List String) (tags : Map (List String)) (interval : ℕ) where
    abbrev config : PrometheusSourceConfig ClientConfig
    config = create_prometheus_source_config name http metrics tags interval

    abbrev filters : Option GlobFilter
    filters = from_config o.glob_compile (allow metrics tags)

    Asks-build_source :
        (i : Instance)
        → IsTagged i
        → ((cfg : ClientConfig) → (client : C) × (o.new_client cfg ≡ ok client))
        → (s : MetricsSource C) × (build_source o config (o.at_host i.host url) i.tags ≡ ok s)
          × Asks o url filters i s
    unfolding build_source new_source create_prometheus_source_config copy_into insert
    Asks-build_source i tagged ready =
        let (client, e) = ready (client_config (o.at_host i.host url) http) in
        let s : MetricsSource C = record {
          metrics_url = o.at_host i.host url;
          prefix = "kubernetes.controlplane.";
          source = "control_plane_source";
          tags = copy_into i.tags [];
          filters = filters;
          client = client;
          internal_tags = extract_tags (copy_into i.tags []) "" (o.at_host i.host url);
          auto_discovered = false;
          omit_bucket_suffix = o.omit_bucket_suffix;
        } in
        (
          s,
          rw e refl,
          record {
            metrics_url = refl;
            tags = rw tagged refl;
            filters_set = refl;
            prefix = refl;
            source = refl;
            discovered = refl;
          },
        )

    Each-sources_of :
        (instances : List Instance)
        → All IsTagged instances
        → ((cfg : ClientConfig) → (client : C) × (o.new_client cfg ≡ ok client))
        → Each (Asks o url filters) instances (sources_of o (made url config) instances)
    unfolding sources_of
    Each-sources_of [] a ready = tt
    Each-sources_of (i ∷ instances) (tagged, a) ready =
        let (s, e, asks) = Asks-build_source i tagged ready in
        rw e (asks, Each-sources_of instances a ready)

    get_found :
        (service namespace : String)
        → match_name (o.host url) ≡ some (service, namespace)
        → get namespace service ≡ ok subsets
        → get_metrics_sources o true (made url config)
          ≡ sources_found o (made url config) (instances_from_endpoints show subsets)
    unfolding get_metrics_sources lookup_endpoints
    get_found service namespace named answered = rw (named, answered) refl

  -- Where the URL of the API server can be read, and the endpoints of its service, and clients can be made,
  -- the control plane has no source on a node that does not lead. The leader has, for each instance that
  -- the endpoints give, in order, one source with the filter for etcd, and then for each one with that for
  -- the API server: it asks the host of that instance, is tagged with that host alone, and has the control
  -- plane's prefix and name. It has none where a subset of the endpoints has neither port.
  pub AskedFrom-all_sources :
      (interval : ℕ) (kube : KubeConfig) (url : U) (service namespace : String)
      (subsets : List EndpointSubset)
      → o.parse_request_uri "https://kubernetes.default.svc/metrics" ≡ ok url
      → match_name (o.host url) ≡ some (service, namespace)
      → get namespace service ≡ ok subsets
      → ((cfg : ClientConfig) → (client : C) × (o.new_client cfg ≡ ok client))
      → (providers : List (Provider C U)) × (new_control_plane o interval
            (ok kube)
            (lookup_endpoints show match_name get)
          ≡ ok providers)
        × (all_sources o false providers ≡ [])
        × AskedFrom o show url subsets (all_sources o true providers)
  unfolding new_control_plane append_providers build_prom_configs new_provider all_sources
      get_metrics_sources create_prometheus_source_config http_client_config
  AskedFrom-all_sources interval kube url service namespace subsets parsed named answered ready = (
    made url (etcd_config interval kube) ∷ made url (api_server_config interval kube) ∷ [],
    rw parsed refl,
    refl,
    rw
        (
          append-nil (get_metrics_sources o true (made url (api_server_config interval kube))),
          get_found url subsets "etcd-workqueue" (http_client_config kube) metric_allow_list []
              ((interval + jitter_time) % 2 ^ 64) service namespace named answered,
          get_found url subsets "apiserver" (http_client_config kube) api_server_allow_list
              api_server_tag_allow_list interval service namespace named answered,
        )
        (elim (Found-instances_from_endpoints show subsets) [
          | inl (lacking, e) ↦ inl (lacking, rw e refl)
          | inr (served, (instances, e, known)) ↦
              let tagged = IsTagged-instances_from_endpoints show subsets instances e in
              inr (
                served,
                (
                  instances,
                  known,
                  (
                    sources_of o (made url (etcd_config interval kube)) instances,
                    sources_of o (made url (api_server_config interval kube)) instances,
                    rw e refl,
                    Each-sources_of url subsets "etcd-workqueue" (http_client_config kube)
                        metric_allow_list [] ((interval + jitter_time) % 2 ^ 64) instances tagged
                        ready,
                    Each-sources_of url subsets "apiserver" (http_client_config kube)
                        api_server_allow_list api_server_tag_allow_list interval instances tagged
                        ready,
                  ),
                ),
              )
        ]),
  )
