-- ===== src/Examples/Controlled.antt =====
-- The sources of the control plane, at a service with two addresses.
use Prim.Native.String.{◌++◌ as ◌++ₛ◌}
use wavefront_collector_for.Prelude.{
  ℕ, String, List, [], ◌∷◌, Option, some, none, true, false, ◌≡◌, ◌⊎◌, refl, some_of, eqb,
  if◌then◌else◌,
}
use wavefront_collector_for.Prelude.Result.{Result, ok, err}
use wavefront_collector_for.Sources.Prometheus.Instances.{
  Instance, EndpointSubset, portless, instances_from_endpoints, lookup_endpoints,
}
use wavefront_collector_for.Sources.Prometheus.Instances.Found.{
  lacks_port, Found, Found-instances_from_endpoints,
}
use wavefront_collector_for.Sources.Prometheus.Provider.{Outside, Provider}
use wavefront_collector_for.Sources.ControlPlane.{KubeConfig, new_control_plane, all_sources}
use wavefront_collector_for.Sources.ControlPlane.Led.{AskedFrom, AskedFrom-all_sources}

abbrev show : ℕ → String
show n = if eqb n 443 then "443" else "80"

abbrev api_server : EndpointSubset
api_server = record {
  addresses = "10.0.0.2" ∷ "10.0.0.1" ∷ "10.0.0.2" ∷ [];
  ports = (record { name = "http"; port = 80 }) ∷ (record { name = "https"; port = 443 }) ∷ [];
}

abbrev instance_at : String → Instance
instance_at host = record { host = host; tags = ("instance", host) ∷ [] }

two_instances :
    instances_from_endpoints show (api_server ∷ [])
    ≡ ok (instance_at "10.0.0.1:443" ∷ instance_at "10.0.0.2:443" ∷ [])
unfolding instances_from_endpoints
two_instances = refl

Found-instances_from_endpoints_example :
    ((some_of (lacks_port) (api_server ∷ []) ≡ true)
      × (instances_from_endpoints show (api_server ∷ []) ≡ err portless))
    ⊎ ((some_of (lacks_port) (api_server ∷ []) ≡ false)
        × ((instances : List Instance) × (instances_from_endpoints show (api_server ∷ [])
              ≡ ok instances)
            × Found show (api_server ∷ []) instances))
Found-instances_from_endpoints_example = Found-instances_from_endpoints show (api_server ∷ [])

abbrev net : Outside String String
net = record {
  new_client = λ cfg. ok cfg.ca_file;
  omit_bucket_suffix = false;
  node_name = "node-1";
  parse_request_uri = λ url. ok url;
  host = λ url. "kubernetes.default.svc";
  at_host = λ host url. "https://" ++ₛ host ++ₛ "/metrics";
  glob_compile = λ pattern. none;
}

abbrev match_name : String → Option (String × String)
match_name host = some ("kubernetes", "default")

abbrev get : String → String → Result String (List EndpointSubset)
get namespace name = ok (api_server ∷ [])

abbrev kube : KubeConfig
kube = record {
  bearer_token_file = "token";
  bearer_token = "";
  ca_file = "ca.crt";
  cert_file = "";
  key_file = "";
  server_name = "";
  insecure = false;
}

AskedFrom-all_sources_example :
    (providers : List (Provider String String)) × (new_control_plane net 60000000000
        (ok kube)
        (lookup_endpoints show match_name get)
      ≡ ok providers)
    × (all_sources net false providers ≡ [])
    × AskedFrom net show "https://kubernetes.default.svc/metrics"
        (api_server ∷ [])
        (all_sources net true providers)
AskedFrom-all_sources_example =
    AskedFrom-all_sources net show match_name get 60000000000 kube
      "https://kubernetes.default.svc/metrics" "kubernetes" "default" (api_server ∷ []) refl refl
      refl (λ cfg. (cfg.ca_file, refl))
