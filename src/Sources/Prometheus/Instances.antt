-- ===== src/Sources/Prometheus/Instances.antt =====
-- plugins/sources/prometheus/lookup_instances.go: the instances behind a host. `show` is fmt's %d of a
-- port. A port is the 32 bits of an int32, so that -1 is `no_port`; the regular expression for the name of
-- a service and the answer of the API server are parameters.
pub mod Found
pub mod Tagged
use Prim.Native.String.{◌++◌}
use mathlib.Core.List.{◌++◌ as ◌++ₗ◌}
use wavefront_collector_for.Prelude.{
  ℕ, String, List, [], ◌∷◌, Option, none, some, Bool, true, false, not, ◌==◌, eqb, if◌then◌else◌,
}
use wavefront_collector_for.Prelude.Sort.{sort_by, string_less}
use wavefront_collector_for.Prelude.Maps.{Map}
use wavefront_collector_for.Prelude.Result.{Result, ok, err, ◌>>=◌}

pub record Instance : Type 0 where
  pub host : String
  pub tags : Map String

pub record EndpointPort : Type 0 where
  pub name : String
  pub port : ℕ

pub record EndpointSubset : Type 0 where
  pub addresses : List String
  pub ports : List EndpointPort

abbrev pub no_port : ℕ
no_port = 4294967295

-- the loop, from the port of HTTP so far
unfoldable pub choose_port_from : ℕ → List EndpointPort → ℕ
choose_port_from http_port [] = http_port
choose_port_from http_port (p ∷ ports) =
    let rest = choose_port_from (if p.name == "http" then p.port else http_port) ports in
    if p.name == "https" then p.port else rest

abbrev pub choose_port : List EndpointPort → ℕ
choose_port ports = choose_port_from no_port ports

abbrev pub portless : String
portless = "could not find either HTTP or HTTPS port"

-- `len(unique) == 0 || unique[len(unique)-1].Host != host`
unfoldable pub is_new : String → List Instance → Bool
is_new host [] = true
is_new host (i ∷ []) = not (i.host == host)
is_new host (i ∷ j ∷ unique) = is_new host (j ∷ unique)

unfoldable pub append_unique : List Instance → List Instance → List Instance
unfolding is_new
append_unique unique [] = unique
append_unique unique (i ∷ instances) =
    append_unique (if is_new i.host unique then unique ++ₗ i ∷ [] else unique) instances

unfoldable pub remove_duplicate_instances : List Instance → List Instance
unfolding append_unique sort_by
remove_duplicate_instances instances =
    append_unique [] (sort_by (λ i j. string_less i.host j.host) instances)

module _ (show : ℕ → String) where
  abbrev pub host_of : ℕ → String → String
  host_of port ip = ip ++ ":" ++ show port

  unfoldable pub instances_at : ℕ → List String → List Instance
  instances_at port [] = []
  instances_at port (ip ∷ addresses) =
      (record { host = host_of port ip; tags = ("instance", host_of port ip) ∷ [] })
      ∷ instances_at port addresses

  unfoldable pub instances_from_subset : EndpointSubset → Result String (List Instance)
  unfolding instances_at choose_port_from
  instances_from_subset subset =
      let port = choose_port subset.ports in
      if eqb port no_port then err portless else ok (instances_at port subset.addresses)

  -- the loop over the subsets
  unfoldable pub append_subsets :
      List Instance → List EndpointSubset → Result String (List Instance)
  unfolding instances_from_subset
  append_subsets instances [] = ok instances
  append_subsets instances (subset ∷ subsets) =
      instances_from_subset subset >>= λ to_add. append_subsets (instances ++ₗ to_add) subsets

  unfoldable pub instances_from_endpoints : List EndpointSubset → Result String (List Instance)
  unfolding append_subsets remove_duplicate_instances
  instances_from_endpoints subsets =
      append_subsets [] subsets >>= λ instances. ok (remove_duplicate_instances instances)

  -- InstancesFromEndpoints: `match_name` gives the name and the namespace of a service's host, `get` the
  -- subsets of the endpoints of that namespace and name
  abbrev pub of_match :
      (String → String → Result String (List EndpointSubset))
      → Option (String × String)
      → Result String (List Instance)
  of_match get none = err "host is not a kubernetes service"
  of_match get (some (name, namespace)) = get namespace name >>= instances_from_endpoints

  unfoldable pub lookup_endpoints :
      (String → Option (String × String))
      → (String → String → Result String (List EndpointSubset))
      → String
      → Result String (List Instance)
  unfolding instances_from_endpoints
  lookup_endpoints match_name get host = of_match get (match_name host)

unfoldable pub instance_from_host : String → Result String (List Instance)
instance_from_host host = ok ((record { host = host; tags = [] }) ∷ [])
