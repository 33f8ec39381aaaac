-- ===== src/Discovery/Endpoints.antt =====
-- internal/discovery/endpoint.go: discovered endpoints are handed to the source manager as providers,
-- and counted by their type. Building a provider is a parameter: it has one name for each type, and
-- gives the provider's own name, or none on an error. The calls of the handlers are kept in a list.
-- The counters of the metrics registry, by their types, are given to the constructor.
pub mod Registered
use Prim.Native.String.{◌++◌}
use wavefront_collector_for.Prelude.{
  ℕ, ◌+◌, ◌-◌, ◌%◌, ◌^◌, String, List, [], ◌∷◌, Option, none, some, or_else, if◌then◌else◌,
}
use wavefront_collector_for.Prelude.Maps.{Map, lookup, insert}

-- an endpoint, with a configuration of type C
pub record Endpoint (C : Type 0) : Type 0 where
  pub name : String
  pub plugin_type : String
  pub config : C

-- the factory of a type: its name and Build
pub record Factory (C : Type 0) : Type 0 where
  pub name : String
  pub build : C → Option String

pub data HandlerCall : Type 0 where
  add_provider : String → HandlerCall
  delete_provider : String → HandlerCall

-- the counters are int64, as their 64 bits
pub record EndpointHandler (C : Type 0) : Type 0 where
  pub providers : Map (Factory C)
  pub counts : Map ℕ
  pub calls : List HandlerCall

-- Inc(1) and Dec(1) of an int64
abbrev pub inc64 : Option ℕ → ℕ
inc64 none = 1
inc64 (some n) = (n + 1) % 2 ^ 64

abbrev pub dec64 : Option ℕ → ℕ
dec64 none = 2 ^ 64 - 1
dec64 (some n) = (n + (2 ^ 64 - 1)) % 2 ^ 64

module _ {C : Type 0} where
  -- GetOrRegisterCounter: the counter of the registry, or a new one
  registered_counts : Map ℕ → Map (Factory C) → Map ℕ
  registered_counts registry [] = []
  registered_counts registry ((type, f) ∷ providers) =
      (type, or_else (lookup type registry) 0) ∷ registered_counts registry providers

  unfoldable pub new_endpoint_handler : Map ℕ → Map (Factory C) → EndpointHandler C
  unfolding registered_counts
  new_endpoint_handler registry providers = record {
    providers = providers;
    counts = registered_counts registry providers;
    calls = [];
  }

  abbrev pub register : String → Option String → EndpointHandler C → EndpointHandler C
  register type none d = d
  register type (some provider) d = record d {
    calls = add_provider provider ∷ d.calls;
    counts = insert type (inc64 (lookup type d.counts)) d.counts;
  }

  abbrev add_with : Endpoint C → EndpointHandler C → Option (Factory C) → EndpointHandler C
  add_with ep d none = d
  add_with ep d (some delegate) = register ep.plugin_type (delegate.build ep.config) d

  unfoldable pub add : Endpoint C → EndpointHandler C → EndpointHandler C
  add ep d = add_with ep d (lookup ep.plugin_type d.providers)

  abbrev delete_with : Endpoint C → EndpointHandler C → Option (Factory C) → EndpointHandler C
  delete_with ep d none = d
  delete_with ep d (some delegate) = record d {
    calls = delete_provider (delegate.name ++ ": " ++ ep.name) ∷ d.calls;
    counts = insert ep.plugin_type (dec64 (lookup ep.plugin_type d.counts)) d.counts;
  }

  unfoldable pub delete : Endpoint C → EndpointHandler C → EndpointHandler C
  delete ep d = delete_with ep d (lookup ep.plugin_type d.providers)
