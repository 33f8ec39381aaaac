-- ===== src/Discovery/Resources.antt =====
-- internal/discovery/types.go, configs.go and ResourceName of helper.go: what is discovered, and the
-- rules by which. Of the metadata and the containers of a Kubernetes object the fields are kept that
-- the repository reads.
use Prim.Native.String.{◌++◌}
use wavefront_collector_for.Prelude.{ℕ, String, List, Bool, not, ◌==◌, if◌then◌else◌}
use wavefront_collector_for.Prelude.Maps.{Map}
use wavefront_collector_for.Filter.Config.{Config}

pub record Meta : Type 0 where
  pub name : String
  pub namespace : String
  pub labels : Map String
  pub annotations : Map String

pub record Resource : Type 0 where
  pub kind : String
  pub ip : String
  pub meta : Meta
  pub status : String
  -- the images of the containers
  pub containers : List String

pub data ResourceType : Type 0 where
  pod_type service_type node_type : ResourceType

unfoldable pub type_string : ResourceType → String
type_string pod_type = "pod"
type_string service_type = "service"
type_string node_type = "node"

unfoldable pub resource_name : String → Meta → String
resource_name kind meta =
    if not (meta.namespace == "")
    then meta.namespace ++ "-" ++ kind ++ "-" ++ meta.name
    else kind ++ "-" ++ meta.name

pub record Selectors : Type 0 where
  pub resource_type : String
  pub images : List String
  pub labels : Map (List String)
  pub namespaces : List String

-- the durations of the collection are nanoseconds
pub record PluginConfig : Type 0 where
  pub name : String
  pub type : String
  pub selectors : Selectors
  pub port : String
  pub scheme : String
  pub path : String
  pub conf : String
  pub source : String
  pub prefix : String
  pub tags : Map String
  pub include_labels : String
  pub filters : Config
  pub interval : ℕ
  pub timeout : ℕ
  pub internal : Bool
