-- ===== src/Metrics/Keys.antt =====
-- internal/metrics/resource_key.go: the keys under which a batch holds its metric sets.
use Prim.Native.String.{String, ◌++◌}

abbrev pub ResourceKey : Type 0
ResourceKey = String

unfoldable pub pod_container_key : String → String → String → ResourceKey
pod_container_key namespace pod_name container_name =
    "namespace:" ++ namespace ++ "/pod:" ++ pod_name ++ "/container:" ++ container_name

unfoldable pub pod_key : String → String → ResourceKey
pod_key namespace pod_name = "namespace:" ++ namespace ++ "/pod:" ++ pod_name

unfoldable pub namespace_key : String → ResourceKey
namespace_key namespace = "namespace:" ++ namespace

unfoldable pub node_key : String → ResourceKey
node_key node = "node:" ++ node

unfoldable pub node_container_key : String → String → ResourceKey
node_container_key node container = "node:" ++ node ++ "/container:" ++ container

abbrev pub cluster_key : ResourceKey
cluster_key = "cluster"
