-- ===== src/Examples/Decoded.antt =====
-- The sets of a kubelet's statistics, the messages of pods, and flags at concrete inputs.
use Prim.Native.String.{◌++◌ as ◌++ₛ◌}
use wavefront_collector_for.Prelude.{
  ℕ, String, [], ◌∷◌, Option, none, some, Bool, false, ◌≡◌, refl, All, ◌==◌, if◌then◌else◌,
}
use wavefront_collector_for.Prelude.Maps.{lookup, insert, first_of}
use wavefront_collector_for.Prelude.Text.{split_once}
use wavefront_collector_for.Prelude.Result.{ok, err}
use wavefront_collector_for.Float64.{nat}
use wavefront_collector_for.Filter.Query.{from_query}
use wavefront_collector_for.Discovery.Configs.{DiscoveryConfig}
use wavefront_collector_for.Sources.Kubelet.Decoding.{
  ContainerStats, decode_container_stats, decode_containers,
}
use wavefront_collector_for.Sources.Kubelet.Decoding.Newest.{Latest, Latest-decode_containers}
use wavefront_collector_for.Sources.Kubelet.Decoding.Values.{
  custom, found, from_storage, from_memory, from_cpu, from_start, values-decode_container_stats,
}
use wavefront_collector_for.Sources.State.Pods.{Pod, explained}
use wavefront_collector_for.Sources.State.Pods.Messages.{Fits, Fits-explained}
use wavefront_collector_for.Options.{UrlLibrary, Uri, print_uri, set_uri}
use wavefront_collector_for.Options.Printed.{set_uri-print_uri}
use wavefront_collector_for.Options.Settings.{Options}
use wavefront_collector_for.Options.Adapter.{panic, converted, convert, wavefront_sink}
use wavefront_collector_for.Options.Adapter.Prefixes.{convert-prefix}

abbrev api : ContainerStats ℕ
api = record {
  name = "api";
  start_time = 5000000;
  cpu =
      some
        (record { time = 9; usage_nano_cores = some 25000000; usage_core_nano_seconds = some 700 });
  memory = none;
  accelerators = [];
  rootfs = some (record {
    used_bytes = some 10;
    capacity_bytes = none;
    available_bytes = none;
    inodes = none;
    inodes_free = none;
  });
  logs = some (record {
    used_bytes = some 7;
    capacity_bytes = none;
    available_bytes = none;
    inodes = none;
    inodes_free = none;
  });
  user_defined_metrics = record { name = "queue"; value = 3 } ∷ [];
}

abbrev older : ContainerStats ℕ
older = record api { start_time = 4000000 }

Latest-decode_containers_example :
    All
      (Latest 9000000 [] "default" "web"
        (api ∷ older ∷ [])
        []
        (decode_containers 9000000 [] "default" "web" (api ∷ older ∷ []) []))
      (api ∷ older ∷ [])
Latest-decode_containers_example =
    Latest-decode_containers 9000000 [] "default" "web" (api ∷ older ∷ []) []

values-decode_container_stats_example :
    lookup "ephemeral_storage/usage" (decode_container_stats 9000000 [] api false).values
    ≡ first_of (custom "ephemeral_storage/usage" api.user_defined_metrics) (
        first_of (found "ephemeral_storage/usage" (from_storage api.rootfs api.logs)) (
          first_of (found "ephemeral_storage/usage" (from_memory api.memory)) (
            first_of
              (found "ephemeral_storage/usage" (from_cpu api.cpu))
              (found "ephemeral_storage/usage" (from_start 9000000 api.start_time)))))
values-decode_container_stats_example =
    values-decode_container_stats 9000000 [] api false "ephemeral_storage/usage"

abbrev unscheduled : Pod
unscheduled = record {
  namespace = "default";
  name = "web";
  uid = "1";
  labels = [];
  node_name = "";
  phase = "Pending";
  conditions =
      record {
        type = "PodScheduled";
        status = "False";
        reason = "Unschedulable";
        message = "0/1 nodes are available";
      }
      ∷ [];
  container_statuses = [];
}

Fits-explained_example : Fits (lookup "message" (explained unscheduled []))
unfolding lookup
Fits-explained_example = Fits-explained unscheduled [] tt

explained_message : lookup "message" (explained unscheduled []) ≡ some "0/1 nodes are available"
unfolding explained lookup insert
explained_message = refl

-- URLs that are a query of one parameter
abbrev one_parameter : UrlLibrary (String × String)
one_parameter = record {
  empty = ("", "");
  parse = λ s. elim (split_once b'=' s) [ none ↦ err "no parameter" | some p ↦ ok p ];
  print = λ u. if u.0 == "" then "" else u.0 ++ₛ "=" ++ₛ u.1;
  query = λ u. (u.0, u.1 ∷ []) ∷ [];
  scheme = λ u. "";
  host = λ u. "";
  path = λ u. "";
}

abbrev sink_flag : Uri (String × String)
sink_flag = record { key = "wavefront"; val = ("prefix", "prod.") }

set_uri-print_uri_example :
    set_uri one_parameter (λ s. s) (print_uri one_parameter sink_flag) ≡ ok sink_flag
unfolding split_once
set_uri-print_uri_example =
    set_uri-print_uri one_parameter (λ s. s) sink_flag refl refl refl refl (λ e. cc e)

abbrev state_flag : Uri (String × String)
state_flag = record { key = "kubernetes.state"; val = ("prefix", "kube.") }

abbrev flags : Options (String × String)
flags = record {
  agent_type = "all";
  metric_resolution = 60;
  sources = state_flag ∷ [];
  sinks = sink_flag ∷ [];
  sink_export_data_timeout = 20;
  enable_discovery = false;
  enable_runtime_configs = false;
  discovery_config_file = "";
  internal_stats_prefix = "kubernetes.";
}

abbrev no_file : String → Option DiscoveryConfig
no_file name = none

abbrev no_bool : String → Option Bool
no_bool s = none

convert-prefix_example : convert one_parameter no_bool no_file flags ≡ panic
unfolding lookup from_query converted wavefront_sink
convert-prefix_example =
    convert-prefix one_parameter no_bool no_file flags state_flag [] sink_flag [] refl refl
