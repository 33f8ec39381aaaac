-- ===== src/Sources/State/Scrape.antt =====
-- plugins/sources/kstate/provider.go: the handlers by the type of object, and Scrape. The points of a group
-- share their tags, from which the filter deletes in place; that is passed on from point to point. A
-- handler that is given an object of another type makes no point. The lister is a parameter.
pub mod Autoscalers
use Prim.Native.String.{◌++◌}
use wavefront_collector_for.Prelude.{
  ℕ, ◌+◌, String, List, [], ◌∷◌, Option, none, some, Bool, true, false, ◌==◌, length, if◌then◌else◌,
}
use mathlib.Core.List.{◌++◌ as ◌++ₗ◌}
use wavefront_collector_for.Prelude.Maps.{Map}
use wavefront_collector_for.Float64.{Float64}
use wavefront_collector_for.Filter.{GlobFilter}
use wavefront_collector_for.Wf.Point.{new_point}
use wavefront_collector_for.Wf.Metric.{Metric, point, tags, Batch}
use wavefront_collector_for.Wf.Filtering.{filter, append_some}
use wavefront_collector_for.Sources.State.{
  Transforms, Group, Replicated, StatefulSet, DaemonSet, Job, CronJob, HorizontalPodAutoscaler,
  points_for_replicated, points_for_stateful_set, points_for_daemon_set, points_for_job,
  points_for_cron_job, points_for_hpa,
}
use wavefront_collector_for.Sources.State.Pods.{
  Pod, Node, points_for_node, points_for_non_running_pods,
}

-- an object of a store, by its type in Go
pub data Item : Type 0 where
  deployment replica_set replication_controller : Replicated → Item
  stateful_set : StatefulSet → Item
  daemon_set : DaemonSet → Item
  job : Job → Item
  cron_job : CronJob → Item
  -- of autoscaling/v2beta1 and of autoscaling/v2beta2
  hpa_v2beta1 hpa_v2beta2 : HorizontalPodAutoscaler → Item
  node : Node → Item
  pod : Pod → Item

abbrev default_to : String → String → String
default_to default s = if s == "" then default else s

-- the transforms of NewStateMetricsSource, on a node
unfoldable pub new_transforms : String → Transforms → Transforms
new_transforms node_name t = record t {
  source = default_to t.source node_name;
  prefix = default_to "kubernetes." t.prefix;
}

module _ {F : Type 0} ⦃f : Float64 F⦄ (t : Transforms) where
  abbrev for_deployment : Item → List (Group F)
  for_deployment (deployment r) = points_for_replicated t "deployment" r ∷ []
  for_deployment _ = []

  abbrev for_replica_set : Item → List (Group F)
  for_replica_set (replica_set r) = points_for_replicated t "replicaset" r ∷ []
  for_replica_set _ = []

  abbrev for_replication_controller : Item → List (Group F)
  for_replication_controller (replication_controller r) =
      points_for_replicated t "replicationcontroller" r ∷ []
  for_replication_controller _ = []

  abbrev for_stateful_set : Item → List (Group F)
  for_stateful_set (stateful_set ss) = points_for_stateful_set t ss ∷ []
  for_stateful_set _ = []

  abbrev for_daemon_set : Item → List (Group F)
  for_daemon_set (daemon_set ds) = points_for_daemon_set t ds ∷ []
  for_daemon_set _ = []

  abbrev for_job : Item → List (Group F)
  for_job (job j) = points_for_job t j ∷ []
  for_job _ = []

  abbrev for_cron_job : Item → List (Group F)
  for_cron_job (cron_job j) = points_for_cron_job t j ∷ []
  for_cron_job _ = []

  abbrev for_hpa : Item → List (Group F)
  for_hpa (hpa_v2beta2 h) = points_for_hpa t h ∷ []
  for_hpa _ = []

  abbrev for_node : Item → List (Group F)
  for_node (node n) = points_for_node t n
  for_node _ = []

  abbrev for_pod : Item → List (Group F)
  for_pod (pod p) = points_for_non_running_pods t p
  for_pod _ = []

  -- the map of handlers
  unfoldable pub handler_of : String → Option (Item → List (Group F))
  handler_of type =
      if type == "jobs"
      then some for_job
      else if type == "cronjobs"
      then some for_cron_job
      else if type == "daemonsets"
      then some for_daemon_set
      else if type == "deployments"
      then some for_deployment
      else if type == "replicasets"
      then some for_replica_set
      else if type == "replicationcontrollers"
      then some for_replication_controller
      else if type == "statefulsets"
      then some for_stateful_set
      else if type == "horizontalpodautoscalers"
      then some for_hpa
      else if type == "nodes"
      then some for_node
      else if type == "pods"
      then some for_pod
      else none

  unfoldable pub handle_items : (Item → List (Group F)) → List Item → List (Group F)
  handle_items handler [] = []
  handle_items handler (item ∷ items) = handler item ++ₗ handle_items handler items

  abbrev handled : Option (Item → List (Group F)) → List Item → List (Group F)
  handled none items = []
  handled (some handler) items = handle_items handler items

  -- `none` is the error of the lister
  abbrev listed : String → Option (List Item) → List (Group F)
  listed type none = []
  listed type (some items) = handled (handler_of type) items

  module _ (list : String → Option (List Item)) where
    unfoldable pub points_for_resource : String → List (Group F)
    unfolding handler_of handle_items
    points_for_resource type = listed type (list type)

    module _ (filters : Option GlobFilter) where
      -- the tags that the next point of the group has
      abbrev pub tags_after : Option (Metric F) → Map String → Map String
      tags_after none before = before
      tags_after (some m) before = tags m

      unfoldable pub add_readings :
          ℕ → Map String → List (String × F) → List (Metric F) × ℕ → List (Metric F) × ℕ
      add_readings now shared [] done = done
      add_readings now shared ((name, value) ∷ readings) (metrics, filtered) =
          let (kept, n) =
            filter filters (point (new_point (t.prefix ++ name) value now t.source shared)) in
          add_readings now (tags_after kept shared) readings
            (append_some metrics kept, filtered + n)

      unfoldable pub add_groups : ℕ → List (Group F) → List (Metric F) × ℕ → List (Metric F) × ℕ
      unfolding add_readings
      add_groups now [] done = done
      add_groups now (g ∷ groups) done =
          add_groups now groups (add_readings now g.tags g.readings done)

      -- the loop over the types of objects, in the order of the range
      unfoldable pub add_resources : ℕ → List String → List (Metric F) × ℕ → List (Metric F) × ℕ
      unfolding points_for_resource add_groups
      add_resources now [] done = done
      add_resources now (type ∷ types) done =
          add_resources now types (add_groups now (points_for_resource type) done)

      -- Scrape: the batch, and by how much the counters of collected and filtered points grow
      unfoldable pub scrape : ℕ → ℕ → List String → Batch F × ℕ × ℕ
      unfolding add_resources
      scrape timestamp now types =
          let (metrics, filtered) = add_resources now types ([], 0) in
          (record { timestamp = timestamp; sets = []; metrics = metrics }, length metrics, filtered)
