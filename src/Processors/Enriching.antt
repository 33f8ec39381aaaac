-- ===== src/Processors/Enriching.antt =====
-- What the enrichers share: the objects of Kubernetes as far as they are read, the label copier
-- (internal/util/label_copier.go), the states and phases of internal/util/util.go, and the namespace
-- enricher (plugins/processors/namespace_based_enricher.go). A quantity is its Value and its MilliValue,
-- an exit code its printed text.
pub mod Pods
pub mod Containers
pub mod Nodes
pub mod Resources
use Prim.Native.String.{◌++◌}
use wavefront_collector_for.Prelude.{
  ℕ, String, List, [], ◌∷◌, Option, none, some, Bool, true, false, not, ◌&&◌, ◌==◌, is_some, ltb,
  if◌then◌else◌,
}
use wavefront_collector_for.Prelude.Text.{split_once, join}
use wavefront_collector_for.Prelude.Maps.{Map, lookup, insert}
use wavefront_collector_for.Prelude.Sort.{sort_strings}
use wavefront_collector_for.Metrics.Labels.{
  label_labels, label_metric_set_type, label_namespace_name, label_pod_namespace_uid,
  metric_set_type_pod, metric_set_type_pod_container, metric_set_type_namespace,
}
use wavefront_collector_for.Metrics.Types.{MetricSet, Sets}

pub record Quantity : Type 0 where
  pub value : ℕ
  pub milli_value : ℕ

pub record Container : Type 0 where
  pub name : String
  pub image : String
  pub requests : Map Quantity
  pub limits : Map Quantity

pub record Terminated : Type 0 where
  pub reason : String
  pub exit_code : String
  pub finished_at : ℕ

-- the reason of waiting
pub record ContainerState : Type 0 where
  pub running : Bool
  pub waiting : Option String
  pub terminated : Option Terminated

pub record ContainerStatus : Type 0 where
  pub name : String
  pub restart_count : ℕ
  pub state : ContainerState
  pub last_termination_state : ContainerState

pub record KubePod : Type 0 where
  pub namespace : String
  pub name : String
  pub uid : String
  pub labels : Map String
  pub phase : String
  -- zero where it is not known
  pub start_time : ℕ
  pub containers : List Container
  pub statuses : List ContainerStatus

pub record ContainerStateInfo : Type 0 where
  pub value : ℕ
  pub state : String
  pub reason : String
  pub exit_code : String

abbrev unknown_state : ContainerStateInfo
unknown_state = record { value = 0; state = "unknown"; reason = ""; exit_code = "0" }

abbrev terminated_info : Option Terminated → ContainerStateInfo
terminated_info none = unknown_state
terminated_info (some t) = record {
  value = 3;
  state = "terminated";
  reason = t.reason;
  exit_code = t.exit_code;
}

abbrev waiting_info : Option String → Option Terminated → ContainerStateInfo
waiting_info (some reason) t = record {
  value = 2;
  state = "waiting";
  reason = reason;
  exit_code = "0";
}
waiting_info none t = terminated_info t

unfoldable pub new_container_state_info : ContainerState → ContainerStateInfo
new_container_state_info s =
    if s.running
    then record { value = 1; state = "running"; reason = ""; exit_code = "0" }
    else waiting_info s.waiting s.terminated

unfoldable pub add_metric_tags : ContainerStateInfo → Map String → Map String
add_metric_tags info tags =
    if ltb 0 info.value
    then (let known = insert "status" info.state tags in
        if not (info.reason == "")
        then insert "exit_code" info.exit_code (insert "reason" info.reason known)
        else known)
    else tags

unfoldable pub convert_pod_phase : String → ℕ
convert_pod_phase phase =
    if phase == "Pending"
    then 1
    else if phase == "Running"
    then 2
    else if phase == "Succeeded"
    then 3
    else if phase == "Failed"
    then 4
    else 5

pub record LabelCopier : Type 0 where
  pub label_separator : String
  pub stored_labels : Map String
  pub ignored_labels : Map String

abbrev stored : String → Option (String × String) → Map String → Map String
stored s none labels = insert s s labels
stored s (some (new_name, old_name)) labels = insert old_name new_name labels

unfoldable pub make_stored_labels : List String → Map String → Map String
make_stored_labels [] labels = labels
make_stored_labels (s ∷ names) labels =
    make_stored_labels names (stored s (split_once b'=' s) labels)

unfoldable pub make_ignored_labels : List String → Map String → Map String
make_ignored_labels [] labels = labels
make_ignored_labels (s ∷ names) labels = make_ignored_labels names (insert s "" labels)

unfoldable pub new_label_copier : String → List String → List String → LabelCopier
unfolding make_stored_labels make_ignored_labels
new_label_copier separator stored_labels ignored_labels = record {
  label_separator = separator;
  stored_labels = make_stored_labels stored_labels [];
  ignored_labels = make_ignored_labels ignored_labels [];
}

module _ (c : LabelCopier) where
  abbrev put_mapped : Option String → String → Map String → Map String
  put_mapped none value out = out
  put_mapped (some mapped_key) value out = insert mapped_key value out

  -- the labels that are copied under a name of their own
  unfoldable pub copy_stored : Map String → Map String → Map String
  copy_stored [] out = out
  copy_stored ((key, value) ∷ labels) out =
      copy_stored labels (put_mapped (lookup key c.stored_labels) value out)

  -- the labels that are joined, each with its value
  unfoldable pub joined_labels : Map String → List String
  joined_labels [] = []
  joined_labels ((key, value) ∷ labels) =
      let rest = joined_labels labels in
      if not (is_some (lookup key c.ignored_labels)) then (key ++ ":" ++ value) ∷ rest else rest

  unfoldable pub copy : Map String → Map String → Map String
  unfolding copy_stored joined_labels
  copy labels out =
      insert label_labels.key (join c.label_separator (sort_strings (joined_labels labels)))
        (copy_stored labels out)

abbrev is_namespaced : String → Bool
is_namespaced type = not (
    not (type == metric_set_type_pod_container)
    && (not (type == metric_set_type_pod) && not (type == metric_set_type_namespace)))

-- what the store of namespaces gives for a key: the UID, if there is such a namespace and no error
module _ {F : Type 0} (uid_of : String → Option String) where
  abbrev put_uid : Option String → MetricSet F → MetricSet F
  put_uid none ms = ms
  put_uid (some uid) ms = record ms { labels = insert label_pod_namespace_uid.key uid ms.labels }

  abbrev info_by : Option String → Option String → MetricSet F → MetricSet F
  info_by none namespace ms = ms
  info_by (some type) none ms = ms
  info_by (some type) (some namespace) ms =
      if is_namespaced type then put_uid (uid_of namespace) ms else ms

  unfoldable pub add_namespace_info : MetricSet F → MetricSet F
  add_namespace_info ms =
      info_by (lookup label_metric_set_type.key ms.labels)
        (lookup label_namespace_name.key ms.labels) ms

  -- Process of the namespace enricher
  unfoldable pub add_namespaces : Sets F → Sets F
  unfolding add_namespace_info
  add_namespaces [] = []
  add_namespaces ((key, ms) ∷ sets) = (key, add_namespace_info ms) ∷ add_namespaces sets
