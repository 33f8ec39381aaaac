-- ===== src/Processors/SumCount/Grouping.antt =====
-- What the counts need of a spec: the group of a set is a function of the set alone, new groups are
-- empty, and no group is a member. The six specs of the collector satisfy it.
use mathlib.Core.Path.{subst}
use wavefront_collector_for.Prelude.{
  String, List, [], Option, none, some, Bool, true, false, ◌≡◌, refl, ◌==◌, is_some, arith,
  if◌then◌else◌,
}
use wavefront_collector_for.Prelude.Maps.{Map, lookup}
use wavefront_collector_for.Metrics.Labels.{
  label_metric_set_type, label_namespace_name, label_pod_namespace_uid, label_nodename,
  metric_set_type_pod, metric_set_type_pod_container, metric_set_type_namespace,
}
use wavefront_collector_for.Metrics.Types.{MetricSet, Sets}
use wavefront_collector_for.Metrics.Keys.{ResourceKey, namespace_key, node_key, cluster_key}
use wavefront_collector_for.Processors.SumCount.{SumCountAggregateSpec}
use wavefront_collector_for.Processors.SumCount.Groups.{
  at, is_aggregatable_pod, is_aggregatable_pod_container, namespace_metric_set, cluster_metric_set,
  namespace_group, node_group, cluster_group, pods_by_namespace, pods_by_node, pods_by_cluster,
  containers_by_namespace, containers_by_node, containers_by_cluster,
}

abbrev pub of_type : String → Map String → Bool
of_type t labels = at labels label_metric_set_type.key == t

module _ {F : Type 0} where
  abbrev pub first_some : Option (MetricSet F) → Option (MetricSet F) → Option (MetricSet F)
  first_some none o = o
  first_some (some s) o = some s

  abbrev pub resolve :
      Option ResourceKey → Option (MetricSet F) → Sets F → ResourceKey × Option (MetricSet F)
  resolve none fresh sets = ("", none)
  resolve (some g) fresh sets = (g, first_some (lookup g sets) fresh)

  pub record Grouping (spec : SumCountAggregateSpec F) : Type 0 where
    pub target : MetricSet F → Option ResourceKey
    pub fresh : MetricSet F → Option (MetricSet F)
    pub creates : Bool
    -- a test on labels that every member passes and no new group does
    pub member : Map String → Bool
    pub group_eq :
        (sets : Sets F) (k : ResourceKey) (rs : MetricSet F)
        → spec.group sets k rs ≡ resolve (target rs) (fresh rs) sets
    pub fresh_exists : (rs : MetricSet F) → is_some (fresh rs) ≡ creates
    pub fresh_values : (rs s : MetricSet F) → fresh rs ≡ some s → s.values ≡ []
    pub fresh_member : (rs s : MetricSet F) → fresh rs ≡ some s → member s.labels ≡ false
    pub part_member : (rs : MetricSet F) → spec.is_part_of_group rs ≡ true → member rs.labels ≡ true

  abbrev pub namespace_of : MetricSet F → Option ResourceKey
  namespace_of rs = elim (lookup label_namespace_name.key rs.labels) [
    | none ↦ none
    | some n ↦ some (namespace_key n)
  ]

  abbrev pub fresh_namespace : MetricSet F → Option (MetricSet F)
  fresh_namespace rs = some (
      namespace_metric_set (at rs.labels label_namespace_name.key)
        (at rs.labels label_pod_namespace_uid.key))

  pub namespace_group-eq :
      (sets : Sets F) (k : ResourceKey) (rs : MetricSet F)
      → namespace_group sets k rs ≡ resolve (namespace_of rs) (fresh_namespace rs) sets
  unfolding namespace_group
  namespace_group-eq sets k rs = ground arith

  abbrev pub node_of : MetricSet F → Option ResourceKey
  node_of rs =
      let n = at rs.labels label_nodename.key in if n == "" then none else some (node_key n)

  pub node_group-eq :
      (sets : Sets F) (k : ResourceKey) (rs : MetricSet F)
      → node_group sets k rs ≡ resolve (node_of rs) none sets
  unfolding node_group
  node_group-eq sets k rs = ground arith

  pub cluster_group-eq :
      (sets : Sets F) (k : ResourceKey) (rs : MetricSet F)
      → cluster_group sets k rs ≡ resolve (some cluster_key) (some cluster_metric_set) sets
  unfolding cluster_group
  cluster_group-eq sets k rs = ground arith

  pub pod_member :
      (rs : MetricSet F)
      → is_aggregatable_pod rs ≡ true
      → of_type metric_set_type_pod rs.labels ≡ true
  unfolding is_aggregatable_pod
  pod_member rs h = ground arith

  pub container_member :
      (rs : MetricSet F)
      → is_aggregatable_pod_container rs ≡ true
      → of_type metric_set_type_pod_container rs.labels ≡ true
  unfolding is_aggregatable_pod_container
  container_member rs h = ground arith

  pub namespace_values :
      (n u : String) (s : MetricSet F) → some (namespace_metric_set n u) ≡ some s → s.values ≡ []
  unfolding namespace_metric_set
  namespace_values n u s h = ground arith

  pub cluster_values : (s : MetricSet F) → some cluster_metric_set ≡ some s → s.values ≡ []
  unfolding cluster_metric_set
  cluster_values s h = ground arith

  pub namespace_member :
      (n u t : String) (s : MetricSet F)
      → (metric_set_type_namespace == t) ≡ false
      → some (namespace_metric_set n u) ≡ some s
      → of_type t s.labels ≡ false
  unfolding namespace_metric_set lookup
  namespace_member n u t s e h = ground arith

  pub no_fresh_values : (s : MetricSet F) → none ≡ some s → s.values ≡ []
  no_fresh_values s h = cc

  pub no_fresh_member : (t : String) (s : MetricSet F) → none ≡ some s → of_type t s.labels ≡ false
  no_fresh_member t s h = cc

  pub cluster_member :
      (s : MetricSet F)
      → some cluster_metric_set ≡ some s
      → of_type metric_set_type_namespace s.labels ≡ false
  unfolding cluster_metric_set lookup
  cluster_member s h =
      let p : cluster_metric_set ≡ s = cc in
      subst (λ x. of_type metric_set_type_namespace x.labels ≡ false) p refl

  abbrev pub pods_by_namespace-Grouping : (ms : List String) → Grouping (pods_by_namespace ms)
  pods_by_namespace-Grouping ms = record {
    target = namespace_of;
    fresh = fresh_namespace;
    creates = true;
    member = of_type metric_set_type_pod;
    group_eq = namespace_group-eq;
    fresh_exists = λ rs. refl;
    fresh_values = λ rs s h. namespace_values _ _ s h;
    fresh_member = λ rs s h. namespace_member _ _ metric_set_type_pod s refl h;
    part_member = pod_member;
  }

  abbrev pub containers_by_namespace-Grouping : Grouping containers_by_namespace
  containers_by_namespace-Grouping = record {
    target = namespace_of;
    fresh = fresh_namespace;
    creates = true;
    member = of_type metric_set_type_pod_container;
    group_eq = namespace_group-eq;
    fresh_exists = λ rs. refl;
    fresh_values = λ rs s h. namespace_values _ _ s h;
    fresh_member = λ rs s h. namespace_member _ _ metric_set_type_pod_container s refl h;
    part_member = container_member;
  }

  abbrev pub pods_by_node-Grouping : (ms : List String) → Grouping (pods_by_node ms)
  pods_by_node-Grouping ms = record {
    target = node_of;
    fresh = λ rs. none;
    creates = false;
    member = of_type metric_set_type_pod;
    group_eq = node_group-eq;
    fresh_exists = λ rs. refl;
    fresh_values = λ rs s h. no_fresh_values s h;
    fresh_member = λ rs s h. no_fresh_member _ s h;
    part_member = pod_member;
  }

  abbrev pub containers_by_node-Grouping : Grouping containers_by_node
  containers_by_node-Grouping = record {
    target = node_of;
    fresh = λ rs. none;
    creates = false;
    member = of_type metric_set_type_pod_container;
    group_eq = node_group-eq;
    fresh_exists = λ rs. refl;
    fresh_values = λ rs s h. no_fresh_values s h;
    fresh_member = λ rs s h. no_fresh_member _ s h;
    part_member = container_member;
  }

  abbrev pub pods_by_cluster-Grouping : (ms : List String) → Grouping (pods_by_cluster ms)
  pods_by_cluster-Grouping ms = record {
    target = λ rs. some cluster_key;
    fresh = λ rs. some cluster_metric_set;
    creates = true;
    member = of_type metric_set_type_namespace;
    group_eq = cluster_group-eq;
    fresh_exists = λ rs. refl;
    fresh_values = λ rs s h. cluster_values s h;
    fresh_member = λ rs s h. cluster_member s h;
    part_member = λ rs h. h;
  }

  abbrev pub containers_by_cluster-Grouping : Grouping containers_by_cluster
  containers_by_cluster-Grouping = record {
    target = λ rs. some cluster_key;
    fresh = λ rs. some cluster_metric_set;
    creates = true;
    member = of_type metric_set_type_namespace;
    group_eq = cluster_group-eq;
    fresh_exists = λ rs. refl;
    fresh_values = λ rs s h. cluster_values s h;
    fresh_member = λ rs s h. cluster_member s h;
    part_member = λ rs h. h;
  }
