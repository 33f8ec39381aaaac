-- ===== src/Processors/Enriching/Containers.antt =====
-- addContainerInfo and Process of plugins/processors/pod_based_enricher.go. `pod_of` is what the lister
-- has for a namespace and a name, `none` where it fails.
use wavefront_collector_for.Prelude.{
  ℕ, ◌-◌, String, List, [], ◌∷◌, Option, none, some, ◌==◌, is_some, if◌then◌else◌,
}
use wavefront_collector_for.Prelude.Maps.{Map, lookup, insert, delete, copy_into}
use wavefront_collector_for.Float64.{Float64}
use wavefront_collector_for.Metrics.Labels.{
  label_metric_set_type, label_namespace_name, label_pod_name, label_pod_id,
  label_container_base_image, metric_set_type_pod, metric_set_type_pod_container,
}
use wavefront_collector_for.Metrics.Types.{MetricSet, Sets}
use wavefront_collector_for.Metrics.Catalog.Standard.{metric_restart_count}
use wavefront_collector_for.Metrics.Keys.{ResourceKey, pod_key, pod_container_key}
use wavefront_collector_for.Processors.Enriching.{
  Container, ContainerStatus, KubePod, LabelCopier, copy,
}
use wavefront_collector_for.Processors.Enriching.Pods.{
  get, int_value, update_resources, add_container_status, started, pod_stub, add_pod_info,
}

abbrev add_image : String → Map String → Map String
add_image image labels =
    if is_some (lookup label_container_base_image.key labels)
    then labels
    else insert label_container_base_image.key image labels

module _ {F : Type 0} ⦃f : Float64 F⦄ where
  -- the loop over the containers, which stops at the one of the key
  unfoldable pub add_spec : ResourceKey → KubePod → List Container → MetricSet F → MetricSet F
  add_spec key pod [] ms = ms
  add_spec key pod (c ∷ containers) ms =
      if key == pod_container_key pod.namespace pod.name c.name
      then (let limited = update_resources c ms in
          record limited { labels = add_image c.image limited.labels })
      else add_spec key pod containers ms

  -- the loop over the statuses, which stops at the one of the key
  unfoldable pub add_status :
      ℕ → ResourceKey → KubePod → List ContainerStatus → MetricSet F → MetricSet F
  add_status since key pod [] ms = ms
  add_status since key pod (status ∷ statuses) ms =
      if key == pod_container_key pod.namespace pod.name status.name
      then add_container_status since status (
          started pod (record ms {
            values = insert metric_restart_count.name (int_value status.restart_count) ms.values;
          }))
      else add_status since key pod statuses ms

  module _ (copier : LabelCopier) where
    abbrev put_pod : ℕ → Sets F → KubePod → ResourceKey → MetricSet F → Sets F → Sets F
    put_pod since sets pod key stub new_ms =
        let pod_ms = started pod stub in
        let (done, others) = add_pod_info copier since sets pod pod_ms (insert key pod_ms new_ms) in
        insert key done others

    -- the set of the container, and the new sets
    unfoldable pub add_container_info :
        ℕ → Sets F → ResourceKey → KubePod → MetricSet F → Sets F → MetricSet F × Sets F
    unfolding add_spec add_status
    add_container_info since sets key pod container_ms new_ms =
        let specified = add_spec key pod pod.containers container_ms in
        let known = add_status since key pod pod.statuses specified in
        let labels = copy copier pod.labels (insert label_pod_id.key pod.uid known.labels) in
        let namespace = get label_namespace_name.key labels in
        let pod_name = get label_pod_name.key labels in
        let pod_entry = pod_key namespace pod_name in
        let with_pod =
          put_pod since sets pod pod_entry (pod_stub namespace pod_name labels) new_ms in
        (
          record known { labels = labels },
          if is_some (lookup pod_entry sets)
              then new_ms
              else if is_some (lookup pod_entry new_ms)
              then new_ms
              else with_pod,
        )

    abbrev put_back : ResourceKey → MetricSet F × Sets F → Sets F → Sets F × Sets F
    put_back key (ms, new_ms) sets = (insert key ms sets, new_ms)

    abbrev enriched_pod :
        ℕ → ResourceKey → MetricSet F → Option KubePod → Sets F → Sets F → Sets F × Sets F
    enriched_pod since key ms none sets new_ms = (delete key sets, new_ms)
    enriched_pod since key ms (some pod) sets new_ms =
        put_back key (add_pod_info copier since sets pod ms new_ms) sets

    abbrev enriched_container :
        ℕ → ResourceKey → MetricSet F → Option KubePod → Sets F → Sets F → Sets F × Sets F
    enriched_container since key ms none sets new_ms = (delete key sets, new_ms)
    enriched_container since key ms (some pod) sets new_ms =
        put_back key (add_container_info since sets key pod ms new_ms) sets

    module _ (pod_of : String → String → Option KubePod) where
      -- one round of the loop over the batch: the batch and the new sets afterwards
      unfoldable pub enrich : ℕ → ResourceKey → MetricSet F → Sets F → Sets F → Sets F × Sets F
      unfolding add_pod_info add_container_info
      enrich since key ms sets new_ms =
          let type = get label_metric_set_type.key ms.labels in
          let pod =
            pod_of (get label_namespace_name.key ms.labels) (get label_pod_name.key ms.labels) in
          if type == metric_set_type_pod
          then enriched_pod since key ms pod sets new_ms
          else if type == metric_set_type_pod_container
          then enriched_container since key ms pod sets new_ms
          else (sets, new_ms)

      unfoldable pub enrich_each : ℕ → Sets F → Sets F → Sets F → Sets F × Sets F
      unfolding enrich
      enrich_each since [] sets new_ms = (sets, new_ms)
      enrich_each since ((key, ms) ∷ visited) sets new_ms =
          let (after, others) = enrich since key ms sets new_ms in
          enrich_each since visited after others

      -- Process, at the time of the batch
      unfoldable pub enrich_pods : ℕ → ℕ → Sets F → Sets F
      unfolding enrich_each
      enrich_pods interval timestamp sets =
          let (after, others) = enrich_each (timestamp - interval) sets sets [] in
          copy_into others after
