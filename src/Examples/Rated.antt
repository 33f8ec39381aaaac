-- ===== src/Examples/Rated.antt =====
-- Rates, the points of metric sets and Prometheus sources at concrete inputs, over the natural numbers
-- in place of float64.
use wavefront_collector_for.Prelude.{
  ℕ, ◌+◌, ◌^◌, String, List, map, [], ◌∷◌, ◌++◌, none, some, true, ◌≡◌, refl, ◌==◌, keep, sum_of,
  length,
}
use wavefront_collector_for.Prelude.Maps.{Map, lookup, insert, copy_into, Distinct, first_of}
use wavefront_collector_for.Prelude.Sort.{sort_by}
use wavefront_collector_for.Prelude.Text.{contains, replace}
use wavefront_collector_for.Wf.Filtering.{filter}
use wavefront_collector_for.Wf.Point
use wavefront_collector_for.Float64.{nat}
use wavefront_collector_for.Filter.{GlobFilter, match_tag, match_metric, matches_tags}
use wavefront_collector_for.Metrics.Types.{MetricSet, Value, LabeledValue, Sets, value_int64}
use wavefront_collector_for.Metrics.Catalog.{rate_metrics_mapping}
use wavefront_collector_for.Wf.Point.{filter_keys, new_point, tags_of}
use wavefront_collector_for.Wf.Metric.{Batch, name, tags, filter_tags}
use wavefront_collector_for.Processors.Rates.{RateCalculator, add_rates, process}
use wavefront_collector_for.Processors.Rates.Computed.{rate_for, lookup-add_rates}
use wavefront_collector_for.Processors.Rates.Cached.{Round, Round-process}
use wavefront_collector_for.Metrics.Catalog.Resource.{
  metric_cpu_request, metric_cpu_limit, metric_memory_request, metric_memory_limit,
}
use wavefront_collector_for.Processors.Enriching.{Container}
use wavefront_collector_for.Processors.Enriching.Pods.{
  int_value, update_resources, milli_of, whole_of,
}
use wavefront_collector_for.Processors.Enriching.Resources.{lookup-update_resources}
use wavefront_collector_for.Sources.Summary.{PointConverter, Converted, convert_values}
use wavefront_collector_for.Sources.Summary
use wavefront_collector_for.Sources.Summary.Counted.{set_numbers, Grown-process}
use wavefront_collector_for.Sources.Summary.Shared.{
  with_filter, accepts, filtered, point_with, points_with, metrics-convert_values_filtered,
}

abbrev count_of : ℕ → Value ℕ
count_of n = record { int_value = n; float_value = 0; value_type = value_int64 }

abbrev disk_reads : String → ℕ → LabeledValue ℕ
disk_reads disk n = record {
  name = "disk/io_read_bytes";
  labels = ("resource_id", disk) ∷ [];
  value = count_of n;
}

abbrev earlier : MetricSet ℕ
earlier = record {
  collection_start_time = 5;
  entity_create_time = 5;
  scrape_time = 1000;
  values = ("cpu/usage", count_of 4000) ∷ ("network/rx", count_of 70) ∷ [];
  labels = ("type", "node") ∷ ("hostname", "node-1") ∷ [];
  labeled_values = disk_reads "sda" 10 ∷ disk_reads "sdb" 20 ∷ [];
}

abbrev later : MetricSet ℕ
later = record earlier {
  scrape_time = 1500;
  values = ("cpu/usage", count_of 4250) ∷ ("network/rx", count_of 90) ∷ [];
  labeled_values = disk_reads "sda" 40 ∷ disk_reads "sdc" 20 ∷ [];
}

lookup-add_rates_example :
    lookup "cpu/usage_rate" (add_rates rate_metrics_mapping earlier later).values
    ≡ first_of
        (rate_for "cpu/usage_rate" rate_metrics_mapping earlier later)
        (lookup "cpu/usage_rate" later.values)
lookup-add_rates_example = lookup-add_rates "cpu/usage_rate" rate_metrics_mapping earlier later refl

abbrev sets : Sets ℕ
sets = ("node:node-1", later) ∷ ("node:node-2", later) ∷ []

abbrev calculator : RateCalculator ℕ
calculator = record {
  rate_metrics_mapping = rate_metrics_mapping;
  previous_metric_sets = ("node:node-1", earlier) ∷ ("node:node-9", earlier) ∷ [];
  cache_prune_interval = 300;
  last_prune_time = 1000;
}

Distinct-sets : Distinct sets
unfolding lookup
Distinct-sets = (refl, (refl, tt))

Round-process_example :
    Round rate_metrics_mapping 1600 1300
      (lookup "node:node-1" sets)
      (lookup "node:node-1" calculator.previous_metric_sets)
      (lookup "node:node-1" (process 1600 1601 sets calculator).0)
      (lookup "node:node-1" (process 1600 1601 sets calculator).1.previous_metric_sets)
Round-process_example = Round-process "node:node-1" 1600 1601 sets calculator Distinct-sets

-- points of node-1 only, without the tag that says so
abbrev by_node : GlobFilter
by_node = record {
  metric_allow_list = none;
  metric_deny_list = none;
  metric_tag_allow_list = some (("hostname", λ s. s == "node-1") ∷ []);
  metric_tag_deny_list = none;
  tag_include = none;
  tag_exclude = some (λ s. s == "hostname");
}

abbrev converter : PointConverter
converter = record { cluster = "prod"; prefix = "kubernetes."; filters = some by_node }

abbrev batch : Batch ℕ
batch = record { timestamp = 2 ^ 66; sets = sets; metrics = [] }

-- all labeled values of a set share a map, or each has its own
abbrev one_map : String → ℕ → ℕ
one_map key n = 0

abbrev own_maps : String → ℕ → ℕ
own_maps key n = n

-- without the tag of the node, and without the limits
abbrev no_limits : GlobFilter
no_limits = record {
  metric_allow_list = none;
  metric_deny_list = some (λ s. s == "kubernetes.node.filesystem.limit");
  metric_tag_allow_list = none;
  metric_tag_deny_list = none;
  tag_include = none;
  tag_exclude = some (λ s. s == "hostname");
}

abbrev filesystem : Batch ℕ
filesystem = record {
  timestamp = 2 ^ 66;
  sets =
      (
        "node:node-1",
        record later {
          values = [];
          labeled_values =
              record {
                name = "filesystem/usage";
                labels = ("resource_id", "/") ∷ [];
                value = count_of 3;
              }
              ∷ record {
                name = "filesystem/limit";
                labels = ("resource_id", "/") ∷ [];
                value = count_of 9;
              }
              ∷ [];
        },
      )
      ∷ [];
  metrics = [];
}

tags_sent : (String → ℕ → ℕ) → List (Map String)
unfolding Summary.process tags
tags_sent address =
    map tags
      (Summary.process (record converter { filters = some no_limits }) "" address
        filesystem).0.metrics

-- a point loses the tag that the filter excludes
excluded_with_own_maps : tags_sent own_maps ≡ (("resource_id", "/") ∷ ("type", "node") ∷ []) ∷ []
unfolding tags_sent match_metric match_tag sort_by contains lookup insert filter name new_point
    Summary.clean_metric_name replace filter_tags copy_into Point.filter_tags filter_keys keep
excluded_with_own_maps = refl

-- where the point after it shares its map, and is dropped, the excluded tag is back
excluded_with_one_map :
    tags_sent one_map ≡ (("resource_id", "/") ∷ ("type", "node") ∷ ("hostname", "node-1") ∷ []) ∷ []
unfolding tags_sent match_metric match_tag sort_by contains lookup insert filter name new_point
    Summary.clean_metric_name replace filter_tags copy_into Point.filter_tags filter_keys keep
excluded_with_one_map = refl

Grown-process_example :
    let (after, done) = Summary.process converter "" one_map batch in
    (done.collected ≡ sum_of (λ entry. set_numbers entry.1) batch.sets)
    × (length after.metrics + done.filtered ≡ length batch.metrics + done.collected)
Grown-process_example = Grown-process converter "" one_map batch

abbrev node_tags : Map String
node_tags = ("hostname", "node-1") ∷ ("type", "node") ∷ []

abbrev nothing : Converted ℕ
nothing = record { metrics = []; collected = 0; filtered = 0 }

accepted_first :
    accepts {F = ℕ} by_node
      (point_with converter by_node "" 7 "node" "node-1" node_tags "cpu/usage" 4250)
    ≡ true
unfolding match_metric matches_tags lookup tags tags_of copy_into insert new_point name
accepted_first = refl

-- the second value is not sent, though it belongs to the same node
metrics-convert_values_filtered_example :
    (convert_values
      (with_filter converter by_node)
      ""
      7
      "node"
      "node-1"
      (("cpu/usage", count_of 4250) ∷ ("network/rx", count_of 90) ∷ [])
      node_tags
      nothing).0.metrics
    ≡ nothing.metrics
      ++ (filtered by_node
            (point_with converter by_node "" 7 "node" "node-1" node_tags "cpu/usage" 4250)
          ∷ keep (accepts by_node) (
              points_with converter by_node "" 7 "node" "node-1"
                (filter_keys (match_tag by_node) node_tags)
                (("network/rx", count_of 90) ∷ [])))
metrics-convert_values_filtered_example =
    metrics-convert_values_filtered converter by_node "" 7 "node" "node-1" node_tags "cpu/usage"
      (count_of 4250) 4250 (("network/rx", count_of 90) ∷ []) nothing refl accepted_first

abbrev shop : Container
shop = record {
  name = "shop";
  image = "shop:1";
  requests =
      ("memory", record { value = 256; milli_value = 256000 })
      ∷ ("example.com/gpu", record { value = 1; milli_value = 1000 })
      ∷ [];
  limits = ("cpu", record { value = 1; milli_value = 500 }) ∷ [];
}

Distinct-requests : Distinct shop.requests
unfolding lookup
Distinct-requests = (refl, (refl, tt))

lookup-update_resources_example :
    let values = (update_resources shop later).values in
    (lookup metric_cpu_request.name values
      ≡ some (int_value (milli_of (lookup "cpu" shop.requests))))
    × (lookup metric_memory_request.name values
        ≡ some (int_value (whole_of (lookup "memory" shop.requests))))
    × (lookup metric_cpu_limit.name values ≡ some (int_value (milli_of (lookup "cpu" shop.limits))))
    × (lookup metric_memory_limit.name values
        ≡ some (int_value (whole_of (lookup "memory" shop.limits))))
lookup-update_resources_example = lookup-update_resources shop later Distinct-requests
