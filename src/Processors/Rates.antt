-- ===== src/Processors/Rates.antt =====
-- plugins/processors/rate_calculator.go: the rates of change of the metrics of a set, against the set
-- that the same resource had before. A cache keeps a pointer to the earlier set, which later
-- processors may have changed since: the theorems hold for whatever set stands there. An int64 is its
-- 64 bits. Two times whose distance is a multiple of 2 ^ 64 nanoseconds would divide by zero.
pub mod Computed
pub mod Cached
pub mod Disks
pub mod Signed
use wavefront_collector_for.Prelude.{
  ℕ, ◌+◌, ◌-◌, ◌*◌, ◌/◌, ◌%◌, ◌^◌, String, List, [], ◌∷◌, ◌++◌, Option, none, some, Bool, true,
  false, not, ◌&&◌, ◌||◌, ◌==◌, eqb, ltb, is_some, or_else, if◌then◌else◌,
}
use wavefront_collector_for.Prelude.Maps.{Map, lookup, insert}
use wavefront_collector_for.Float64.{Float64}
use wavefront_collector_for.Metrics.Labels.{label_resource_id}
use wavefront_collector_for.Metrics.Types.{
  MetricDescriptor, MetricSet, Sets, Value, LabeledValue, value_int64, value_float, same_type,
}
use wavefront_collector_for.Metrics.Catalog.Standard.{metric_cpu_usage}
use wavefront_collector_for.Metrics.Catalog.Labeled.{metric_disk_io_read, metric_disk_io_write}

-- the difference of two int64
abbrev pub sub64 : ℕ → ℕ → ℕ
sub64 a b = (a + (2 ^ 64 - b)) % 2 ^ 64

abbrev pub is_negative : ℕ → Bool
is_negative a = not (ltb a (2 ^ 63))

abbrev pub abs64 : ℕ → ℕ
abs64 a = if is_negative a then 2 ^ 64 - a else a

-- the quotient of two int64, towards zero
unfoldable pub div64 : ℕ → ℕ → ℕ
div64 a b =
    let q = abs64 a / abs64 b in
    if is_negative a
    then (if is_negative b then q % 2 ^ 64 else (2 ^ 64 - q) % 2 ^ 64)
    else if is_negative b
    then (2 ^ 64 - q) % 2 ^ 64
    else q % 2 ^ 64

abbrev pub resource_of : Map String → String
resource_of labels = or_else (lookup label_resource_id.key labels) ""

abbrev pub is_disk : String → Bool
is_disk name = name == metric_disk_io_read.name || name == metric_disk_io_write.name

module _ {F : Type 0} where
  -- newMs.ScrapeTime.UnixNano() - oldMs.ScrapeTime.UnixNano(), for a later newMs
  abbrev pub elapsed : MetricSet F → MetricSet F → ℕ
  elapsed old_ms new_ms = (new_ms.scrape_time - old_ms.scrape_time) % 2 ^ 64

module _ {F : Type 0} ⦃f : Float64 F⦄ where
  -- 1e9 * float64(new - old) / float64(elapsed)
  unfoldable pub float_rate : Value F → Value F → ℕ → Value F
  float_rate old new nanos = record {
    int_value = 0;
    float_value =
        f.div (f.mul (f.of_int64 1000000000) (f.of_int64 (sub64 new.int_value old.int_value)))
          (f.of_int64 nanos);
    value_type = value_float;
  }

  -- 1000 * (new - old) / elapsed
  unfoldable pub cpu_rate : Value F → Value F → ℕ → Value F
  unfolding div64
  cpu_rate old new nanos = record {
    int_value = div64 ((1000 * sub64 new.int_value old.int_value) % 2 ^ 64) nanos;
    float_value = f.zero;
    value_type = value_int64;
  }

  abbrev pub both_found :
      String → MetricDescriptor → ℕ → Option (Value F) → Option (Value F) → Option (Value F)
  both_found name target nanos (some old) (some new) =
      if name == metric_cpu_usage.name
      then some (cpu_rate old new nanos)
      else if same_type target.value_type value_float
      then some (float_rate old new nanos)
      else none
  both_found name target nanos _ _ = none

  -- the rate that a metric of the values has, if it has one
  unfoldable pub value_rate :
      String → MetricDescriptor → MetricSet F → MetricSet F → Option (Value F)
  value_rate name target old_ms new_ms =
      both_found name target (elapsed old_ms new_ms) (lookup name old_ms.values)
        (lookup name new_ms.values)

  abbrev pub put_value : String → Option (Value F) → Map (Value F) → Map (Value F)
  put_value name none values = values
  put_value name (some v) values = insert name v values

  -- the loop over the old labeled values, which stops at the first that fits
  unfoldable pub find_old : String → Map String → List (LabeledValue F) → Option (Value F)
  find_old name labels [] = none
  find_old name labels (item ∷ items) =
      if item.name == name && resource_of item.labels == resource_of labels
      then some item.value
      else find_old name labels items

  abbrev labeled_rate :
      MetricDescriptor → ℕ → LabeledValue F → Option (Value F) → List (LabeledValue F)
  labeled_rate target nanos item none = []
  labeled_rate target nanos item (some old) =
      if same_type target.value_type value_float
      then record {
        name = target.name;
        labels = item.labels;
        value = float_rate old item.value nanos;
      }
        ∷ []
      else []

  -- the loop over the new labeled values, which was entered with the slice as it stood
  unfoldable pub labeled_rates :
      String
      → MetricDescriptor
      → ℕ
      → List (LabeledValue F)
      → List (LabeledValue F)
      → List (LabeledValue F)
  unfolding find_old
  labeled_rates name target nanos olds [] = []
  labeled_rates name target nanos olds (item ∷ items) =
      let rest = labeled_rates name target nanos olds items in
      if item.name == name
      then labeled_rate target nanos item (find_old name item.labels olds) ++ rest
      else rest

  -- one round of the loop over the mapping
  unfoldable pub add_rate : String → MetricDescriptor → MetricSet F → MetricSet F → MetricSet F
  unfolding labeled_rates value_rate
  add_rate name target old_ms new_ms =
      if is_disk name
      then record new_ms {
        labeled_values =
            new_ms.labeled_values
            ++ labeled_rates name target (elapsed old_ms new_ms) old_ms.labeled_values
                new_ms.labeled_values;
      }
      else record new_ms {
        values = put_value target.name (value_rate name target old_ms new_ms) new_ms.values;
      }

  unfoldable pub add_rates : Map MetricDescriptor → MetricSet F → MetricSet F → MetricSet F
  unfolding add_rate
  add_rates [] old_ms new_ms = new_ms
  add_rates ((name, target) ∷ mapping) old_ms new_ms =
      add_rates mapping old_ms (add_rate name target old_ms new_ms)

pub record RateCalculator (F : Type 0) : Type 0 where
  pub rate_metrics_mapping : Map MetricDescriptor
  pub previous_metric_sets : Sets F
  pub cache_prune_interval : ℕ
  pub last_prune_time : ℕ

module _ {F : Type 0} ⦃f : Float64 F⦄ where
  -- five minutes, and the time
  unfoldable pub new_rate_calculator : Map MetricDescriptor → ℕ → RateCalculator F
  new_rate_calculator mapping now = record {
    rate_metrics_mapping = mapping;
    previous_metric_sets = [];
    cache_prune_interval = 300000000000;
    last_prune_time = now;
  }

  -- the set afterwards, and what is cached for its key
  abbrev pub rated :
      Map MetricDescriptor → Option (MetricSet F) → MetricSet F → MetricSet F × MetricSet F
  rated mapping none new_ms = (new_ms, new_ms)
  rated mapping (some old_ms) new_ms =
      if not (ltb old_ms.scrape_time new_ms.scrape_time)
      then (new_ms, old_ms)
      else if not (eqb new_ms.collection_start_time old_ms.collection_start_time)
      then (new_ms, new_ms)
      else let done = add_rates mapping old_ms new_ms in (done, done)

  unfoldable pub process_sets : Map MetricDescriptor → Sets F → Sets F → Sets F × Sets F
  process_sets mapping [] previous = ([], previous)
  process_sets mapping ((key, new_ms) ∷ sets) previous =
      let (done, cached) = rated mapping (lookup key previous) new_ms in
      let (rest, final) = process_sets mapping sets (insert key cached previous) in
      ((key, done) ∷ rest, final)

  unfoldable pub prune : Sets F → Sets F → Sets F
  prune sets [] = []
  prune sets ((key, ms) ∷ previous) =
      let rest = prune sets previous in if is_some (lookup key sets) then (key, ms) ∷ rest else rest

  -- `now` is read for the test, and `pruned` when the cache was pruned
  unfoldable pub process : ℕ → ℕ → Sets F → RateCalculator F → Sets F × RateCalculator F
  unfolding process_sets prune
  process now pruned sets rc =
      let (done, previous) = process_sets rc.rate_metrics_mapping sets rc.previous_metric_sets in
      if ltb (rc.last_prune_time + rc.cache_prune_interval) now
      then (
        done,
        record rc { previous_metric_sets = prune sets previous; last_prune_time = pruned },
      )
      else (done, record rc { previous_metric_sets = previous })
