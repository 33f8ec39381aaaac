-- ===== src/Flush.antt =====
-- plugins/manager/manager.go, with run, rotateResponse and GetPendingMetrics of
-- plugins/sources/manager.go: the batches that were scraped are combined, processed and exported. A
-- processor is a function of the batch that may fail; the sink is a function of the batch.
pub mod Combined
pub mod Exported
use wavefront_collector_for.Prelude.{
  ℕ, String, List, [], ◌∷◌, ◌++◌, Option, none, some, ltb, and_then,
}
use wavefront_collector_for.Prelude.Maps.{Map, copy_into}
use wavefront_collector_for.Prelude.Sort.{sort_by}
use wavefront_collector_for.Prelude.Result.{Result, ok, err}
use wavefront_collector_for.Wf.Metric.{Batch}

abbrev pub ok_of : {E A : Type 0} → Result E A → Option A
ok_of (ok a) = some a
ok_of (err e) = none

module _ {F : Type 0} where
  -- the body of the loop of run, for a batch that is not nil
  unfoldable pub receive : Batch F → List (Batch F) → List (Batch F)
  receive b response = response ++ b ∷ []

  -- GetPendingMetrics: the batches in the order of their timestamps, and the response afterwards. Of
  -- equal timestamps the first stays first, one of the orders that sort.Slice may give.
  unfoldable pub get_pending_metrics : List (Batch F) → List (Batch F) × List (Batch F)
  get_pending_metrics response = (sort_by (λ a b. ltb a.timestamp b.timestamp) response, [])

  abbrev pub empty_batch : Batch F
  empty_batch = record { timestamp = 0; sets = []; metrics = [] }

  unfoldable pub combine_metric_sets : Batch F → Batch F → Batch F
  combine_metric_sets src dst = record {
    timestamp = src.timestamp;
    sets = copy_into src.sets dst.sets;
    metrics = dst.metrics ++ src.metrics;
  }

  -- the first loop of push
  unfoldable pub combine_all : List (Batch F) → Batch F → Batch F
  unfolding combine_metric_sets
  combine_all [] combined = combined
  combine_all (data_batch ∷ batches) combined =
      combine_all batches (combine_metric_sets data_batch combined)

abbrev pub Processor : Type 0 → Type 0 → Type 0
Processor E F = Batch F → Result E (Batch F)

module _ {E F : Type 0} where
  -- the second loop of push: `none` where an error ends it
  unfoldable pub process_all : List (Processor E F) → Batch F → Option (Batch F)
  unfolding and_then
  process_all [] combined = some combined
  process_all (p ∷ processors) combined =
      and_then (ok_of (p combined)) (λ processed. process_all processors processed)

  -- push, with the export of a sink whose state is S: the response and the sink afterwards
  unfoldable pub push :
      {S : Type 0}
      → List (Processor E F)
      → (Batch F → S → S)
      → List (Batch F)
      → S
      → List (Batch F) × S
  unfolding get_pending_metrics combine_all process_all
  push processors export response sink =
      let (data_batches, response') = get_pending_metrics response in
      (
        response',
        elim (process_all processors (combine_all data_batches empty_batch)) [
          | none ↦ sink
          | some batch ↦ export batch sink
        ],
      )
