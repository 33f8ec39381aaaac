-- ===== src/Flush/Combined.antt =====
-- What a combined batch holds.
use wavefront_collector_for.Prelude.{
  String, List, [], ◌∷◌, ◌++◌, Option, none, ◌≡◌, refl, sym, ◌∙◌, ap, append_assoc, append-nil, All,
}
use wavefront_collector_for.Prelude.Maps.{lookup, Distinct, first_of, lookup-copy_into}
use wavefront_collector_for.Metrics.Types.{MetricSet}
use wavefront_collector_for.Wf.Metric.{Metric, Batch}
use wavefront_collector_for.Flush.{combine_metric_sets, combine_all, empty_batch}

module _ {F : Type 0} where
  -- the set of the last batch that has one under the key
  unfoldable pub last_set : String → List (Batch F) → Option (MetricSet F) → Option (MetricSet F)
  last_set k [] o = o
  last_set k (b ∷ bs) o = last_set k bs (first_of (lookup k b.sets) o)

  unfoldable pub all_metrics : List (Batch F) → List (Metric F)
  all_metrics [] = []
  all_metrics (b ∷ bs) = b.metrics ++ all_metrics bs

  sets-combine_all :
      (k : String) (bs : List (Batch F)) (b : Batch F)
      → All (λ b. Distinct b.sets) bs
      → lookup k (combine_all bs b).sets ≡ last_set k bs (lookup k b.sets)
  unfolding combine_all last_set combine_metric_sets
  sets-combine_all k [] b d = refl
  sets-combine_all k (c ∷ bs) b d =
      sets-combine_all k bs (combine_metric_sets c b) d.1
      ∙ ap (last_set k bs) (lookup-copy_into k c.sets b.sets d.0)

  metrics-combine_all :
      (bs : List (Batch F)) (b : Batch F) → (combine_all bs b).metrics ≡ b.metrics ++ all_metrics bs
  unfolding combine_all all_metrics combine_metric_sets
  metrics-combine_all [] b = sym (append-nil b.metrics)
  metrics-combine_all (c ∷ bs) b =
      metrics-combine_all bs (combine_metric_sets c b)
      ∙ append_assoc b.metrics c.metrics (all_metrics bs)

  -- The combined batch has the metrics of all the batches, in their order, and under each key the set
  -- of the last batch that has one, where no batch has two sets under one key.
  pub combine_all_lem :
      (k : String) (bs : List (Batch F))
      → All (λ b. Distinct b.sets) bs
      → ((combine_all bs empty_batch).metrics ≡ all_metrics bs)
        × (lookup k (combine_all bs empty_batch).sets ≡ last_set k bs none)
  unfolding lookup
  combine_all_lem k bs d = (metrics-combine_all bs empty_batch, sets-combine_all k bs empty_batch d)
