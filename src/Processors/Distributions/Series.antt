-- ===== src/Processors/Distributions/Series.antt =====
-- Which distribution of a batch the next batch is compared with.
use wavefront_collector_for.Prelude.{
  ℕ, ◌∙◌, String, List, [], ◌∷◌, Option, none, some, true, ◌≡◌, ◌==◌, eq_iff, arith, is_some,
  if◌then◌else◌,
}
use wavefront_collector_for.Prelude.Maps.{Map, lookup, lookup-insert, first_of}
use wavefront_collector_for.Float64.{Float64}
use wavefront_collector_for.Wf.Distribution.{Distribution, clone, key}
use wavefront_collector_for.Wf.Metric.{Metric}
use wavefront_collector_for.Processors.Distributions.{Calculation, calculate, calculate_all}

module _ {F : Type 0} ⦃fl : Float64 F⦄ (sum256 : String → String) where
  -- the first distribution of the batch with this key
  unfoldable pub first_with : String → List (Metric F) → Option (Distribution F)
  first_with k [] = none
  first_with k (Metric.point p ∷ ms) = first_with k ms
  first_with k (Metric.distribution d ∷ ms) =
      if key sum256 d == k then some (clone d) else first_with k ms

  abbrev remembered : String → List (Metric F) → Calculation F → Option (Distribution F)
  remembered k ms s =
      if is_some (lookup k s.seen)
      then lookup k s.prev_distributions
      else first_of (first_with k ms) (lookup k s.prev_distributions)

  calculate-remembered :
      (k : String) (d : Distribution F) (ms : List (Metric F)) (s : Calculation F)
      → remembered k ms (calculate sum256 d s).1 ≡ remembered k (Metric.distribution d ∷ ms) s
  unfolding calculate first_with
  calculate-remembered k d ms s = ground (
    arith,
    lookup-insert (key sum256 d) k (clone d) s.prev_distributions,
    lookup-insert (key sum256 d) k true s.seen,
    eq_iff (key sum256 d) k,
  )

  prev-calculate_all :
      (k : String) (ms : List (Metric F)) (s : Calculation F)
      → lookup k (calculate_all sum256 ms s).1.prev_distributions ≡ remembered k ms s
  unfolding calculate_all first_with
  prev-calculate_all k [] s = ground arith
  prev-calculate_all k (Metric.point p ∷ ms) s = prev-calculate_all k ms s
  prev-calculate_all k (Metric.distribution d ∷ ms) s =
      prev-calculate_all k ms (calculate sum256 d s).1 ∙ calculate-remembered k d ms s

  -- After a batch the calculator holds, for each key, the first distribution of the batch that has
  -- it, and the one that it held before if the batch has none: a duplicate is never remembered.
  pub prev_distributions-calculate_all :
      (k : String) (ms : List (Metric F)) (prev : Map (Distribution F)) (duplicates : Map ℕ)
      → lookup k
          (calculate_all sum256 ms (record {
            prev_distributions = prev;
            seen = [];
            duplicates = duplicates;
          })).1.prev_distributions
        ≡ first_of (first_with k ms) (lookup k prev)
  unfolding lookup
  prev_distributions-calculate_all k ms prev duplicates =
      prev-calculate_all k ms
        (record { prev_distributions = prev; seen = []; duplicates = duplicates })
