-- ===== src/Wf/Distribution/Rate.antt =====
-- Rate and CentroidRate: the change of a distribution per minute. `none` is nil.
pub mod Exact
use mathlib.Core.Option
use wavefront_collector_for.Prelude.{
  ℕ, ◌-◌, String, List, [], ◌∷◌, Option, none, some, Bool, true, false, not, ◌||◌, leb, ◌==◌, eqb,
  length, if◌then◌else◌,
}
use wavefront_collector_for.Float64.{Float64}
use wavefront_collector_for.Wf.Distribution.{Centroid, Distribution, new_distribution, key}

module _ {F : Type 0} ⦃fl : Float64 F⦄ where
  -- the loop over the two lists; `now` and `before` are the times whose difference is the duration
  unfoldable pub rate_loop :
      ℕ → ℕ → List (Centroid F) → List (Centroid F) → Option (List (Centroid F))
  rate_loop now before [] prev = some []
  rate_loop now before (c ∷ cs) [] = none
  rate_loop now before (c ∷ cs) (p ∷ ps) =
      let rest = rate_loop now before cs ps in
      if not (fl.eq c.value p.value) || (fl.lt c.count p.count || leb now before)
      then none
      else Option.map
          (λ r.
            (record {
              value = c.value;
              count = fl.div (fl.sub c.count p.count) (fl.minutes (now - before));
            })
            ∷ r)
          rest

  unfoldable pub centroid_rate :
      ℕ → ℕ → List (Centroid F) → List (Centroid F) → Option (List (Centroid F))
  unfolding rate_loop
  centroid_rate now before curr prev =
      if not (eqb (length curr) (length prev)) then none else rate_loop now before curr prev

  module _ (sum256 : String → String) where
    unfoldable pub rate : Distribution F → Option (Distribution F) → Option (Distribution F)
    rate d none = none
    rate d (some prev) =
        if not (key sum256 prev == key sum256 d)
        then none
        else Option.map (λ cs. new_distribution d.cumulative d.name d.source d.tags cs d.timestamp)
            (centroid_rate d.timestamp prev.timestamp d.centroids prev.centroids)
