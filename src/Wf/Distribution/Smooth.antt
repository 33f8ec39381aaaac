-- ===== src/Wf/Distribution/Smooth.antt =====
-- ToFrequency: a cumulative distribution as one that Wavefront takes. `none` is the panic of an index
-- below 0.
pub mod Bounds
use wavefront_collector_for.Prelude.{
  List, [], ◌∷◌, Option, none, some, Bool, true, false, not, ◌&&◌, ◌||◌, if◌then◌else◌, and_then,
}
use mathlib.Core.Option
use wavefront_collector_for.Float64.{Float64}
use wavefront_collector_for.Wf.Distribution.{
  Centroid, Distribution, new_distribution, derive_centroids,
}

module _ {F : Type 0} ⦃fl : Float64 F⦄ where
  smallest_from : F → List (Centroid F) → F
  smallest_from min_count [] = min_count
  smallest_from min_count (c ∷ cs) =
      smallest_from
        (if fl.lt fl.zero c.count && fl.lt c.count min_count then c.count else min_count) cs

  unfoldable pub smallest_count_above_zero : List (Centroid F) → F
  unfolding smallest_from
  smallest_count_above_zero cs = smallest_from fl.max_float64 cs

  -- centroidCounts[value] += count, over a map with float keys
  unfoldable pub count_up : F → F → List (Centroid F) → List (Centroid F)
  count_up value count [] = (record { value = value; count = fl.add fl.zero count }) ∷ []
  count_up value count (c ∷ cs) =
      if fl.eq c.value value
      then (record c { count = fl.add c.count count }) ∷ cs
      else c ∷ count_up value count cs

  -- the three updates for the bucket between two bounds
  unfoldable pub spread : F → F → F → List (Centroid F) → List (Centroid F)
  spread previous current actual counts =
      let lower = fl.trunc (fl.div actual fl.four) in
      let middle = fl.trunc (fl.div actual fl.two) in
      let upper = fl.trunc (fl.sub (fl.sub actual lower) middle) in
      count_up current upper
        (count_up (fl.div (fl.add current previous) fl.two) middle (count_up previous lower counts))

  -- the body of the loop, past the `continue`; `before` is the bound of the centroid before
  unfoldable pub smooth_bucket : Option F → F → F → List (Centroid F) → Option (List (Centroid F))
  smooth_bucket (some before) bound actual counts =
      some
        (spread before (if fl.eq bound fl.inf then before else bound) (fl.max fl.one actual) counts)
  smooth_bucket none bound actual counts =
      if fl.eq bound fl.inf then none else some (spread fl.zero bound (fl.max fl.one actual) counts)

  -- the test of the `continue`
  unfoldable pub skipped : F → F → Bool
  skipped bound actual = fl.le bound fl.zero || fl.eq actual fl.zero

  unfoldable pub smooth_from :
      F → Option F → List (Centroid F) → List (Centroid F) → Option (List (Centroid F))
  unfolding and_then
  smooth_from amplification before [] counts = some counts
  smooth_from amplification before (c ∷ cs) counts =
      let actual = fl.mul c.count amplification in
      and_then
        (if skipped c.value actual then some counts else smooth_bucket before c.value actual counts)
        (λ counts'. smooth_from amplification (some c.value) cs counts')

  -- `len(derivedCentroids) == 1 && derivedCentroids[0].Value == math.Inf(1)`
  unfoldable pub only_inf : List (Centroid F) → Bool
  only_inf (c ∷ []) = fl.eq c.value fl.inf
  only_inf _ = false

  unfoldable pub smooth_centroids : List (Centroid F) → Option (List (Centroid F))
  unfolding smooth_from only_inf
  smooth_centroids derived =
      if only_inf derived
      then some []
      else smooth_from (fl.max fl.one (fl.div fl.one (smallest_count_above_zero derived))) none
          derived []

  unfoldable pub to_frequency : Distribution F → Option (Distribution F)
  to_frequency d =
      if not d.cumulative
      then some d
      else Option.map (λ cs. new_distribution false d.name d.source d.tags cs d.timestamp)
          (smooth_centroids (derive_centroids d.centroids))
