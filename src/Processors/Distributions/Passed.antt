-- ===== src/Processors/Distributions/Passed.antt =====
-- What becomes of the points of a batch, and when the conversion does not panic.
use mathlib.Core.Option
use wavefront_collector_for.Prelude.{
  String, List, [], ◌∷◌, Option, none, some, true, false, ◌≡◌, refl, ap, ◌∙◌, is_some,
  is_some-and_then, is_some-map, All,
}
use wavefront_collector_for.Float64.{Float64}
use wavefront_collector_for.Wf.Point.{Point}
use wavefront_collector_for.Wf.Distribution.{Centroid, Distribution}
use wavefront_collector_for.Wf.Distribution.Smooth.{to_frequency}
use wavefront_collector_for.Wf.Distribution.Smooth.Bounds.{to_frequency-is_some}
use wavefront_collector_for.Wf.Metric.{Metric}
use wavefront_collector_for.Processors.Distributions.{
  Calculation, calculate, calculate_all, append_result, convert, convert_all,
}

module _ {F : Type 0} where
  unfoldable pub points_in : List (Metric F) → List (Point F)
  points_in [] = []
  points_in (Metric.point p ∷ ms) = p ∷ points_in ms
  points_in (Metric.distribution d ∷ ms) = points_in ms

  points_in-append_result :
      (o : Option (Distribution F)) (ms : List (Metric F))
      → points_in (append_result o ms) ≡ points_in ms
  unfolding points_in
  points_in-append_result none ms = refl
  points_in-append_result (some d) ms = refl

module _ {F : Type 0} ⦃fl : Float64 F⦄ where
  -- The points of a batch pass the rate calculator unchanged and in their order.
  pub points_in-calculate_all :
      (sum256 : String → String) (ms : List (Metric F)) (s : Calculation F)
      → points_in (calculate_all sum256 ms s).0 ≡ points_in ms
  unfolding calculate_all points_in
  points_in-calculate_all sum256 [] s = refl
  points_in-calculate_all sum256 (Metric.point p ∷ ms) s =
      ap (λ ps. p ∷ ps) (points_in-calculate_all sum256 ms s)
  points_in-calculate_all sum256 (Metric.distribution d ∷ ms) s =
      points_in-append_result (calculate sum256 d s).0 _
      ∙ points_in-calculate_all sum256 ms (calculate sum256 d s).1

  -- a point, or a distribution whose first bound is not +Inf
  abbrev pub StartsFinite : Metric F → Type 0
  StartsFinite (Metric.point p) = Unit
  StartsFinite (Metric.distribution d) =
      (c : Centroid F) × (cs : List (Centroid F)) × (d.centroids ≡ c ∷ cs)
      × (fl.eq c.value fl.inf ≡ false)

  convert-is_some : (m : Metric F) → StartsFinite m → is_some (convert m) ≡ true
  convert-is_some (Metric.point p) h = refl
  convert-is_some (Metric.distribution d) (c, cs, e, h) =
      is_some-map _ (to_frequency d) ∙ to_frequency-is_some d c cs e h

  -- The conversion of a batch does not panic if every distribution of it has a first bound and that
  -- is not +Inf.
  pub convert_all-is_some :
      (ms : List (Metric F)) → All StartsFinite ms → is_some (convert_all ms) ≡ true
  unfolding convert_all
  convert_all-is_some [] h = refl
  convert_all-is_some (m ∷ ms) (h, hs) =
      is_some-and_then (convert m) (λ m'. Option.map (λ rest. m' ∷ rest) (convert_all ms))
        (convert-is_some m h)
        (λ m'. is_some-map (λ rest. m' ∷ rest) (convert_all ms) ∙ convert_all-is_some ms hs)
