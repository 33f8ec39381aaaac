-- ===== src/Sources/State/Scrape/Autoscalers.antt =====
-- The informer of kstate/lister.go for pod autoscalers stores those of autoscaling/v2beta1, but the handler
-- wants those of v2beta2.
use wavefront_collector_for.Prelude.{String, List, [], ◌∷◌, map, Option, some, ◌≡◌, refl}
use wavefront_collector_for.Float64.{Float64}
use wavefront_collector_for.Sources.State.{Transforms, HorizontalPodAutoscaler}
use wavefront_collector_for.Sources.State.Scrape.{
  Item, hpa_v2beta1, handle_items, for_hpa, points_for_resource,
}

module _ {F : Type 0} ⦃f : Float64 F⦄ (t : Transforms) where
  nothing :
      (hpas : List HorizontalPodAutoscaler)
      → handle_items {F = F} t (for_hpa t) (map hpa_v2beta1 hpas) ≡ []
  unfolding handle_items
  nothing [] = refl
  nothing (h ∷ hpas) = nothing hpas

  -- Whatever pod autoscalers the cluster has, there is no point of any.
  pub no_points_for_autoscalers :
      (list : String → Option (List Item)) (stored : List HorizontalPodAutoscaler)
      → list "horizontalpodautoscalers" ≡ some (map hpa_v2beta1 stored)
      → points_for_resource {F = F} t list "horizontalpodautoscalers" ≡ []
  unfolding points_for_resource
  no_points_for_autoscalers list stored e = rw e (nothing stored)
