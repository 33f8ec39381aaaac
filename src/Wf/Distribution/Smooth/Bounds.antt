-- ===== src/Wf/Distribution/Smooth/Bounds.antt =====
-- The index below 0 of ToFrequency.
use wavefront_collector_for.Prelude.{
  List, [], ◌∷◌, none, some, true, false, ◌≡◌, refl, is_some, is_some-and_then, is_some-map, arith,
}
use wavefront_collector_for.Float64.{Float64}
use wavefront_collector_for.Wf.Distribution.{
  Centroid, Distribution, new_distribution, derive_after, derive_centroids,
}
use wavefront_collector_for.Wf.Distribution.Smooth.{
  smooth_bucket, smooth_from, smallest_count_above_zero, smooth_centroids, to_frequency,
}

module _ {F : Type 0} ⦃fl : Float64 F⦄ where
  smooth_from-is_some_after :
      (amplification before : F) (cs counts : List (Centroid F))
      → is_some (smooth_from amplification (some before) cs counts) ≡ true
  unfolding smooth_from smooth_bucket
  smooth_from-is_some_after amplification before [] counts = refl
  smooth_from-is_some_after amplification before (c ∷ cs) counts =
      is_some-and_then _ _ (ground arith) (smooth_from-is_some_after amplification c.value cs)

  smooth_from-is_some :
      (amplification : F) (c : Centroid F) (cs counts : List (Centroid F))
      → fl.eq c.value fl.inf ≡ false
      → is_some (smooth_from amplification none (c ∷ cs) counts) ≡ true
  unfolding smooth_from smooth_bucket
  smooth_from-is_some amplification c cs counts h =
      is_some-and_then _ _ (ground (arith, h)) (smooth_from-is_some_after amplification c.value cs)

  smooth_centroids-is_some :
      (c : Centroid F) (cs : List (Centroid F))
      → fl.eq c.value fl.inf ≡ false
      → is_some (smooth_centroids (derive_centroids (c ∷ cs))) ≡ true
  unfolding smooth_centroids derive_centroids
  smooth_centroids-is_some c cs h = ground (
    arith,
    h,
    smooth_from-is_some
        (fl.max fl.one (fl.div fl.one (smallest_count_above_zero (derive_centroids (c ∷ cs)))))
        (record { value = c.value; count = c.count }) (derive_after c.count cs) [] h,
  )

  -- If the first bound of a distribution is not +Inf, ToFrequency does not panic, whatever its other
  -- bounds and its counts are.
  pub to_frequency-is_some :
      (d : Distribution F) (c : Centroid F) (cs : List (Centroid F))
      → d.centroids ≡ c ∷ cs
      → fl.eq c.value fl.inf ≡ false
      → is_some (to_frequency d) ≡ true
  unfolding to_frequency
  to_frequency-is_some d c cs e h = ground (
    arith,
    e,
    smooth_centroids-is_some c cs h,
    is_some-map (λ cs'. new_distribution false d.name d.source d.tags cs' d.timestamp)
        (smooth_centroids (derive_centroids d.centroids)),
  )
