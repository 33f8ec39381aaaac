-- ===== src/Wf/Distribution/Rate/Exact.antt =====
-- When two lists of centroids have a rate.
use wavefront_collector_for.Prelude.{
  ℕ, ◌<◌, ◌&&◌, not, List, [], ◌∷◌, Bool, true, false, ◌≡◌, refl, is_some, arith, length,
}
use wavefront_collector_for.Float64.{Float64}
use wavefront_collector_for.Wf.Distribution.{Centroid}
use wavefront_collector_for.Wf.Distribution.Rate.{rate_loop, centroid_rate}

module _ {F : Type 0} ⦃fl : Float64 F⦄ where
  -- the two lists have the same bounds in the same order, and no count went down
  unfoldable pub grown : List (Centroid F) → List (Centroid F) → Bool
  grown [] [] = true
  grown [] (p ∷ ps) = false
  grown (c ∷ cs) [] = false
  grown (c ∷ cs) (p ∷ ps) = fl.eq c.value p.value && (not (fl.lt c.count p.count) && grown cs ps)

  is_some-rate_loop :
      (now before : ℕ) (cs ps : List (Centroid F))
      → before < now
      → length cs ≡ length ps
      → is_some (rate_loop now before cs ps) ≡ grown cs ps
  unfolding rate_loop grown
  is_some-rate_loop now before [] [] lt e = refl
  is_some-rate_loop now before [] (p ∷ ps) lt e = ground arith
  is_some-rate_loop now before (c ∷ cs) [] lt e = ground arith
  is_some-rate_loop now before (c ∷ cs) (p ∷ ps) lt e =
      ground (arith, e, is_some-rate_loop now before cs ps lt)

  grown-length : (cs ps : List (Centroid F)) → grown cs ps ≡ true → length cs ≡ length ps
  unfolding grown
  grown-length [] [] h = refl
  grown-length [] (p ∷ ps) h = ground arith
  grown-length (c ∷ cs) [] h = ground arith
  grown-length (c ∷ cs) (p ∷ ps) h = ground (arith, h, grown-length cs ps)

  -- Where time went forward between two lists of centroids, the later one has a rate exactly if both
  -- have the same bounds in the same order and no count is below the one before.
  pub is_some-centroid_rate :
      (now before : ℕ) (cs ps : List (Centroid F))
      → before < now
      → is_some (centroid_rate now before cs ps) ≡ grown cs ps
  unfolding centroid_rate
  is_some-centroid_rate now before cs ps lt =
      ground (arith, is_some-rate_loop now before cs ps lt, grown-length cs ps)
