-- ===== src/Processors/Rates/Cached.antt =====
-- What a round of the rate calculator makes of each set, and what it keeps for the next round.
use wavefront_collector_for.Prelude.{
  ℕ, ◌≤◌, ◌<◌, ◌≢◌, eqb, ◌+◌, String, [], ◌∷◌, Option, none, some, ◌==◌, ◌≡◌, ◌∙◌, refl, ap, sym,
  inl, inr, is_some, ltb, arith, eq_iff, Bool-cases, if◌then◌else◌,
}
use wavefront_collector_for.Prelude.Maps.{Map, lookup, insert, lookup-insert, Distinct}
use wavefront_collector_for.Float64.{Float64}
use wavefront_collector_for.Metrics.Types.{MetricDescriptor, MetricSet, Sets}
use wavefront_collector_for.Processors.Rates.{
  RateCalculator, add_rates, rated, process_sets, prune, process,
}

module _ {F : Type 0} ⦃f : Float64 F⦄ where
  -- what a key of the batch is given, against the set cached for the key
  abbrev given :
      Map MetricDescriptor → Option (MetricSet F) → Option (MetricSet F) → Option (MetricSet F)
  given mapping cached none = none
  given mapping cached (some ms) = some (rated mapping cached ms).0

  -- what is cached for a key afterwards, where the cache is not pruned
  abbrev cached_after :
      Map MetricDescriptor → Option (MetricSet F) → Option (MetricSet F) → Option (MetricSet F)
  cached_after mapping cached none = cached
  cached_after mapping cached (some ms) = some (rated mapping cached ms).1

  lookup-process_sets :
      (k : String) (mapping : Map MetricDescriptor) (sets previous : Sets F)
      → Distinct sets
      → (lookup k (process_sets mapping sets previous).0
          ≡ given mapping (lookup k previous) (lookup k sets))
        × (lookup k (process_sets mapping sets previous).1
            ≡ cached_after mapping (lookup k previous) (lookup k sets))
  unfolding process_sets lookup
  lookup-process_sets k mapping [] previous d = (refl, refl)
  lookup-process_sets k mapping ((key, ms) ∷ sets) previous d =
      let after = insert key (rated mapping (lookup key previous) ms).1 previous in
      let ih = lookup-process_sets k mapping sets after d.1 in
      let l = lookup-insert key k (rated mapping (lookup key previous) ms).1 previous in
      elim (Bool-cases (key == k)) [
        | inl e ↦
            let q = (eq_iff key k).0 e in
            let absent : lookup k sets ≡ none = rw (sym q) d.0 in
            let fresh = l ∙ rw e refl in
            (
              rw e (ap (λ j. some (rated mapping (lookup j previous) ms).0) q),
              rw e (
                  ih.1
                  ∙ rw (absent, fresh) (ap (λ j. some (rated mapping (lookup j previous) ms).1) q)),
            )
        | inr e ↦
            let same = l ∙ rw e refl in (rw e (ih.0 ∙ rw same refl), rw e (ih.1 ∙ rw same refl))
      ]

  lookup-prune :
      (k : String) (sets previous : Sets F)
      → lookup k (prune sets previous)
        ≡ (if is_some (lookup k sets) then lookup k previous else none)
  unfolding prune lookup
  lookup-prune k sets [] = ground arith
  lookup-prune k sets ((key, ms) ∷ previous) =
      ground (arith, lookup-prune k sets previous, eq_iff key k)

  cached_after-absent :
      (mapping : Map MetricDescriptor) (cached o : Option (MetricSet F))
      → cached_after mapping cached o
        ≡ (if is_some o then cached_after mapping cached o else cached)
  cached_after-absent mapping cached none = refl
  cached_after-absent mapping cached (some ms) = refl

  lookup-process :
      (k : String) (now pruned : ℕ) (sets : Sets F) (rc : RateCalculator F)
      → Distinct sets
      → let cached = lookup k rc.previous_metric_sets in
        (lookup k (process now pruned sets rc).0
          ≡ given rc.rate_metrics_mapping cached (lookup k sets))
        × (lookup k (process now pruned sets rc).1.previous_metric_sets ≡ (
            if is_some (lookup k sets)
            then cached_after rc.rate_metrics_mapping cached (lookup k sets)
            else if ltb (rc.last_prune_time + rc.cache_prune_interval) now
            then none
            else cached))
  unfolding process
  lookup-process k now pruned sets rc d =
      let each = lookup-process_sets k rc.rate_metrics_mapping sets rc.previous_metric_sets d in
      elim (Bool-cases (ltb (rc.last_prune_time + rc.cache_prune_interval) now)) [
        | inl due ↦ rw due (
          each.0,
          lookup-prune k sets _ ∙ ap (λ o. if is_some (lookup k sets) then o else none) each.1,
        )
        | inr early ↦ rw early (
          each.0,
          each.1
              ∙ cached_after-absent rc.rate_metrics_mapping (lookup k rc.previous_metric_sets)
                  (lookup k sets),
        )
      ]

module _ {F : Type 0} ⦃f : Float64 F⦄ where
  -- What becomes of a set against the set cached for its key: the set afterwards, and what is cached then.
  pub data Rated (mapping : Map MetricDescriptor) (new : MetricSet F)
      : Option (MetricSet F) → MetricSet F → MetricSet F → Type 0 where
    first : Rated mapping new none new new
    not_later :
        (old : MetricSet F)
        → new.scrape_time ≤ old.scrape_time
        → Rated mapping new (some old) new old
    restarted :
        (old : MetricSet F)
        → old.scrape_time < new.scrape_time
        → new.collection_start_time ≢ old.collection_start_time
        → Rated mapping new (some old) new new
    compared :
        (old : MetricSet F)
        → old.scrape_time < new.scrape_time
        → new.collection_start_time ≡ old.collection_start_time
        → Rated mapping new (some old) (add_rates mapping old new) (add_rates mapping old new)

  -- What becomes of a key: of the set that the batch has under it, against the set cached for it, the set
  -- of the batch afterwards, and what is cached then.
  pub data Round (mapping : Map MetricDescriptor) (now expiry : ℕ)
      : Option (MetricSet F)
        → Option (MetricSet F)
        → Option (MetricSet F)
        → Option (MetricSet F)
        → Type 0 where
    not_in_batch :
        (cached : Option (MetricSet F))
        → now ≤ expiry
        → Round mapping now expiry none cached none cached
    expired :
        (cached : Option (MetricSet F))
        → expiry < now
        → Round mapping now expiry none cached none none
    in_batch :
        (new done kept : MetricSet F) (cached : Option (MetricSet F))
        → Rated mapping new cached done kept
        → Round mapping now expiry (some new) cached (some done) (some kept)

  rated-Rated :
      (mapping : Map MetricDescriptor) (cached : Option (MetricSet F)) (new : MetricSet F)
      → Rated mapping new cached (rated mapping cached new).0 (rated mapping cached new).1
  rated-Rated mapping none new = first
  rated-Rated mapping (some old) new = elim (Bool-cases (ltb old.scrape_time new.scrape_time)) [
    | inr e ↦ rw e (not_later old (ground (arith, e)))
    | inl e ↦ elim (Bool-cases (eqb new.collection_start_time old.collection_start_time)) [
      | inr t ↦ rw (e, t) (restarted old (ground (arith, e)) (λ same. ground (arith, t, same)))
      | inl t ↦ rw (e, t) (compared old (ground (arith, e)) (ground (arith, t)))
    ]
  ]

  Round-given :
      (mapping : Map MetricDescriptor) (now expiry : ℕ) (o cached : Option (MetricSet F))
      → Round mapping now expiry o cached (given mapping cached o) (
          if is_some o
          then cached_after mapping cached o
          else if ltb expiry now
          then none
          else cached)
  Round-given mapping now expiry (some new) cached =
      in_batch new _ _ cached (rated-Rated mapping cached new)
  Round-given mapping now expiry none cached = elim (Bool-cases (ltb expiry now)) [
    | inl e ↦ rw e (expired cached (ground (arith, e)))
    | inr e ↦ rw e (not_in_batch cached (ground (arith, e)))
  ]

  -- After a round over a batch, a set of the batch is as it was, and cached, where none was cached for its
  -- key; as it was, and the earlier one still cached, where it was not scraped strictly later; as it was,
  -- and cached, where the collection started at another time. Else it has the rates against the cached
  -- set, and is cached with them. For a key that the batch lacks the cache holds what it held before, or
  -- nothing once the prune interval has passed.
  pub Round-process :
      (k : String) (now pruned : ℕ) (sets : Sets F) (rc : RateCalculator F)
      → Distinct sets
      → let (after, left) = process now pruned sets rc in
        Round rc.rate_metrics_mapping now
          (rc.last_prune_time + rc.cache_prune_interval)
          (lookup k sets)
          (lookup k rc.previous_metric_sets)
          (lookup k after)
          (lookup k left.previous_metric_sets)
  Round-process k now pruned sets rc d =
      let (e, e') = lookup-process k now pruned sets rc d in
      rw (e, e')
        (Round-given rc.rate_metrics_mapping now (rc.last_prune_time + rc.cache_prune_interval)
          (lookup k sets) (lookup k rc.previous_metric_sets))
