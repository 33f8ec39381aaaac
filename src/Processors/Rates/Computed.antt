-- ===== src/Processors/Rates/Computed.antt =====
-- The rates that are added to a set, independent of the order of the mapping.
use wavefront_collector_for.Prelude.{
  String, [], ◌∷◌, Option, none, some, Bool, true, false, not, ◌&&◌, ◌||◌, ◌==◌, ◌≡◌, ◌∙◌, refl,
  arith, eq_iff, if◌then◌else◌,
}
use wavefront_collector_for.Prelude.Maps.{Map, lookup, lookup-insert, first_of}
use wavefront_collector_for.Float64.{Float64}
use wavefront_collector_for.Metrics.Types.{MetricDescriptor, MetricSet, Value}
use wavefront_collector_for.Processors.Rates.{is_disk, value_rate, put_value, add_rate, add_rates}

-- no rate has the name of another rate, or of a metric that a rate is made from
abbrev pub clashes : String → Map MetricDescriptor → Bool
clashes name [] = false
clashes name ((other, target) ∷ mapping) =
    if target.name == name || other == name then true else clashes name mapping

pub clashes-parts :
    (name other : String) (t : MetricDescriptor) (mapping : Map MetricDescriptor)
    → clashes name ((other, t) ∷ mapping) ≡ false
    → ((name == other) ≡ false) × (clashes name mapping ≡ false)
clashes-parts name other t mapping h =
    (ground (arith, h, eq_iff name other, eq_iff other name), ground (arith, h))

abbrev pub separate : Map MetricDescriptor → Bool
separate [] = true
separate ((name, target) ∷ mapping) =
    if clashes target.name mapping then false else separate mapping

module _ {F : Type 0} ⦃f : Float64 F⦄ where
  -- the rate of that name, from the values that the two sets came with
  abbrev pub rate_for : String → Map MetricDescriptor → MetricSet F → MetricSet F → Option (Value F)
  rate_for k [] old_ms new_ms = none
  rate_for k ((name, target) ∷ mapping) old_ms new_ms =
      if target.name == k && not (is_disk name)
      then value_rate name target old_ms new_ms
      else rate_for k mapping old_ms new_ms

  lookup-put_value :
      (name k : String) (o : Option (Value F)) (m : Map (Value F))
      → lookup k (put_value name o m) ≡ (if name == k then first_of o (lookup k m) else lookup k m)
  lookup-put_value name k none m = ground arith
  lookup-put_value name k (some v) m = lookup-insert name k v m

  lookup-add_rate :
      (k name : String) (target : MetricDescriptor) (old_ms new_ms : MetricSet F)
      → lookup k (add_rate name target old_ms new_ms).values ≡ (
          if target.name == k && not (is_disk name)
          then first_of (value_rate name target old_ms new_ms) (lookup k new_ms.values)
          else lookup k new_ms.values)
  unfolding add_rate
  lookup-add_rate k name target old_ms new_ms =
      ground
        (arith, lookup-put_value target.name k (value_rate name target old_ms new_ms) new_ms.values)

  pub scrape_time-add_rate :
      (name : String) (target : MetricDescriptor) (old_ms new_ms : MetricSet F)
      → (add_rate name target old_ms new_ms).scrape_time ≡ new_ms.scrape_time
  unfolding add_rate
  scrape_time-add_rate name target old_ms new_ms = ground arith

  value_rate-same :
      (name : String) (target : MetricDescriptor) (old_ms a b : MetricSet F)
      → lookup name a.values ≡ lookup name b.values
      → a.scrape_time ≡ b.scrape_time
      → value_rate name target old_ms a ≡ value_rate name target old_ms b
  unfolding value_rate
  value_rate-same name target old_ms a b v t = rw (v, t) refl

  value_rate-add_rate :
      (other name : String) (t target : MetricDescriptor) (old_ms new_ms : MetricSet F)
      → (target.name == other) ≡ false
      → value_rate other t old_ms (add_rate name target old_ms new_ms)
        ≡ value_rate other t old_ms new_ms
  value_rate-add_rate other name t target old_ms new_ms h =
      value_rate-same other t old_ms (add_rate name target old_ms new_ms) new_ms
        (lookup-add_rate other name target old_ms new_ms ∙ rw h refl)
        (scrape_time-add_rate name target old_ms new_ms)

  rate_for-add_rate :
      (k name : String) (target : MetricDescriptor) (mapping : Map MetricDescriptor)
      (old_ms new_ms : MetricSet F)
      → clashes target.name mapping ≡ false
      → rate_for k mapping old_ms (add_rate name target old_ms new_ms)
        ≡ rate_for k mapping old_ms new_ms
  rate_for-add_rate k name target [] old_ms new_ms h = refl
  rate_for-add_rate k name target ((other, t) ∷ mapping) old_ms new_ms h =
      let (apart, rest) = clashes-parts target.name other t mapping h in
      rw
        (
          value_rate-add_rate other name t target old_ms new_ms apart,
          rate_for-add_rate k name target mapping old_ms new_ms rest,
        )
        refl

  rate_for-clashes :
      (k : String) (mapping : Map MetricDescriptor) (old_ms new_ms : MetricSet F)
      → clashes k mapping ≡ false
      → rate_for k mapping old_ms new_ms ≡ none
  rate_for-clashes k [] old_ms new_ms h = refl
  rate_for-clashes k ((other, t) ∷ mapping) old_ms new_ms h =
      ground (arith, h, rate_for-clashes k mapping old_ms new_ms)

  -- Where no rate has the name of another rate or of a metric of the mapping, each value of a set
  -- afterwards is the rate of that name, made from the values that the two sets came with, and where
  -- there is none, the value that the set came with.
  pub lookup-add_rates :
      (k : String) (mapping : Map MetricDescriptor) (old_ms new_ms : MetricSet F)
      → separate mapping ≡ true
      → lookup k (add_rates mapping old_ms new_ms).values
        ≡ first_of (rate_for k mapping old_ms new_ms) (lookup k new_ms.values)
  unfolding add_rates
  lookup-add_rates k [] old_ms new_ms h = refl
  lookup-add_rates k ((name, target) ∷ mapping) old_ms new_ms h = ground (
    arith,
    h,
    eq_iff target.name k,
    lookup-add_rates k mapping old_ms (add_rate name target old_ms new_ms),
    rate_for-add_rate k name target mapping old_ms new_ms,
    rate_for-clashes k mapping old_ms new_ms,
    lookup-add_rate k name target old_ms new_ms,
  )
