-- ===== src/Processors/Rates/Disks.antt =====
-- The labeled rates that are added to a set: those of the disks.
use wavefront_collector_for.Prelude.{
  ℕ, String, List, [], ◌∷◌, ◌++◌, true, false, ◌==◌, ◌≡◌, refl, inl, inr, append_assoc, append-nil,
  arith, Bool-cases, if◌then◌else◌,
}
use wavefront_collector_for.Prelude.Maps.{Map}
use wavefront_collector_for.Float64.{Float64}
use wavefront_collector_for.Metrics.Types.{MetricDescriptor, MetricSet, LabeledValue}
use wavefront_collector_for.Processors.Rates.{elapsed, is_disk, labeled_rates, add_rate, add_rates}
use wavefront_collector_for.Processors.Rates.Computed.{
  clashes, clashes-parts, separate, scrape_time-add_rate,
}

separate-parts :
    (name : String) (target : MetricDescriptor) (mapping : Map MetricDescriptor)
    → separate ((name, target) ∷ mapping) ≡ true
    → (clashes target.name mapping ≡ false) × (separate mapping ≡ true)
separate-parts name target mapping h = (ground (arith, h), ground (arith, h))

module _ {F : Type 0} ⦃f : Float64 F⦄ where
  -- the rates of one metric
  abbrev pub disk_rates :
      String → MetricDescriptor → MetricSet F → MetricSet F → List (LabeledValue F)
  disk_rates name target old_ms new_ms =
      if is_disk name
      then labeled_rates name target (elapsed old_ms new_ms) old_ms.labeled_values
          new_ms.labeled_values
      else []

  -- the rates of all disk metrics, from the labeled values that the two sets came with
  abbrev pub all_disk_rates :
      Map MetricDescriptor → MetricSet F → MetricSet F → List (LabeledValue F)
  all_disk_rates [] old_ms new_ms = []
  all_disk_rates ((name, target) ∷ mapping) old_ms new_ms =
      disk_rates name target old_ms new_ms ++ all_disk_rates mapping old_ms new_ms

  labeled_values-add_rate :
      (name : String) (target : MetricDescriptor) (old_ms new_ms : MetricSet F)
      → (add_rate name target old_ms new_ms).labeled_values
        ≡ new_ms.labeled_values ++ disk_rates name target old_ms new_ms
  unfolding add_rate
  labeled_values-add_rate name target old_ms new_ms = elim (Bool-cases (is_disk name)) [
    | inl disk ↦ rw disk refl
    | inr other ↦ rw (other, append-nil) refl
  ]

  labeled_rates-append :
      (name : String) (t : MetricDescriptor) (nanos : ℕ) (olds a b : List (LabeledValue F))
      → labeled_rates name t nanos olds (a ++ b)
        ≡ labeled_rates name t nanos olds a ++ labeled_rates name t nanos olds b
  unfolding labeled_rates
  labeled_rates-append name t nanos olds [] b = refl
  labeled_rates-append name t nanos olds (item ∷ a) b = elim (Bool-cases (item.name == name)) [
    | inl e ↦ rw (e, labeled_rates-append name t nanos olds a b, append_assoc) refl
    | inr e ↦ rw e (labeled_rates-append name t nanos olds a b)
  ]

  labeled_rates-labeled_rates :
      (name other : String) (target t : MetricDescriptor) (m n : ℕ)
      (olds olds' items : List (LabeledValue F))
      → (target.name == other) ≡ false
      → labeled_rates other t m olds (labeled_rates name target n olds' items) ≡ []
  unfolding labeled_rates
  labeled_rates-labeled_rates name other target t m n olds olds' [] h = refl
  labeled_rates-labeled_rates name other target t m n olds olds' (item ∷ items) h =
      ground (arith, h, labeled_rates-labeled_rates name other target t m n olds olds' items h)

  labeled_rates-disk_rates :
      (name other : String) (target t : MetricDescriptor) (nanos : ℕ) (old_ms new_ms : MetricSet F)
      → (target.name == other) ≡ false
      → labeled_rates other t nanos old_ms.labeled_values (disk_rates name target old_ms new_ms)
        ≡ []
  unfolding labeled_rates
  labeled_rates-disk_rates name other target t nanos old_ms new_ms h =
      elim (Bool-cases (is_disk name)) [
        | inl disk ↦
            rw disk
              (labeled_rates-labeled_rates name other target t nanos _ old_ms.labeled_values _ _ h)
        | inr no_disk ↦ rw no_disk refl
      ]

  disk_rates-add_rate :
      (name other : String) (target t : MetricDescriptor) (old_ms new_ms : MetricSet F)
      → (target.name == other) ≡ false
      → disk_rates other t old_ms (add_rate name target old_ms new_ms)
        ≡ disk_rates other t old_ms new_ms
  disk_rates-add_rate name other target t old_ms new_ms h = elim (Bool-cases (is_disk other)) [
    | inl disk ↦
        rw
          (
            disk,
            scrape_time-add_rate name target old_ms new_ms,
            labeled_values-add_rate name target old_ms new_ms,
            labeled_rates-append other t (elapsed old_ms new_ms) old_ms.labeled_values
                new_ms.labeled_values (disk_rates name target old_ms new_ms),
            labeled_rates-disk_rates name other target t (elapsed old_ms new_ms) old_ms new_ms h,
            append-nil,
          )
          refl
    | inr no_disk ↦ rw no_disk refl
  ]

  all_disk_rates-add_rate :
      (name : String) (target : MetricDescriptor) (mapping : Map MetricDescriptor)
      (old_ms new_ms : MetricSet F)
      → clashes target.name mapping ≡ false
      → all_disk_rates mapping old_ms (add_rate name target old_ms new_ms)
        ≡ all_disk_rates mapping old_ms new_ms
  all_disk_rates-add_rate name target [] old_ms new_ms h = refl
  all_disk_rates-add_rate name target ((other, t) ∷ mapping) old_ms new_ms h =
      let (apart, rest) = clashes-parts target.name other t mapping h in
      rw
        (
          disk_rates-add_rate name other target t old_ms new_ms apart,
          all_disk_rates-add_rate name target mapping old_ms new_ms rest,
        )
        refl

  -- Where no rate has the name of another rate or of a metric of the mapping, the labeled values of a
  -- set afterwards are those that it came with, and then, for each disk metric of the mapping, a rate
  -- for each of its labeled values that has an earlier one of the same resource.
  pub labeled_values-add_rates :
      (mapping : Map MetricDescriptor) (old_ms new_ms : MetricSet F)
      → separate mapping ≡ true
      → (add_rates mapping old_ms new_ms).labeled_values
        ≡ new_ms.labeled_values ++ all_disk_rates mapping old_ms new_ms
  unfolding add_rates
  labeled_values-add_rates [] old_ms new_ms h = rw append-nil refl
  labeled_values-add_rates ((name, target) ∷ mapping) old_ms new_ms h =
      let (apart, rest) = separate-parts name target mapping h in
      rw
        (
          labeled_values-add_rates mapping old_ms (add_rate name target old_ms new_ms) rest,
          labeled_values-add_rate name target old_ms new_ms,
          all_disk_rates-add_rate name target mapping old_ms new_ms apart,
          append_assoc,
        )
        refl
