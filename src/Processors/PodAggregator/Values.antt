-- ===== src/Processors/PodAggregator/Values.antt =====
-- What one container adds to the values of its pod.
use Prim.Native.String.{◌++◌}
use text.Mathlib.TextLemmas.{append_cancel_left}
use wavefront_collector_for.Prelude.{
  String, [], ◌∷◌, Option, none, some, true, false, ◌≡◌, ◌≢◌, refl, ◌==◌, eq_iff, eq_refl, or_else,
  arith, if◌then◌else◌, Bool-cases, inl, inr, ◌∙◌,
}
use wavefront_collector_for.Prelude.Maps.{Map, lookup, insert, lookup-insert}
use wavefront_collector_for.Prelude.Result.{Result, ok, err, ◌>>=◌, >>=-eq-ok}
use wavefront_collector_for.Float64.{Float64}
use wavefront_collector_for.Metrics.Types.{Value}
use wavefront_collector_for.Metrics.Keys.{ResourceKey}
use wavefront_collector_for.Processors.PodAggregator.{
  PodError, PodValues, skipped_metric, aggregate_old, aggregate_into, aggregate_values, add_by_type,
}

required_other : (key name m : String) → name ≢ m → (key ++ name == key ++ m) ≡ false
required_other key name m ne =
    ground (arith, ne, eq_iff (key ++ name) (key ++ m), append_cancel_left key name m)

module _ {F : Type 0} ⦃fl : Float64 F⦄ (key : ResourceKey) where
  sum_other :
      (name m : String) (sum : Result PodError (Value F)) (p q : PodValues F)
      → name ≢ m
      → (sum >>= λ b. ok (record p { values = insert name b p.values })) ≡ ok q
      → lookup m q.values ≡ lookup m p.values
  sum_other name m (ok b) p q ne h =
      ground (arith, h, lookup-insert name m b p.values, eq_iff name m)
  sum_other name m (err e) p q ne h = cc

  old_other :
      (name m : String) (a v : Value F) (p q : PodValues F)
      → name ≢ m
      → aggregate_old key name a v p ≡ ok q
      → lookup m q.values ≡ lookup m p.values
  unfolding aggregate_old
  old_other name m a v p q ne h = ground (
    arith,
    h,
    lookup-insert name m a p.values,
    eq_iff name m,
    sum_other name m (add_by_type name a.value_type a v) p q ne,
  )

  abbrev round : String → Value F → PodValues F → Result PodError (PodValues F)
  round name v p =
      if skipped_metric name then ok p else aggregate_into key name v (lookup name p.values) p

  into_other :
      (name m : String) (v : Value F) (o : Option (Value F)) (p q : PodValues F)
      → name ≢ m
      → aggregate_into key name v o p ≡ ok q
      → lookup m q.values ≡ lookup m p.values
  unfolding aggregate_into
  into_other name m v none p q ne h =
      ground (arith, h, lookup-insert name m v p.values, eq_iff name m)
  into_other name m v (some a) p q ne h = old_other name m a v p q ne h

  round_other :
      (name m : String) (v : Value F) (p q : PodValues F)
      → name ≢ m
      → round name v p ≡ ok q
      → lookup m q.values ≡ lookup m p.values
  round_other name m v p q ne h =
      ground (arith, h, into_other name m v (lookup name p.values) p q ne)

  -- A metric that a container does not have is left as it is in the pod.
  pub lookup-aggregate_values :
      (m : String) (vs : Map (Value F)) (p q : PodValues F)
      → lookup m vs ≡ none
      → aggregate_values key vs p ≡ ok q
      → lookup m q.values ≡ lookup m p.values
  unfolding aggregate_values lookup
  lookup-aggregate_values m [] p q n h = ground (arith, h)
  lookup-aggregate_values m ((name, v) ∷ vs) p q n h =
      let (p', e, rest) = >>=-eq-ok (round name v p) (λ p'. aggregate_values key vs p') h in
      lookup-aggregate_values m vs p' q (ground (arith, n, eq_iff name m)) rest
      ∙ round_other name m v p p' (ground (arith, n, eq_iff name m, eq_refl name)) e

  -- the pod has this value from its own source
  abbrev pub Own : String → Value F → PodValues F → Type 0
  Own m a p =
      (lookup m p.values ≡ some a) × (or_else (lookup (key ++ m) p.require_aggregate) false ≡ false)

  Own-sum :
      (name m : String) (sum : Result PodError (Value F)) (b : Value F) (p q : PodValues F)
      → name ≢ m
      → Own m b p
      → (sum >>= λ a. ok (record p { values = insert name a p.values })) ≡ ok q
      → Own m b q
  Own-sum name m (ok a) b p q ne own h =
      ground (arith, h, own, lookup-insert name m a p.values, eq_iff name m)
  Own-sum name m (err e) b p q ne own h = cc

  Own-old :
      (name m : String) (a b v : Value F) (p q : PodValues F)
      → lookup name p.values ≡ some a
      → Own m b p
      → aggregate_old key name a v p ≡ ok q
      → Own m b q
  unfolding aggregate_old
  Own-old name m a b v p q found own h = elim (Bool-cases (name == m)) [
    | inl e ↦ ground (arith, h, own, found, lookup-insert name m a p.values, eq_iff name m)
    | inr e ↦ ground (
      arith,
      h,
      own,
      lookup-insert name m a p.values,
      e,
      Own-sum name m (add_by_type name a.value_type a v) b p q (ground (arith, e, eq_iff name m))
          own,
    )
  ]

  Own-into :
      (name m : String) (o : Option (Value F)) (b v : Value F) (p q : PodValues F)
      → lookup name p.values ≡ o
      → Own m b p
      → aggregate_into key name v o p ≡ ok q
      → Own m b q
  unfolding aggregate_into
  Own-into name m none b v p q found own h = ground (
    arith,
    h,
    own,
    found,
    lookup-insert name m v p.values,
    eq_iff name m,
    lookup-insert (key ++ name) (key ++ m) true p.require_aggregate,
    required_other key name m,
  )
  Own-into name m (some a) b v p q found own h = Own-old name m a b v p q found own h

  -- A value that the pod has from its own source is not changed by the values of a container of the
  -- pod, where they are aggregated without an error.
  pub aggregate_values-Own :
      (m : String) (a : Value F) (vs : Map (Value F)) (p q : PodValues F)
      → Own m a p
      → aggregate_values key vs p ≡ ok q
      → Own m a q
  unfolding aggregate_values
  aggregate_values-Own m a [] p q own h = ground (arith, h, own)
  aggregate_values-Own m a ((name, v) ∷ vs) p q own h =
      let (p', e, rest) = >>=-eq-ok (round name v p) (λ p'. aggregate_values key vs p') h in
      aggregate_values-Own m a vs p' q
        (ground (arith, e, own, Own-into name m (lookup name p.values) a v p p' refl own)) rest
