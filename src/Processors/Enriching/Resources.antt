-- ===== src/Processors/Enriching/Resources.antt =====
-- The requests and limits that a container's set has afterwards.
use Prim.Native.String.{◌++◌}
use text.Mathlib.TextLemmas.{append_cancel_right}
use wavefront_collector_for.Prelude.{
  ℕ, String, [], ◌∷◌, Option, none, some, Bool, true, false, not, ◌==◌, ◌≡◌, ◌⊎◌, ◌&&◌, ◌∙◌, refl,
  sym, ap, is_some, arith, eq_iff, if◌then◌else◌, inl, inr, Bool-cases,
}
use wavefront_collector_for.Prelude.Maps.{Map, lookup, insert, lookup-insert, Distinct}
use wavefront_collector_for.Float64.{Float64}
use wavefront_collector_for.Metrics.Types.{MetricSet, Value}
use wavefront_collector_for.Metrics.Catalog.Resource.{
  metric_cpu_request, metric_cpu_limit, metric_memory_request, metric_memory_limit,
}
use wavefront_collector_for.Processors.Enriching.{Quantity, Container}
use wavefront_collector_for.Processors.Enriching.Pods.{
  request_name, int_value, put_requests, update_resources, zero_unless, milli_of, whole_of,
}

-- what a request for a resource is worth
abbrev pub worth : String → Quantity → ℕ
worth key q = if key == "cpu" then q.milli_value else q.value

-- a metric that only the resource `key` has
abbrev Only : String → String → Type 0
Only key name = (k : String) → (request_name k == name) ≡ true → k ≡ key

apart :
    (key name k : String) → Only key name → (k == key) ≡ false → (request_name k == name) ≡ false
apart key name k only other = elim (Bool-cases (request_name k == name)) [
  | inl t ↦ let same = (eq_iff k key).1 (only k t) in cc
  | inr f ↦ f
]

request_name-cases :
    (k : String)
    → (k ≡ "cpu")
      ⊎ ((k ≡ "memory")
          ⊎ ((request_name k ≡ "ephemeral_storage/request") ⊎ (request_name k ≡ k ++ "/request")))
unfolding request_name lookup
request_name-cases k = elim (Bool-cases ("cpu" == k)) [
  | inl c ↦ inl (sym ((eq_iff "cpu" k).0 c))
  | inr c ↦ elim (Bool-cases ("memory" == k)) [
    | inl m ↦ inr (inl (sym ((eq_iff "memory" k).0 m)))
    | inr m ↦ elim (Bool-cases ("ephemeral-storage" == k)) [
      | inl e ↦ inr (inr (inl (rw (c, m, e) refl)))
      | inr e ↦ inr (inr (inr (rw (c, m, e) refl)))
    ]
  ]
]

cpu_name : request_name "cpu" ≡ metric_cpu_request.name
unfolding request_name lookup
cpu_name = refl

memory_name : request_name "memory" ≡ metric_memory_request.name
unfolding request_name lookup
memory_name = refl

Only-cpu : Only "cpu" metric_cpu_request.name
unfolding request_name lookup
Only-cpu k h = elim (request_name-cases k) [
  | inl c ↦ c
  | inr (inl m) ↦ (let clash = (rw m at h) in cc)
  | inr (inr (inl e)) ↦ (let clash = (rw e at h) in cc)
  | inr (inr (inr n)) ↦
      append_cancel_right k "cpu" "/request"
        (sym n ∙ (eq_iff (request_name k) metric_cpu_request.name).0 h)
]

Only-memory : Only "memory" metric_memory_request.name
unfolding request_name lookup
Only-memory k h = elim (request_name-cases k) [
  | inl c ↦ (let clash = (rw c at h) in cc)
  | inr (inl m) ↦ m
  | inr (inr (inl e)) ↦ (let clash = (rw e at h) in cc)
  | inr (inr (inr n)) ↦
      append_cancel_right k "memory" "/request"
        (sym n ∙ (eq_iff (request_name k) metric_memory_request.name).0 h)
]

module _ {F : Type 0} ⦃f : Float64 F⦄ where
  abbrev requested : String → Option Quantity → Option (Value F) → Option (Value F)
  requested key none before = before
  requested key (some q) before = some (int_value (worth key q))

  lookup-put_requests :
      (key name : String) (requests : Map Quantity) (values : Map (Value F))
      → request_name key ≡ name
      → Only key name
      → Distinct requests
      → lookup name (put_requests requests values)
        ≡ requested key (lookup key requests) (lookup name values)
  unfolding put_requests lookup
  lookup-put_requests key name [] values e only d = refl
  lookup-put_requests key name ((k, q) ∷ requests) values e only d =
      let here = lookup-insert (request_name k) name (int_value (worth k q)) values in
      let ih =
        lookup-put_requests key name requests
          (insert (request_name k) (int_value (worth k q)) values) e only d.1 in
      let after = insert (request_name k) (int_value (worth k q)) values in
      elim (Bool-cases (k == key)) [
        | inl same ↦
            let p = (eq_iff k key).0 same in
            let absent : lookup key requests ≡ none = rw (sym p) d.0 in
            let taken = (eq_iff (request_name k) name).1 (ap request_name p ∙ e) in
            rw same (
              ih
              ∙ ap (λ o. requested key o (lookup name after)) absent
              ∙ (here ∙ rw taken refl)
              ∙ ap (λ j. some (int_value (worth j q))) p)
        | inr other ↦
            let free = apart key name k only other in
            rw other (ih ∙ ap (λ v. requested key (lookup key requests) v) (here ∙ rw free refl))
      ]

  lookup-zero_unless :
      (found : Bool) (name j : String) (values : Map (Value F))
      → lookup j (zero_unless found name values)
        ≡ (if name == j && not found then some (int_value 0) else lookup j values)
  lookup-zero_unless true name j values = ground arith
  lookup-zero_unless false name j values = ground (arith, lookup-insert name j (int_value 0) values)

  cpu_requested :
      (o : Option Quantity) (before : Option (Value F))
      → (if not (is_some o) then some (int_value 0) else requested "cpu" o before)
        ≡ some (int_value (milli_of o))
  cpu_requested none before = refl
  cpu_requested (some q) before = refl

  memory_requested :
      (o : Option Quantity) (before : Option (Value F))
      → (if not (is_some o) then some (int_value 0) else requested "memory" o before)
        ≡ some (int_value (whole_of o))
  memory_requested none before = refl
  memory_requested (some q) before = refl

  -- After its resources were added, the set of a container has the CPU and the memory that the container
  -- asks for and is limited to, CPU in thousandths, and 0 where it asks for none or has no limit.
  pub lookup-update_resources :
      (c : Container) (ms : MetricSet F)
      → Distinct c.requests
      → let values = (update_resources c ms).values in
        (lookup metric_cpu_request.name values
          ≡ some (int_value (milli_of (lookup "cpu" c.requests))))
        × (lookup metric_memory_request.name values
            ≡ some (int_value (whole_of (lookup "memory" c.requests))))
        × (lookup metric_cpu_limit.name values
            ≡ some (int_value (milli_of (lookup "cpu" c.limits))))
        × (lookup metric_memory_limit.name values
            ≡ some (int_value (whole_of (lookup "memory" c.limits))))
  unfolding update_resources
  lookup-update_resources c ms d =
      let at_cpu =
        lookup-put_requests "cpu" metric_cpu_request.name c.requests ms.values cpu_name Only-cpu
          d in
      let at_memory =
        lookup-put_requests "memory" metric_memory_request.name c.requests ms.values memory_name
          Only-memory d in
      (
        simp (lookup-insert, lookup-zero_unless, at_cpu)
            (cpu_requested (lookup "cpu" c.requests) _),
        simp (lookup-insert, lookup-zero_unless, at_memory)
            (memory_requested (lookup "memory" c.requests) _),
        simp lookup-insert refl,
        simp lookup-insert refl,
      )
