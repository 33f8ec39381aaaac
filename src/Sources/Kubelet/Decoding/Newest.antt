-- ===== src/Sources/Kubelet/Decoding/Newest.antt =====
-- Of the containers of a pod that share a name, the one that started last gives the set.
use wavefront_collector_for.Prelude.{
  ℕ, ◌≤◌, String, List, [], ◌∷◌, some, false, ◌==◌, eq_iff, eq_refl, ◌≡◌, ◌⊎◌, refl, sym, ◌∙◌, All,
  inl, inr, arith, ltb, Bool-cases, Option-cases, if◌then◌else◌,
}
use wavefront_collector_for.Prelude.Maps.{Map, lookup, insert, lookup-insert}
use wavefront_collector_for.Float64.{Float64}
use wavefront_collector_for.Metrics.Keys.{ResourceKey, pod_container_key}
use wavefront_collector_for.Metrics.Types.{MetricSet, Sets}
use wavefront_collector_for.Sources.Kubelet.Kept.{start_times}
use wavefront_collector_for.Sources.Kubelet.Decoding.{
  ContainerStats, decode_container_stats, decode_containers, newer,
}

-- a set is there, of a container that did not start before
abbrev pub AtLeast : {F : Type 0} → ResourceKey → ℕ → Sets F → Type 0
AtLeast {F} key start sets =
    (ms : MetricSet F) × (lookup key sets ≡ some ms) × (start ≤ ms.collection_start_time)

module _ {F : Type 0} ⦃f : Float64 F⦄ (now : ℕ) (labels : Map String) (namespace pod : String) where
  abbrev pub key_of : ContainerStats F → ResourceKey
  key_of c = pod_container_key namespace pod c.name

  -- the set is that of one of the containers
  abbrev pub MadeFrom : ResourceKey → MetricSet F → List (ContainerStats F) → Type 0
  MadeFrom key ms [] = ⊥
  MadeFrom key ms (c ∷ others) =
      ((key_of c ≡ key) × (ms ≡ decode_container_stats now labels c false)) ⊎ MadeFrom key ms others

  start_of :
      (c : ContainerStats F)
      → (decode_container_stats now labels c false).collection_start_time ≡ c.start_time
  unfolding decode_container_stats
  start_of c = simp start_times refl

  -- the sets after one container
  abbrev after_one : ContainerStats F → Sets F → Sets F
  after_one c sets =
      if newer (lookup (key_of c) sets) c.start_time
      then sets
      else insert (key_of c) (decode_container_stats now labels c false) sets

  lookup-after_one :
      (key : ResourceKey) (c : ContainerStats F) (sets : Sets F)
      → lookup key (after_one c sets) ≡ (
          if newer (lookup (key_of c) sets) c.start_time
          then lookup key sets
          else if key_of c == key
          then some (decode_container_stats now labels c false)
          else lookup key sets)
  lookup-after_one key c sets =
      ground (arith, lookup-insert (key_of c) key (decode_container_stats now labels c false) sets)

  AtLeast-written :
      (c : ContainerStats F) (sets : Sets F)
      → newer (lookup (key_of c) sets) c.start_time ≡ false
      → AtLeast (key_of c) c.start_time (after_one c sets)
  AtLeast-written c sets old = (
    decode_container_stats now labels c false,
    lookup-after_one (key_of c) c sets ∙ rw (old, eq_refl (key_of c)) refl,
    omega (arith, start_of c),
  )

  AtLeast-own :
      (c : ContainerStats F) (sets : Sets F) → AtLeast (key_of c) c.start_time (after_one c sets)
  AtLeast-own c sets = elim (Option-cases (lookup (key_of c) sets)) [
    | inl e ↦ AtLeast-written c sets (rw e refl)
    | inr (ms, e) ↦ elim (Bool-cases (ltb c.start_time ms.collection_start_time)) [
      | inl t ↦ (ms, lookup-after_one (key_of c) c sets ∙ rw (e, t) refl, ground arith)
      | inr t ↦ AtLeast-written c sets (rw e t)
    ]
  ]

  AtLeast-kept :
      (key : ResourceKey) (start : ℕ) (c : ContainerStats F) (sets : Sets F)
      → AtLeast key start sets
      → AtLeast key start (after_one c sets)
  AtLeast-kept key start c sets (ms, e, le) =
      elim (Bool-cases (newer (lookup (key_of c) sets) c.start_time)) [
        | inl t ↦ (ms, lookup-after_one key c sets ∙ rw t e, le)
        | inr t ↦ elim (Bool-cases (key_of c == key)) [
          | inl same ↦
              let here : lookup (key_of c) sets ≡ some ms = rw ((eq_iff (key_of c) key).0 same) e in
              let late : newer (some ms) c.start_time ≡ false = rw here at t in
              (
                decode_container_stats now labels c false,
                lookup-after_one key c sets ∙ rw (t, same) refl,
                ground (arith, start_of c),
              )
          | inr other ↦ (ms, lookup-after_one key c sets ∙ rw (t, other) e, le)
        ]
      ]

  AtLeast-containers :
      (key : ResourceKey) (start : ℕ) (cs : List (ContainerStats F)) (sets : Sets F)
      → AtLeast key start sets
      → AtLeast key start (decode_containers now labels namespace pod cs sets)
  unfolding decode_containers
  AtLeast-containers key start [] sets h = h
  AtLeast-containers key start (c ∷ cs) sets h =
      AtLeast-containers key start cs (after_one c sets) (AtLeast-kept key start c sets h)

  AtLeast-decode_containers :
      (cs : List (ContainerStats F)) (sets : Sets F)
      → All
          (λ c.
            AtLeast (key_of c) c.start_time (decode_containers now labels namespace pod cs sets))
          cs
  unfolding decode_containers
  AtLeast-decode_containers [] sets = tt
  AtLeast-decode_containers (c ∷ cs) sets = (
    AtLeast-containers (key_of c) c.start_time cs (after_one c sets) (AtLeast-own c sets),
    AtLeast-decode_containers cs (after_one c sets),
  )

  provenance :
      (key : ResourceKey) (ms : MetricSet F) (cs : List (ContainerStats F)) (sets : Sets F)
      → lookup key (decode_containers now labels namespace pod cs sets) ≡ some ms
      → (lookup key sets ≡ some ms) ⊎ MadeFrom key ms cs
  unfolding decode_containers
  provenance key ms [] sets h = inl h
  provenance key ms (c ∷ cs) sets h = elim (provenance key ms cs (after_one c sets) h) [
    | inr made ↦ inr (inr made)
    | inl e ↦ elim (Bool-cases (newer (lookup (key_of c) sets) c.start_time)) [
      | inl t ↦ inl (sym (lookup-after_one key c sets ∙ rw t refl) ∙ e)
      | inr t ↦ elim (Bool-cases (key_of c == key)) [
        | inl same ↦
            let found : some (decode_container_stats now labels c false) ≡ some ms =
              sym (lookup-after_one key c sets ∙ rw (t, same) refl) ∙ e in
            inr (inl ((eq_iff (key_of c) key).0 same, cc))
        | inr other ↦ inl (sym (lookup-after_one key c sets ∙ rw (t, other) refl) ∙ e)
      ]
    ]
  ]

  -- a set is there, of a container that did not start before, and it was there or is made from a container
  abbrev pub Latest : List (ContainerStats F) → Sets F → Sets F → ContainerStats F → Type 0
  Latest cs before after c =
      (ms : MetricSet F) × (lookup (key_of c) after ≡ some ms)
      × (c.start_time ≤ ms.collection_start_time)
      × ((lookup (key_of c) before ≡ some ms) ⊎ MadeFrom (key_of c) ms cs)

  Latest-of_counted :
      (cs counted : List (ContainerStats F)) (sets : Sets F)
      → All
          (λ c.
            AtLeast (key_of c) c.start_time (decode_containers now labels namespace pod cs sets))
          counted
      → All (Latest cs sets (decode_containers now labels namespace pod cs sets)) counted
  Latest-of_counted cs [] sets h = tt
  Latest-of_counted cs (c ∷ counted) sets ((ms, e, le), more) =
      ((ms, e, le, provenance (key_of c) ms cs sets e), Latest-of_counted cs counted sets more)

  -- After the containers of a pod were decoded, there is a set under the key of each, of a container that did
  -- not start before it: one that was there already, or one that is made from a container of that key.
  pub Latest-decode_containers :
      (cs : List (ContainerStats F)) (sets : Sets F)
      → All (Latest cs sets (decode_containers now labels namespace pod cs sets)) cs
  Latest-decode_containers cs sets =
      Latest-of_counted cs cs sets (AtLeast-decode_containers cs sets)
