-- ===== src/Sources/Prometheus/Instances/Tagged.antt =====
-- Each instance behind a service is tagged with its host.
use wavefront_collector_for.Prelude.{
  All-append, ℕ, String, List, [], ◌∷◌, ◌++◌, ◌≡◌, refl, inl, inr, Bool-cases, eqb, All,
}
use wavefront_collector_for.Prelude.Sort.{All-sort_by, sort_by, string_less}
use wavefront_collector_for.Prelude.Result.{ok, >>=-eq-ok, ok-injective}
use wavefront_collector_for.Sources.Prometheus.Instances.{
  Instance, EndpointSubset, no_port, choose_port, is_new, append_unique, remove_duplicate_instances,
  instances_at, instances_from_subset, append_subsets, instances_from_endpoints,
}

abbrev pub IsTagged : Instance → Type 0
IsTagged i = i.tags ≡ ("instance", i.host) ∷ []

All-append_unique {κ} :
    (P : Instance → Type κ) (unique instances : List Instance)
    → All P unique
    → All P instances
    → All P (append_unique unique instances)
unfolding append_unique
All-append_unique P unique [] a b = a
All-append_unique P unique (i ∷ instances) a (p, b) = elim (Bool-cases (is_new i.host unique)) [
  | inl t ↦
      rw t (
        All-append_unique P (unique ++ i ∷ []) instances (All-append P unique (i ∷ []) a (p, tt)) b)
  | inr t ↦ rw t (All-append_unique P unique instances a b)
]

module _ (show : ℕ → String) where
  IsTagged-instances_at :
      (port : ℕ) (addresses : List String) → All IsTagged (instances_at show port addresses)
  unfolding instances_at
  IsTagged-instances_at port [] = tt
  IsTagged-instances_at port (ip ∷ addresses) = (refl, IsTagged-instances_at port addresses)

  IsTagged-from_subset :
      (s : EndpointSubset) (found : List Instance)
      → instances_from_subset show s ≡ ok found
      → All IsTagged found
  unfolding instances_from_subset
  IsTagged-from_subset s found h = elim (Bool-cases (eqb (choose_port s.ports) no_port)) [
    | inl t ↦ absurd (cc (rw t at h))
    | inr t ↦
        rw (ok-injective _ found (rw t at h))
          (IsTagged-instances_at (choose_port s.ports) s.addresses)
  ]

  IsTagged-append_subsets :
      (subsets : List EndpointSubset) (before after : List Instance)
      → All IsTagged before
      → append_subsets show before subsets ≡ ok after
      → All IsTagged after
  unfolding append_subsets
  IsTagged-append_subsets [] before after a h = rw (ok-injective before after h) a
  IsTagged-append_subsets (s ∷ subsets) before after a h =
      let (found, e, rest) =
        >>=-eq-ok (instances_from_subset show s)
          (λ to_add. append_subsets show (before ++ to_add) subsets) h in
      IsTagged-append_subsets subsets (before ++ found) after
        (All-append IsTagged before found a (IsTagged-from_subset s found e)) rest

  pub IsTagged-instances_from_endpoints :
      (subsets : List EndpointSubset) (found : List Instance)
      → instances_from_endpoints show subsets ≡ ok found
      → All IsTagged found
  unfolding instances_from_endpoints remove_duplicate_instances
  IsTagged-instances_from_endpoints subsets found h =
      let less = λ (i j : Instance). string_less i.host j.host in
      let (all, e, last) =
        >>=-eq-ok (append_subsets show [] subsets)
          (λ instances. ok (remove_duplicate_instances instances)) h in
      rw (ok-injective (remove_duplicate_instances all) found last) (
        All-append_unique IsTagged [] (sort_by less all) tt
          (All-sort_by less IsTagged all (IsTagged-append_subsets subsets [] all tt e)))
