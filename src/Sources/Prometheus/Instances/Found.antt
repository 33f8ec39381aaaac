-- ===== src/Sources/Prometheus/Instances/Found.antt =====
-- Which hosts are found behind a service.
use wavefront_collector_for.Prelude.{
  some_of-append, ℕ, String, List, [], ◌∷◌, ◌++◌, Option, none, some, Bool, true, false, ◌==◌, ◌||◌,
  eqb, some_of, ◌≡◌, ◌⊎◌, refl, ◌∙◌, arith, inl, inr, Bool-cases, or_else, if◌then◌else◌, eq_iff,
}
use wavefront_collector_for.Prelude.Sort.{some_of-sort_by, sort_by, string_less}
use wavefront_collector_for.Prelude.Maps.{first_of}
use wavefront_collector_for.Prelude.Result.{ok, err}
use wavefront_collector_for.Sources.Prometheus.Instances.{
  Instance, EndpointPort, EndpointSubset, no_port, choose_port_from, portless, is_new,
  append_unique, remove_duplicate_instances, host_of, instances_at, instances_from_subset,
  append_subsets, instances_from_endpoints,
}

abbrev pub first_named : String → List EndpointPort → Option ℕ
first_named name [] = none
first_named name (p ∷ ports) = if p.name == name then some p.port else first_named name ports

abbrev pub last_named : String → List EndpointPort → Option ℕ
last_named name [] = none
last_named name (p ∷ ports) =
    first_of (last_named name ports) (if p.name == name then some p.port else none)

-- the first port of HTTPS, else the last one of HTTP
abbrev pub port_of : EndpointSubset → ℕ
port_of s = or_else (first_of (first_named "https" s.ports) (last_named "http" s.ports)) no_port

choose_port_lem :
    (http : ℕ) (ports : List EndpointPort)
    → choose_port_from http ports
      ≡ or_else (first_of (first_named "https" ports) (last_named "http" ports)) http
unfolding choose_port_from
choose_port_lem http [] = refl
choose_port_lem http (p ∷ ports) =
    ground (arith, choose_port_lem p.port ports, choose_port_lem http ports)

-- an instance of the host is there
abbrev pub has_host : String → List Instance → Bool
has_host host instances = some_of (λ i. i.host == host) instances

-- a host that is not new is there
has_host-is_new :
    (host : String) (unique : List Instance)
    → is_new host unique ≡ false
    → has_host host unique ≡ true
unfolding is_new some_of
has_host-is_new host [] h = cc
has_host-is_new host (i ∷ []) h = ground arith
has_host-is_new host (i ∷ j ∷ unique) h = ground (arith, has_host-is_new host (j ∷ unique) h)

some_of-append_unique :
    (host : String) (unique instances : List Instance)
    → has_host host (append_unique unique instances)
      ≡ (has_host host unique || has_host host instances)
unfolding append_unique some_of
some_of-append_unique host unique [] = ground arith
some_of-append_unique host unique (i ∷ instances) = elim (Bool-cases (is_new i.host unique)) [
  | inl new ↦ rw new (
      ground (
        arith,
        some_of-append_unique host (unique ++ i ∷ []) instances,
        some_of-append (λ (j : Instance). j.host == host) unique (i ∷ []),
      ))
  | inr old ↦ rw old (
      ground (
        arith,
        some_of-append_unique host unique instances,
        has_host-is_new i.host unique old,
        eq_iff i.host host,
      ))
]

-- no two neighbours have the same host
abbrev pub Apart : List Instance → Type 0
Apart [] = Unit
Apart (i ∷ []) = Unit
Apart (i ∷ j ∷ instances) = ((i.host == j.host) ≡ false) × Apart (j ∷ instances)

Apart-append :
    (i : Instance) (unique : List Instance)
    → is_new i.host unique ≡ true
    → Apart unique
    → Apart (unique ++ i ∷ [])
unfolding is_new
Apart-append i [] new a = tt
Apart-append i (j ∷ []) new a = (ground (arith, new), tt)
Apart-append i (j ∷ k ∷ unique) new (e, a) = (e, Apart-append i (k ∷ unique) new a)

Apart-append_unique :
    (unique instances : List Instance) → Apart unique → Apart (append_unique unique instances)
unfolding append_unique
Apart-append_unique unique [] a = a
Apart-append_unique unique (i ∷ instances) a = elim (Bool-cases (is_new i.host unique)) [
  | inl new ↦
      rw new (Apart-append_unique (unique ++ i ∷ []) instances (Apart-append i unique new a))
  | inr old ↦ rw old (Apart-append_unique unique instances a)
]

abbrev pub lacks_port : EndpointSubset → Bool
lacks_port s = eqb (port_of s) no_port

module _ (show : ℕ → String) where
  -- an address of the subset, at its port
  abbrev pub serves : String → EndpointSubset → Bool
  serves host s = some_of (λ ip. host_of show (port_of s) ip == host) s.addresses

  has_host-instances_at :
      (host : String) (port : ℕ) (addresses : List String)
      → has_host host (instances_at show port addresses)
        ≡ some_of (λ ip. host_of show port ip == host) addresses
  unfolding instances_at some_of
  has_host-instances_at host port [] = refl
  has_host-instances_at host port (ip ∷ addresses) =
      rw (has_host-instances_at host port addresses) refl

  from_lacking :
      (s : EndpointSubset) → lacks_port s ≡ true → instances_from_subset show s ≡ err portless
  unfolding instances_from_subset
  from_lacking s lacks = rw (choose_port_lem no_port s.ports, lacks) refl

  from_subset :
      (s : EndpointSubset)
      → lacks_port s ≡ false
      → instances_from_subset show s ≡ ok (instances_at show (port_of s) s.addresses)
  unfolding instances_from_subset
  from_subset s has = rw (choose_port_lem no_port s.ports, has) refl

  -- the outcome of a lookup over subsets, beyond the instances so far
  abbrev Appended : List Instance → List EndpointSubset → List Instance → Type 0
  Appended before subsets after =
      (host : String)
      → has_host host after ≡ (has_host host before || some_of (serves host) subsets)

  append_lacking :
      (subsets : List EndpointSubset) (before : List Instance)
      → some_of lacks_port subsets ≡ true
      → append_subsets show before subsets ≡ err portless
  unfolding append_subsets some_of
  append_lacking [] before lacking = cc
  append_lacking (s ∷ subsets) before lacking = elim (Bool-cases (lacks_port s)) [
    | inl lacks ↦ rw (from_lacking s lacks) refl
    | inr has ↦ rw (from_subset s has) (append_lacking subsets _ (rw has at lacking))
  ]

  append_all :
      (before : List Instance) (subsets : List EndpointSubset)
      → some_of lacks_port subsets ≡ false
      → (after : List Instance) × (append_subsets show before subsets ≡ ok after)
        × Appended before subsets after
  unfolding append_subsets some_of
  append_all before [] lacking = (before, refl, λ host. ground arith)
  append_all before (s ∷ subsets) lacking = elim (Bool-cases (lacks_port s)) [
    | inl lacks ↦ absurd (ground (arith, lacks, lacking))
    | inr has ↦
        let here = instances_at show (port_of s) s.addresses in
        let (after, e, found) = append_all (before ++ here) subsets (rw has at lacking) in
        (
          after,
          rw (from_subset s has) e,
          λ host. ground (
            arith,
            found host,
            some_of-append (λ (i : Instance). i.host == host) before here,
            has_host-instances_at host (port_of s) s.addresses,
          ),
        )
  ]

  -- no two neighbours share a host, and the hosts are those that a subset serves
  pub record Found (subsets : List EndpointSubset) (instances : List Instance) : Type 0 where
    pub apart : Apart instances
    pub hosts : (host : String) → has_host host instances ≡ some_of (serves host) subsets

  -- The lookup of the endpoints of a service fails where a subset has no port named http or https. Else it
  -- finds exactly the hosts that are made of an address and the port of its subset, the first one of HTTPS
  -- or else the last one of HTTP, and no two neighbours of the result have the same host.
  pub Found-instances_from_endpoints :
      (subsets : List EndpointSubset)
      → ((some_of lacks_port subsets ≡ true)
          × (instances_from_endpoints show subsets ≡ err portless))
        ⊎ ((some_of lacks_port subsets ≡ false)
            × ((instances : List Instance) × (instances_from_endpoints show subsets ≡ ok instances)
                × Found subsets instances))
  unfolding instances_from_endpoints remove_duplicate_instances some_of
  Found-instances_from_endpoints subsets = elim (Bool-cases (some_of lacks_port subsets)) [
    | inl lacking ↦ inl (lacking, rw (append_lacking subsets [] lacking) refl)
    | inr served ↦
        let (all, e, found) = append_all [] subsets served in
        let less = λ (i j : Instance). string_less i.host j.host in
        inr (
          served,
          (
            append_unique [] (sort_by less all),
            rw e refl,
            record {
              apart = Apart-append_unique [] (sort_by less all) tt;
              hosts = λ host.
                  some_of-append_unique host [] (sort_by less all)
                  ∙ some_of-sort_by less (λ i. i.host == host) all
                  ∙ found host;
            },
          ),
        )
  ]
