-- ===== src/Discovery/Discoverer/Held.antt =====
-- The calls of the endpoint handler against the endpoints that the discoverer holds: an interface for a
-- handler that counts, its use by the discoverer, and the counter of the real handler.
use mathlib.Core.Path.{subst}
use wavefront_collector_for.Prelude.{
  ℕ, ◌+◌, String, List, [], ◌∷◌, ◌++◌, none, true, ◌==◌, ◌≡◌, inl, inr, refl, sym, ap, eq_iff,
  eq_refl, arith, Bool-cases,
}
use wavefront_collector_for.Prelude.Maps.{
  Map, lookup, insert, delete, Distinct, Distinct-insert, lookup-delete,
}
use wavefront_collector_for.Discovery.Resources.{Resource, resource_name}
use wavefront_collector_for.Discovery.Endpoints.{Endpoint}
use wavefront_collector_for.Discovery.Creation.{EndpointCreator, discover_endpoints}
use wavefront_collector_for.Discovery.Discoverer.{
  Handler, Discoverer, DeepEqual, held_of, put_endpoints, add_each, delete_each, delete_endpoints,
  delete_all, internal_delete, internal_discover,
}

-- `Shows n s`: the handler in state s shows the count n of endpoints, each counted by its weight
pub record Counting {C S : Type 0} (handler : Handler C S) : Type 1 where
  pub weight : Endpoint C → ℕ
  pub Shows : ℕ → S → Type 0
  pub Shows-add :
      (n : ℕ) (ep : Endpoint C) (s : S) → Shows n s → Shows (weight ep + n) (handler.add_one ep s)
  pub Shows-delete :
      (n : ℕ) (ep : Endpoint C) (s : S)
      → Shows (weight ep + n) s
      → Shows n (handler.delete_one ep s)

Distinct-delete : {V : Type 0} (k : String) (m : Map V) → Distinct m → Distinct (delete k m)
unfolding delete
Distinct-delete k [] d = tt
Distinct-delete k ((j, v) ∷ m) d = elim (Bool-cases (j == k)) [
  | inl e ↦ rw e (Distinct-delete k m d.1)
  | inr e ↦ rw e (ground (arith, lookup-delete k j m, d.0), Distinct-delete k m d.1)
]

module _ {C S : Type 0} (handler : Handler C S) (counting : Counting handler) where
  abbrev pub weigh : List (Endpoint C) → ℕ
  weigh [] = 0
  weigh (ep ∷ eps) = counting.weight ep + weigh eps

  abbrev pub held : Map (List (Endpoint C)) → ℕ
  held [] = 0
  held ((name, eps) ∷ m) = weigh eps + held m

  pub weigh-append : (a b : List (Endpoint C)) → weigh (a ++ b) ≡ weigh a + weigh b
  weigh-append [] b = omega arith
  weigh-append (ep ∷ a) b = omega (arith, weigh-append a b)

  pub held-insert :
      (k : String) (eps : List (Endpoint C)) (m : Map (List (Endpoint C)))
      → held (insert k eps m) + weigh (held_of (lookup k m)) ≡ held m + weigh eps
  unfolding insert lookup
  held-insert k eps [] = omega arith
  held-insert k eps ((j, old) ∷ m) = ground (arith, held-insert k eps m)

  held-delete_absent :
      (k : String) (m : Map (List (Endpoint C))) → lookup k m ≡ none → held (delete k m) ≡ held m
  unfolding delete lookup
  held-delete_absent k [] h = refl
  held-delete_absent k ((j, old) ∷ m) h = ground (arith, held-delete_absent k m, h)

  held-delete :
      (k : String) (m : Map (List (Endpoint C)))
      → Distinct m
      → held m ≡ weigh (held_of (lookup k m)) + held (delete k m)
  unfolding delete lookup
  held-delete k [] d = refl
  held-delete k ((j, old) ∷ m) d =
      ground (arith, held-delete k m d.1, d.0, held-delete_absent k m, eq_iff j k)

  pub Shows-at : (n m : ℕ) (s : S) → n ≡ m → counting.Shows n s → counting.Shows m s
  Shows-at n m s e h = subst (λ k. counting.Shows k s) e h

  Shows-add_each :
      (n : ℕ) (eps : List (Endpoint C)) (s : S)
      → counting.Shows n s
      → counting.Shows (weigh eps + n) (add_each handler eps s)
  unfolding add_each
  Shows-add_each n [] s h = Shows-at n (0 + n) s (omega arith) h
  Shows-add_each n (ep ∷ eps) s h =
      Shows-at (weigh eps + (counting.weight ep + n)) (weigh (ep ∷ eps) + n) _ (omega arith) (
        Shows-add_each (counting.weight ep + n) eps (handler.add_one ep s)
          (counting.Shows-add n ep s h))

  Shows-delete_each :
      (n : ℕ) (eps : List (Endpoint C)) (s : S)
      → counting.Shows (weigh eps + n) s
      → counting.Shows n (delete_each handler eps s)
  unfolding delete_each
  Shows-delete_each n [] s h = Shows-at (0 + n) n s (omega arith) h
  Shows-delete_each n (ep ∷ eps) s h = Shows-delete_each n eps (handler.delete_one ep s) (
      counting.Shows-delete (weigh eps + n) ep s
        (Shows-at (weigh (ep ∷ eps) + n) (counting.weight ep + (weigh eps + n)) s (omega arith) h))

  Shows-delete_endpoints :
      (m : Map (List (Endpoint C))) (s : S)
      → counting.Shows (held m) s
      → counting.Shows 0 (delete_endpoints handler m s)
  unfolding delete_endpoints
  Shows-delete_endpoints [] s h = h
  Shows-delete_endpoints ((name, eps) ∷ m) s h =
      Shows-delete_endpoints m (delete_each handler eps s) (Shows-delete_each (held m) eps s h)

  -- the handler shows what the discoverer holds, and the discoverer holds a map
  pub record Balanced (d : Discoverer C S) : Type 0 where
    pub distinct : Distinct d.endpoints
    pub shown : counting.Shows (held d.endpoints) d.handled

  pub Balanced-delete_all : (d : Discoverer C S) → Balanced d → Balanced (delete_all handler d)
  unfolding delete_all
  Balanced-delete_all d b = record {
    distinct = tt;
    shown = Shows-delete_endpoints d.endpoints d.handled b.shown;
  }

  pub Balanced-internal_delete :
      (r : Resource) (d : Discoverer C S) → Balanced d → Balanced (internal_delete handler r d)
  unfolding internal_delete
  Balanced-internal_delete r d b =
      let name = resource_name r.kind r.meta in
      record {
        distinct = Distinct-delete name d.endpoints b.distinct;
        shown =
            Shows-delete_each _ _ _
              (Shows-at _ _ _ (held-delete name d.endpoints b.distinct) b.shown);
      }

  Distinct-put_endpoints :
      (k : String) (eps : List (Endpoint C)) (m : Map (List (Endpoint C)))
      → Distinct m
      → Distinct (put_endpoints k eps m)
  Distinct-put_endpoints k [] m d = d
  Distinct-put_endpoints k (ep ∷ eps) m d = Distinct-insert k (ep ∷ eps) m d

  held-put_endpoints :
      (k : String) (eps : List (Endpoint C)) (m : Map (List (Endpoint C)))
      → held (put_endpoints k eps (delete k m)) ≡ weigh eps + held (delete k m)
  held-put_endpoints k [] m = omega arith
  held-put_endpoints k (ep ∷ eps) m =
      ground (arith, held-insert k (ep ∷ eps) (delete k m), lookup-delete k k m, eq_refl k)

  module _ (deep_equal : DeepEqual C) (creator : EndpointCreator C)
      (deep_equal-same : (a b : List (Endpoint C)) → deep_equal a b ≡ true → a ≡ b) where
    pub Balanced-internal_discover :
        (r : Resource) (d : Discoverer C S)
        → Balanced d
        → Balanced (internal_discover handler deep_equal creator r d)
    unfolding internal_discover
    Balanced-internal_discover r d b =
        let name = resource_name r.kind r.meta in
        let eps = discover_endpoints creator r in
        let old = held_of (lookup name d.endpoints) in
        let others = delete name d.endpoints in
        let shown = Shows-at _ _ d.handled (held-delete name d.endpoints b.distinct) b.shown in
        record {
          distinct =
              Distinct-put_endpoints name eps others (Distinct-delete name d.endpoints b.distinct);
          shown = elim (Bool-cases (deep_equal eps old)) [
            | inl same ↦
                rw (same, held-put_endpoints name eps d.endpoints)
                  (Shows-at _ _ _
                    (ap (λ l. weigh l + held others) (sym (deep_equal-same eps old same))) shown)
            | inr changed ↦
                rw (changed, held-put_endpoints name eps d.endpoints)
                  (Shows-add_each (held others) eps _ (Shows-delete_each (held others) old _ shown))
          ];
        }
