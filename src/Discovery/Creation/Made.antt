-- ===== src/Discovery/Creation/Made.antt =====
-- Where the endpoints of a resource come from.
use wavefront_collector_for.Prelude.{
  String, List, [], ◌∷◌, Option, none, some, Bool, true, false, not, ◌&&◌, ◌≡◌, ◌↔◌, ◌⊎◌, inl, inr,
  refl, sym, is_empty, some_of, if◌then◌else◌, arith, Bool-cases,
}
use wavefront_collector_for.Prelude.Maps.{Map}
use wavefront_collector_for.Discovery.Resources.{Resource}
use wavefront_collector_for.Discovery.Selection.{matches}
use wavefront_collector_for.Discovery.Endpoints.{Endpoint}
use wavefront_collector_for.Discovery.Creation.{
  Delegate, EndpointCreator, annotated, append_endpoint, make_endpoint, of_delegate, of_delegates,
  discover_endpoints_with_rules, discover_endpoints_with_annotations, discover_endpoints,
}

pub data In {A : Type 0} (x : A) : List A → Type 0 where
  here : {y : A} {ys : List A} → x ≡ y → In x (y ∷ ys)
  there : {y : A} {ys : List A} → In x ys → In x (y ∷ ys)

module _ {C : Type 0} (e : EndpointCreator C) (resource : Resource) where
  -- a rule that selects the resource gives this endpoint
  pub data OfRule (ep : Endpoint C) : Map Delegate → Type 0 where
    first :
        {name : String} {d : Delegate} {ds : Map Delegate}
        → matches (some d.filter) resource ≡ true
        → make_endpoint e resource d.plugin ≡ some ep
        → OfRule ep ((name, d) ∷ ds)
    later :
        {name : String} {d : Delegate} {ds : Map Delegate}
        → OfRule ep ds
        → OfRule ep ((name, d) ∷ ds)

  -- no rule gives any, annotations are asked, no exclusion selects the resource, and its annotations
  -- give this endpoint
  pub record OfAnnotations (ep : Endpoint C) : Type 0 where
    pub no_rule : (other : Endpoint C) → ¬ OfRule other e.delegates
    pub enabled : e.disable_annotation_discovery ≡ false
    pub included :
        some_of (λ exclude. matches (some exclude) resource) e.annotation_excludes ≡ false
    pub made : make_endpoint e resource annotated ≡ some ep

  In-append_endpoint :
      (ep : Endpoint C) (o : Option (Endpoint C)) (eps : List (Endpoint C))
      → In ep (append_endpoint o eps)
      → (o ≡ some ep) ⊎ In ep eps
  In-append_endpoint ep none eps h = inr h
  In-append_endpoint ep (some x) eps (here p) = inl (ground (arith, p))
  In-append_endpoint ep (some x) eps (there h) = inr h

  In-first :
      (ep : Endpoint C) (o : Option (Endpoint C)) (eps : List (Endpoint C))
      → o ≡ some ep
      → In ep (append_endpoint o eps)
  In-first ep none eps h = cc
  In-first ep (some x) eps h = here (ground (arith, h))

  In-rest :
      (ep : Endpoint C) (o : Option (Endpoint C)) (eps : List (Endpoint C))
      → In ep eps
      → In ep (append_endpoint o eps)
  In-rest ep none eps h = h
  In-rest ep (some x) eps h = there h

  of_delegate-some :
      (d : Delegate) (ep : Endpoint C)
      → (of_delegate e resource d ≡ some ep) ↔ (
          (matches (some d.filter) resource ≡ true) × (make_endpoint e resource d.plugin ≡ some ep))
  unfolding of_delegate
  of_delegate-some d ep = (λ h. ground arith, λ h. ground arith)

  In-of_delegates_then :
      (ep : Endpoint C) (ds : Map Delegate) → In ep (of_delegates e resource ds) → OfRule ep ds
  unfolding of_delegates
  In-of_delegates_then ep [] h = elim h [ ]
  In-of_delegates_then ep ((name, d) ∷ ds) h =
      elim (In-append_endpoint ep (of_delegate e resource d) (of_delegates e resource ds) h) [
        | inl made ↦ let (m, p) = (of_delegate-some d ep).0 made in first m p
        | inr rest ↦ later (In-of_delegates_then ep ds rest)
      ]

  OfRule-then :
      (ep : Endpoint C) (ds : Map Delegate) → OfRule ep ds → In ep (of_delegates e resource ds)
  unfolding of_delegates
  OfRule-then ep [] h = elim h [ ]
  OfRule-then ep ((name, d) ∷ ds) (first m p) =
      In-first ep (of_delegate e resource d) (of_delegates e resource ds)
        ((of_delegate-some d ep).1 (m, p))
  OfRule-then ep ((name, d) ∷ ds) (later h) =
      In-rest ep (of_delegate e resource d) (of_delegates e resource ds) (OfRule-then ep ds h)

  is_empty-false : (eps : List (Endpoint C)) (ep : Endpoint C) → In ep eps → is_empty eps ≡ false
  is_empty-false [] ep h = elim h [ ]
  is_empty-false (x ∷ xs) ep h = refl

  is_empty-In : (eps : List (Endpoint C)) → (is_empty eps ≡ false) → (ep : Endpoint C) × In ep eps
  is_empty-In [] h = cc
  is_empty-In (x ∷ xs) h = (x, here refl)

  none_of_rules :
      is_empty (of_delegates e resource e.delegates) ≡ true
      → (ep : Endpoint C) → ¬ OfRule ep e.delegates
  none_of_rules empty ep h = let filled = is_empty-false _ ep (OfRule-then ep e.delegates h) in cc

  discover_endpoints-rules :
      is_empty (of_delegates e resource e.delegates) && not e.disable_annotation_discovery ≡ false
      → discover_endpoints e resource ≡ of_delegates e resource e.delegates
  unfolding discover_endpoints discover_endpoints_with_rules
  discover_endpoints-rules h = ground (arith, h)

  discover_endpoints-annotations :
      is_empty (of_delegates e resource e.delegates) && not e.disable_annotation_discovery ≡ true
      → discover_endpoints e resource ≡ discover_endpoints_with_annotations e resource
  unfolding discover_endpoints discover_endpoints_with_rules
  discover_endpoints-annotations h = ground (arith, h)

  In-unless :
      (ep : Endpoint C) (b : Bool) (o : Option (Endpoint C))
      → In ep (if b then [] else append_endpoint o []) ↔ ((b ≡ false) × (o ≡ some ep))
  In-unless ep true o = (λ h. elim h [ ], λ h. cc)
  In-unless ep false none = (λ h. elim h [ ], λ h. cc)
  In-unless ep false (some x) = (
    λ h. (refl, elim (In-append_endpoint ep (some x) [] h) [ inl p ↦ p | inr n ↦ elim n [ ] ]),
    λ h. In-first ep (some x) [] h.1,
  )

  In-annotations :
      (ep : Endpoint C)
      → In ep (discover_endpoints_with_annotations e resource) ↔ (
          (some_of (λ exclude. matches (some exclude) resource) e.annotation_excludes ≡ false)
          × (make_endpoint e resource annotated ≡ some ep))
  unfolding discover_endpoints_with_annotations
  In-annotations ep = In-unless ep _ _

  rules_or_annotations :
      (ep : Endpoint C) (b : Bool)
      → (is_empty (of_delegates e resource e.delegates) && not e.disable_annotation_discovery) ≡ b
      → In ep (discover_endpoints e resource)
      → OfRule ep e.delegates ⊎ OfAnnotations ep
  rules_or_annotations ep false t h =
      inl (In-of_delegates_then ep e.delegates (rw (sym (discover_endpoints-rules t)) h))
  rules_or_annotations ep true t h =
      let (included, made) =
        (In-annotations ep).0 (rw (sym (discover_endpoints-annotations t)) h) in
      inr (record {
        no_rule = none_of_rules (ground (arith, t));
        enabled = ground (arith, t);
        included = included;
        made = made;
      })

  OfRule-In : (ep : Endpoint C) → OfRule ep e.delegates → In ep (discover_endpoints e resource)
  OfRule-In ep h =
      let found = OfRule-then ep e.delegates h in
      let filled = is_empty-false _ ep found in
      rw (discover_endpoints-rules (ground (arith, filled))) found

  OfAnnotations-In : (ep : Endpoint C) → OfAnnotations ep → In ep (discover_endpoints e resource)
  OfAnnotations-In ep a = elim (Bool-cases (is_empty (of_delegates e resource e.delegates))) [
    | inl empty ↦
        rw (discover_endpoints-annotations (ground (arith, empty, a.enabled)))
          ((In-annotations ep).1 (a.included, a.made))
    | inr filled ↦
        let (other, found) = is_empty-In _ filled in
        absurd (a.no_rule other (In-of_delegates_then other e.delegates found))
  ]

  -- An endpoint is found for a resource exactly if a rule that selects the resource gives it, or, where
  -- no rule gives any, annotations are not disabled and no exclusion selects the resource, the
  -- annotations of the resource give it.
  pub In-discover_endpoints :
      (ep : Endpoint C)
      → In ep (discover_endpoints e resource) ↔ (OfRule ep e.delegates ⊎ OfAnnotations ep)
  In-discover_endpoints ep = (
    λ h. rules_or_annotations ep _ refl h,
    λ h. elim h [ inl r ↦ OfRule-In ep r | inr a ↦ OfAnnotations-In ep a ],
  )
