-- ===== src/Discovery/Selection/Selected.antt =====
-- What a selected resource is like.
use wavefront_collector_for.Prelude.{
  String, List, [], ◌∷◌, Option, none, some, true, false, not, ◌≡◌, ◌≢◌, ◌↔◌, refl, eq_iff, some_of,
  arith, All, Bool-cases, inl, inr,
}
use wavefront_collector_for.Prelude.Maps.{Map}
use wavefront_collector_for.Filter.{Glob, holds}
use wavefront_collector_for.Filter.Matching.{
  Hit, matches_all_tags-All, Option-all, all-Option, not-false, not-true,
}
use wavefront_collector_for.Discovery.Resources.{Resource}
use wavefront_collector_for.Discovery.Selection.{
  ResourceFilter, matches_tags, matches, matches_image,
}

some-injective : {A : Type 0} {a b : A} → ◌≡◌ {A = Option A} (some a) (some b) → a ≡ b
some-injective h = cc

-- a container with an image that matches
pub data AnyImage (g : Glob) : List String → Type 0 where
  here : {image : String} {images : List String} → g image ≡ true → AnyImage g (image ∷ images)
  there : {image : String} {images : List String} → AnyImage g images → AnyImage g (image ∷ images)

some_of-AnyImage : (g : Glob) (images : List String) → (some_of g images ≡ true) ↔ AnyImage g images
unfolding some_of
some_of-AnyImage g [] = (λ h. cc, λ a. elim a [ ])
some_of-AnyImage g (image ∷ images) =
    let (f, b) = some_of-AnyImage g images in
    (
      λ h. elim (Bool-cases (g image)) [ inl e ↦ here e | inr e ↦ there (f (rw e at h)) ],
      λ a. elim a [ here p ↦ rw p refl | there p ↦ ground (arith, b p) ],
    )

-- what a filter asks of a resource
pub record Selects (r : ResourceFilter) (resource : Resource) : Type 0 where
  pub kind : r.kind ≡ resource.kind
  pub labelled : (m : Map Glob) → r.labels ≡ some m → resource.meta.labels ≢ []
  pub labels : (m : Map Glob) → r.labels ≡ some m → All (Hit resource.meta.labels) m
  pub namespace : (g : Glob) → r.namespaces ≡ some g → g resource.meta.namespace ≡ true
  pub image : (g : Glob) → r.images ≡ some g → AnyImage g resource.containers

tags_match :
    (m : Map Glob) (tags : Map String) → matches_tags m tags ≡ true → (tags ≢ []) × All (Hit tags) m
unfolding matches_tags
tags_match m [] h = cc
tags_match m (t ∷ tags) h = (λ e. cc e, (matches_all_tags-All m (t ∷ tags)).0 h)

match_tags :
    (m : Map Glob) (tags : Map String) → tags ≢ [] → All (Hit tags) m → matches_tags m tags ≡ true
unfolding matches_tags
match_tags m [] ne a = absurd (ne refl)
match_tags m (t ∷ tags) ne a = (matches_all_tags-All m (t ∷ tags)).1 a

matches-parts :
    (r : ResourceFilter) (resource : Resource)
    → (matches (some r) resource ≡ true) ↔ (
        (r.kind ≡ resource.kind)
        × (holds (λ l. not (matches_tags l resource.meta.labels)) r.labels ≡ false)
        × (holds (λ g. not (g resource.meta.namespace)) r.namespaces ≡ false)
        × (matches_image resource.containers r.images ≡ true))
unfolding matches
matches-parts r resource = (
  λ h. ground (arith, eq_iff r.kind resource.kind),
  λ h. ground (arith, eq_iff r.kind resource.kind),
)

matches_image-AnyImage :
    (containers : List String) (o : Option Glob)
    → (matches_image containers o ≡ true) ↔ ((g : Glob) → o ≡ some g → AnyImage g containers)
matches_image-AnyImage containers none = (λ h g e. cc e, λ h. refl)
matches_image-AnyImage containers (some g) =
    let (f, b) = some_of-AnyImage g containers in
    (λ h k e. rw (← some-injective e) (f h), λ h. b (h g refl))

-- A filter matches exactly the resources of its kind that have labels which its label patterns all
-- match, a namespace that its namespace pattern matches, and a container whose image its image
-- pattern matches, where a pattern that is missing asks nothing.
pub matches-Selects :
    (r : ResourceFilter) (resource : Resource)
    → (matches (some r) resource ≡ true) ↔ Selects r resource
unfolding matches
matches-Selects r resource =
    let (f, b) = matches-parts r resource in
    let (image, images) = matches_image-AnyImage resource.containers r.images in
    let tags = λ (m : Map Glob). matches_tags m resource.meta.labels in
    (
      λ h. record {
        kind = (f h).0;
        labelled = λ m e.
            (tags_match m resource.meta.labels
              (not-false (tags m) (Option-all (λ m. not (tags m)) _ (f h).1 m e))).0;
        labels = λ m e.
            (tags_match m resource.meta.labels
              (not-false (tags m) (Option-all (λ m. not (tags m)) _ (f h).1 m e))).1;
        namespace =
            λ g e. not-false _ (Option-all (λ g. not (g resource.meta.namespace)) _ (f h).2 g e);
        image = image (f h).3;
      },
      λ s. b (
        s.kind,
        all-Option (λ m. not (tags m)) _
            (λ m e. not-true _ (match_tags m resource.meta.labels (s.labelled m e) (s.labels m e))),
        all-Option (λ g. not (g resource.meta.namespace)) _ (λ g e. not-true _ (s.namespace g e)),
        images s.image,
      ),
    )
