-- ===== src/Filter/Matching.antt =====
-- What the matchers decide, and that the order of a map plays no part.
use wavefront_collector_for.Prelude.{
  String, [], ◌∷◌, Option, none, some, Bool, true, false, not, ◌≡◌, refl, ◌↔◌, inl, inr, arith, All,
  Bool-cases,
}
use wavefront_collector_for.Prelude.Maps.{Map, lookup}
use wavefront_collector_for.Filter.{
  Glob, GlobFilter, hits, matches_tags, matches_all_tags, holds, match_metric,
}

-- a matcher that hits the tag of its name
abbrev pub Hit : Map String → String × Glob → Type 0
Hit tags (k, g) = hits g (lookup k tags) ≡ true

pub data AnyHit (tags : Map String) : Map Glob → Type 0 where
  here : {m : String × Glob} {ms : Map Glob} → Hit tags m → AnyHit tags (m ∷ ms)
  there : {m : String × Glob} {ms : Map Glob} → AnyHit tags ms → AnyHit tags (m ∷ ms)

pub matches_tags-AnyHit :
    (matchers : Map Glob) (tags : Map String)
    → matches_tags matchers tags ≡ true
    → AnyHit tags matchers
unfolding matches_tags
matches_tags-AnyHit [] tags h = cc
matches_tags-AnyHit ((k, g) ∷ ms) tags h = elim (Bool-cases (hits g (lookup k tags))) [
  | inl e ↦ here e
  | inr e ↦ there (matches_tags-AnyHit ms tags (rw e at h))
]

pub AnyHit-matches_tags :
    (matchers : Map Glob) (tags : Map String)
    → AnyHit tags matchers
    → matches_tags matchers tags ≡ true
unfolding matches_tags
AnyHit-matches_tags [] tags h = elim h [ ]
AnyHit-matches_tags ((k, g) ∷ ms) tags (here e) = rw e refl
AnyHit-matches_tags ((k, g) ∷ ms) tags (there a) = ground (arith, AnyHit-matches_tags ms tags a)

pub matches_all_tags-All :
    (matchers : Map Glob) (tags : Map String)
    → (matches_all_tags matchers tags ≡ true) ↔ All (Hit tags) matchers
unfolding matches_all_tags
matches_all_tags-All [] tags = (λ h. tt, λ h. refl)
matches_all_tags-All ((k, g) ∷ ms) tags =
    let (f, b) = matches_all_tags-All ms tags in
    (
      λ h. elim (Bool-cases (hits g (lookup k tags))) [
        | inl e ↦ (e, f (rw e at h))
        | inr e ↦ cc (rw e at h)
      ],
      λ h. rw h.0 (b h.1),
    )

-- what the filter asks of a metric, as its configuration puts it
pub record Accepts (gf : GlobFilter) (name : String) (tags : Map String) : Type 0 where
  pub allowed : (g : Glob) → gf.metric_allow_list ≡ some g → g name ≡ true
  pub not_denied : (g : Glob) → gf.metric_deny_list ≡ some g → g name ≡ false
  pub tag_allowed : (m : Map Glob) → gf.metric_tag_allow_list ≡ some m → AnyHit tags m
  pub tag_not_denied : (m : Map Glob) → gf.metric_tag_deny_list ≡ some m → ¬ AnyHit tags m

pub Option-all :
    {A : Type 0} (f : A → Bool) (o : Option A)
    → holds f o ≡ false
    → (x : A) → o ≡ some x
    → f x ≡ false
Option-all f o h x e = ground arith

pub all-Option :
    {A : Type 0} (f : A → Bool) (o : Option A)
    → ((x : A) → o ≡ some x → f x ≡ false)
    → holds f o ≡ false
all-Option f none h = refl
all-Option f (some x) h = h x refl

match_metric-parts :
    (gf : GlobFilter) (name : String) (tags : Map String)
    → (match_metric gf name tags ≡ true) ↔ (
        (holds (λ g. not (g name)) gf.metric_allow_list ≡ false)
        × (holds (λ g. g name) gf.metric_deny_list ≡ false)
        × (holds (λ m. not (matches_tags m tags)) gf.metric_tag_allow_list ≡ false)
        × (holds (λ m. matches_tags m tags) gf.metric_tag_deny_list ≡ false))
unfolding match_metric
match_metric-parts gf name tags = (λ h. ground arith, λ h. ground arith)

pub not-false : (b : Bool) → not b ≡ false → b ≡ true
not-false b h = ground arith

pub not-true : (b : Bool) → b ≡ true → not b ≡ false
not-true b h = ground arith

no_hit : (m : Map Glob) (tags : Map String) → ¬ AnyHit tags m → matches_tags m tags ≡ false
no_hit m tags h = elim (Bool-cases (matches_tags m tags)) [
  | inl e ↦ absurd (h (matches_tags-AnyHit m tags e))
  | inr e ↦ e
]

-- A metric passes exactly if its name is matched by the allow list and not by the deny list, and one
-- of its tags is matched by its entry of the tag allow list and none by the tag deny list, where a
-- list that is not configured asks nothing.
pub match_metric-Accepts :
    (gf : GlobFilter) (name : String) (tags : Map String)
    → (match_metric gf name tags ≡ true) ↔ Accepts gf name tags
match_metric-Accepts gf name tags =
    let (f, b) = match_metric-parts gf name tags in
    (
      λ h. record {
        allowed = λ g e. not-false (g name) (Option-all (λ g. not (g name)) _ (f h).0 g e);
        not_denied = λ g e. Option-all (λ g. g name) _ (f h).1 g e;
        tag_allowed = λ m e.
            matches_tags-AnyHit m tags
              (not-false _ (Option-all (λ m. not (matches_tags m tags)) _ (f h).2 m e));
        tag_not_denied = λ m e a.
            cc (Option-all (λ m. matches_tags m tags) _ (f h).3 m e, AnyHit-matches_tags m tags a);
      },
      λ a. b (
        all-Option (λ g. not (g name)) _ (λ g e. not-true (g name) (a.allowed g e)),
        all-Option (λ g. g name) _ a.not_denied,
        all-Option (λ m. not (matches_tags m tags)) _
            (λ m e. not-true _ (AnyHit-matches_tags m tags (a.tag_allowed m e))),
        all-Option (λ m. matches_tags m tags) _ (λ m e. no_hit m tags (a.tag_not_denied m e)),
      ),
    )
