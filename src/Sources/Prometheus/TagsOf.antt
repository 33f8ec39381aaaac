-- ===== src/Sources/Prometheus/TagsOf.antt =====
-- The tags of a metric of a scrape.
use wavefront_collector_for.Prelude.{
  String, List, [], ◌∷◌, Option, none, some, ◌==◌, ◌||◌, eq_iff, ◌≡◌, refl, arith, ◌∙◌, ap,
  if◌then◌else◌,
}
use wavefront_collector_for.Prelude.Maps.{Map, lookup, insert, lookup-insert, Distinct, first_of}
use wavefront_collector_for.Sources.Prometheus.{
  PromMetric, PointBuilder, put_tags, put_labels, build_tags,
}

-- the value of the last label of a name that has a value
abbrev pub last_label : String → List (String × String) → Option String
last_label k [] = none
last_label k ((name, v) ∷ labels) =
    first_of (last_label k labels)
      (if name == "" || v == "" then none else if name == k then some v else none)

-- a tag of the builder, unless its value is empty
abbrev pub valued : Option String → Option String
valued none = none
valued (some v) = if v == "" then none else some v

lookup-put_labels :
    (k : String) (labels : List (String × String)) (tags : Map String)
    → lookup k (put_labels labels tags) ≡ first_of (last_label k labels) (lookup k tags)
unfolding put_labels
lookup-put_labels k [] tags = refl
lookup-put_labels k ((name, v) ∷ labels) tags = ground (
  arith,
  lookup-put_labels k labels (insert name v tags),
  lookup-put_labels k labels tags,
  lookup-insert name k v tags,
)

lookup-put_tags :
    (k : String) (more tags : Map String)
    → Distinct more
    → lookup k (put_tags more tags) ≡ first_of (valued (lookup k more)) (lookup k tags)
unfolding put_tags lookup
lookup-put_tags k [] tags d = refl
lookup-put_tags k ((name, v) ∷ more) tags d = ground (
  arith,
  lookup-put_tags k more (insert name v tags) d.1,
  lookup-put_tags k more tags d.1,
  lookup-insert name k v tags,
  eq_iff name k,
  d.0,
)

first_of-none : (o : Option String) → first_of o none ≡ o
first_of-none none = refl
first_of-none (some v) = refl

no_tag : (k : String) → lookup {V = String} k [] ≡ none
unfolding lookup
no_tag k = refl

-- A tag of a point is the last label of that name with a value, else the tag of the source, unless that is
-- empty.
pub lookup-build_tags :
    {F : Type 0} (b : PointBuilder) (m : PromMetric F) (k : String)
    → Distinct b.tags
    → lookup k (build_tags b m) ≡ first_of (last_label k m.label) (valued (lookup k b.tags))
unfolding build_tags
lookup-build_tags b m k d =
    lookup-put_labels k m.label (put_tags b.tags [])
    ∙ ap (λ o. first_of (last_label k m.label) o)
        (lookup-put_tags k b.tags [] d ∙ (rw (no_tag k) (first_of-none _)))
