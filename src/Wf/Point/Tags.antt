-- ===== src/Wf/Point/Tags.antt =====
-- The tags of a point or a distribution after tags were added.
use wavefront_collector_for.Prelude.{
  String, [], ◌∷◌, none, some, Bool, true, false, ◌≡◌, ◌==◌, eq_iff, eq_refl, arith, is_some,
  if◌then◌else◌,
}
use wavefront_collector_for.Prelude.Maps.{
  Map, lookup, insert, copy_into, lookup-insert, lookup-copy_into, Distinct, first_of,
  Distinct-insert,
}
use wavefront_collector_for.Wf.Point.{Point, add_new, add_all_new, add_tag, tags_of}

lookup-add_new :
    (k name value : String) (tags : Map String)
    → lookup k (add_new name value tags)
      ≡ first_of (lookup k tags) (if name == k then some value else none)
unfolding add_new
lookup-add_new k name value tags = ground (arith, lookup-insert name k value tags, eq_iff name k)

-- A tag that is there keeps its value, and of the new ones of a name the first counts.
pub lookup-add_all_new :
    (k : String) (more tags : Map String)
    → lookup k (add_all_new more tags) ≡ first_of (lookup k tags) (lookup k more)
unfolding add_all_new lookup
lookup-add_all_new k [] tags = ground arith
lookup-add_all_new k ((name, value) ∷ more) tags =
    ground
      (arith, lookup-add_all_new k more (add_new name value tags), lookup-add_new k name value tags)

pub Distinct-add_all_new :
    (more tags : Map String) → Distinct tags → Distinct (add_all_new more tags)
unfolding add_all_new add_new
Distinct-add_all_new [] tags d = d
Distinct-add_all_new ((name, value) ∷ more) tags d =
    Distinct-add_all_new more (add_new name value tags) (step (is_some (lookup name tags)))
  where
    step : (b : Bool) → Distinct (if b then tags else insert name value tags)
    step true = d
    step false = Distinct-insert name value tags d

module _ {F : Type 0} where
  -- A tag added to a point whose tags have different names, and none of them that name, is the value that the point
  -- reports for the name, whatever its label pairs say.
  pub add_tag-hides_label :
      (m : Point F) (name value : String)
      → Distinct m.tags
      → lookup name m.tags ≡ none
      → lookup name (tags_of (add_tag m name value)) ≡ some value
  unfolding add_tag tags_of add_new
  add_tag-hides_label m name value d h = rw h (
      rw (
        lookup-copy_into name (insert name value m.tags) (copy_into m.label_pairs [])
            (Distinct-insert name value m.tags d),
        lookup-insert,
        eq_refl,
      ))
