-- ===== src/Wf/Point.antt =====
-- internal/wf/point.go: a single value with its tags. A nil tag map and an empty one are the same
-- list here: every method treats them alike. The pointers of a label pair are its two strings.
pub mod Tags
use wavefront_collector_for.Prelude.{
  ℕ, String, List, [], ◌∷◌, Option, none, some, Bool, ◌≡◌, refl, is_some, ◌==◌, eq_iff, arith, keep,
  if◌then◌else◌,
}
use wavefront_collector_for.Prelude.Maps.{Map, lookup, insert, copy_into, lookup-insert}

pub record Point (F : Type 0) : Type 0 where
  pub metric : String
  pub value : F
  pub timestamp : ℕ
  pub source : String
  pub tags : Map String
  pub label_pairs : List (String × String)

-- tags[name] = value, unless the name is taken
unfoldable pub add_new : String → String → Map String → Map String
add_new name value tags = if is_some (lookup name tags) then tags else insert name value tags

-- AddTags: the loop over the new tags
unfoldable pub add_all_new : Map String → Map String → Map String
unfolding add_new
add_all_new [] tags = tags
add_all_new ((name, value) ∷ more) tags = add_all_new more (add_new name value tags)

-- the entries of the map whose key passes
unfoldable pub filter_keys : (String → Bool) → Map String → Map String
filter_keys pred [] = []
filter_keys pred ((name, value) ∷ tags) =
    let rest = filter_keys pred tags in if pred name then (name, value) ∷ rest else rest

module _ {F : Type 0} where
  unfoldable pub new_point : String → F → ℕ → String → Map String → Point F
  new_point metric value timestamp source tags = record {
    metric = metric;
    value = value;
    timestamp = timestamp;
    source = source;
    tags = tags;
    label_pairs = [];
  }

  unfoldable pub set_label_pairs : Point F → List (String × String) → Point F
  set_label_pairs m pairs = record m { label_pairs = pairs }

  unfoldable pub set_source : Point F → String → Point F
  set_source m source = record m { source = source }

  unfoldable pub override_tag : Point F → String → String → Point F
  override_tag m name value = record m { tags = insert name value m.tags }

  unfoldable pub add_tag : Point F → String → String → Point F
  unfolding add_new
  add_tag m name value = record m { tags = add_new name value m.tags }

  unfoldable pub add_tags : Point F → Map String → Point F
  unfolding add_all_new
  add_tags m tags = record m { tags = add_all_new tags m.tags }

  -- Tags: the label pairs, overwritten by the tags
  unfoldable pub tags_of : Point F → Map String
  tags_of m = copy_into m.tags (copy_into m.label_pairs [])

  unfoldable pub filter_tags : Point F → (String → Bool) → Point F
  filter_tags m pred = record m {
    label_pairs = keep (λ p. pred p.0) m.label_pairs;
    tags = filter_keys pred m.tags;
  }
