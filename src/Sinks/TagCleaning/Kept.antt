-- ===== src/Sinks/TagCleaning/Kept.antt =====
-- Cleaning only removes tags: what is left is what was there, and no empty or excluded tag is left.
use wavefront_collector_for.Prelude.{
  ℕ, suc, ◌-◌, ◌≤◌, String, List, [], ◌∷◌, Option, none, some, Bool, false, ◌||◌, eq_iff, ◌≡◌, refl,
  ltb, length, or_else, if◌then◌else◌, arith,
}
use wavefront_collector_for.Prelude.Maps.{Map, lookup, delete, keys, lookup-delete, Distinct}
use wavefront_collector_for.Prelude.Sort.{sort_strings}
use wavefront_collector_for.Sinks.Patterns.{alpha_beta_regex, iaas_name_regex}
use wavefront_collector_for.Sinks.TagCleaning.{
  is_an_empty_tag, exclude_tag, remove_where, remove_empty_tags, exclude_tags, Dedupe, dedupe_one,
  dedupe_from, dedupe_tag_values, remove_matching_loop, remove_tags_labels_matching, Cleaned,
  remove_always, remove_duplicates, remove_labels, clean_tags,
}

-- every tag of a stands in b with the same value
abbrev pub Sub : Map String → Map String → Type 0
Sub a b = (k v : String) → lookup k a ≡ some v → lookup k b ≡ some v

abbrev pub unless : (String → String → Bool) → String → Option String → Option String
unless p k none = none
unless p k (some v) = if p k v then none else some v

pub lookup-remove_where :
    (p : String → String → Bool) (k : String) (tags : Map String)
    → Distinct tags
    → lookup k (remove_where p tags).0 ≡ unless p k (lookup k tags)
unfolding remove_where lookup
lookup-remove_where p k [] d = refl
lookup-remove_where p k ((j, v) ∷ tags) d =
    ground (arith, lookup-remove_where p k tags d.1, eq_iff j k, d.0)

pub Distinct-remove_where :
    (p : String → String → Bool) (tags : Map String)
    → Distinct tags
    → Distinct (remove_where p tags).0
unfolding remove_where
Distinct-remove_where p [] d = tt
Distinct-remove_where p ((j, v) ∷ tags) d =
    ground (arith, Distinct-remove_where p tags d.1, lookup-remove_where p j tags d.1, d.0)

Sub-delete : (k : String) (tags : Map String) → Sub (delete k tags) tags
Sub-delete k tags j v h = ground (arith, lookup-delete k j tags)

Sub-dedupe_one : (name value : String) (s : Dedupe) → Sub (dedupe_one name value s).tags s.tags
unfolding dedupe_one
Sub-dedupe_one name value s k v h = ground (
  arith,
  h,
  Sub-delete name s.tags k v,
  Sub-delete (or_else (lookup value s.inverted_tags) "") s.tags k v,
)

Sub-dedupe_from : (more : Map String) (s : Dedupe) → Sub (dedupe_from more s).tags s.tags
unfolding dedupe_from
Sub-dedupe_from [] s k v h = h
Sub-dedupe_from ((name, value) ∷ more) s k v h =
    Sub-dedupe_one name value s k v (Sub-dedupe_from more (dedupe_one name value s) k v h)

Sub-remove_matching_loop :
    (regexp : String → Bool) (n count : ℕ) (names : List String) (tags : Map String)
    → Sub (remove_matching_loop regexp n count names tags).0 tags
unfolding remove_matching_loop
Sub-remove_matching_loop regexp n count [] tags k v h = h
Sub-remove_matching_loop regexp n count (name ∷ names) tags k v h = ground (
  arith,
  h,
  Sub-delete name tags k v,
  Sub-remove_matching_loop regexp n (suc count) names (delete name tags) k v,
  Sub-remove_matching_loop regexp n count names tags k v,
)

-- what the first two steps leave of a tag
abbrev pub sendable : String → String → Bool
sendable k v = is_an_empty_tag v || exclude_tag k

pub lookup-remove_always :
    (tags : Map String) (k : String)
    → Distinct tags
    → lookup k (remove_always tags).tags ≡ unless sendable k (lookup k tags)
unfolding remove_always remove_empty_tags exclude_tags
lookup-remove_always tags k d =
    let p = λ (n v : String). is_an_empty_tag v in
    ground (
      arith,
      lookup-remove_where (λ n v. exclude_tag n) k (remove_where p tags).0
          (Distinct-remove_where p tags d),
      lookup-remove_where p k tags d,
    )

Sub-remove_duplicates : (n : ℕ) (c : Cleaned) → Sub (remove_duplicates n c).tags c.tags
unfolding remove_duplicates dedupe_tag_values
Sub-remove_duplicates n c k v h =
    let s : Dedupe = record { tags = c.tags; inverted_tags = []; removed_tags = [] } in
    ground (arith, h, Sub-dedupe_from c.tags s k v)

Sub-remove_labels : (n : ℕ) (c : Cleaned) → Sub (remove_labels n c).tags c.tags
unfolding remove_labels remove_tags_labels_matching
Sub-remove_labels n c k v h =
    let a =
      remove_matching_loop alpha_beta_regex (length c.tags - n) 0 (sort_strings (keys c.tags))
        c.tags in
    ground (
      arith,
      h,
      Sub-remove_matching_loop alpha_beta_regex (length c.tags - n) 0 (sort_strings (keys c.tags))
          c.tags k v,
      Sub-remove_matching_loop iaas_name_regex (length a.0 - n) 0 (sort_strings (keys a.0)) a.0 k v,
    )

-- Of tags whose names are all different, as in a map, a tag that is left has the value that it had,
-- which is not empty, and its name is not excluded.
pub clean_tags_sound :
    (tags : Map String) (max_capacity : ℕ) (k v : String)
    → Distinct tags
    → lookup k (clean_tags tags max_capacity).tags ≡ some v
    → (lookup k tags ≡ some v) × (is_an_empty_tag v ≡ false) × (exclude_tag k ≡ false)
unfolding clean_tags
clean_tags_sound tags n k v d h =
    let a = remove_always tags in
    let e = Sub-remove_duplicates n a k v (Sub-remove_labels n (remove_duplicates n a) k v h) in
    let l = lookup-remove_always tags k d in ground arith

within : (a b : ℕ) → b ≤ a → ltb a b ≡ false
within a b h = ground arith

remove_duplicates-within : (n : ℕ) (c : Cleaned) → length c.tags ≤ n → remove_duplicates n c ≡ c
unfolding remove_duplicates
remove_duplicates-within n c h = rw (within n (length c.tags) h)

remove_labels-within : (n : ℕ) (c : Cleaned) → length c.tags ≤ n → remove_labels n c ≡ c
unfolding remove_labels
remove_labels-within n c h = rw (within n (length c.tags) h)

-- If the names of the tags are all different and at most the capacity is left once the empty and the
-- excluded tags are gone, exactly those are removed.
pub clean_tags-within :
    (tags : Map String) (max_capacity : ℕ) (k : String)
    → Distinct tags
    → length (remove_always tags).tags ≤ max_capacity
    → lookup k (clean_tags tags max_capacity).tags ≡ unless sendable k (lookup k tags)
unfolding clean_tags
clean_tags-within tags n k d h =
    rw
      (
        remove_duplicates-within n (remove_always tags) h,
        remove_labels-within n (remove_always tags) h,
      )
      (lookup-remove_always tags k d)
