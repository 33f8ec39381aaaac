-- ===== src/Sinks/TagCleaning/OverCapacity.antt =====
-- How many labels are removed from a metric with too many tags.
use Prim.Native.Nat.{min, max}
use wavefront_collector_for.Prelude.{
  ℕ, suc, ◌-◌, ◌≤◌, ◌<◌, String, List, [], ◌∷◌, Bool, ◌≡◌, length, keep, arith, lt→ltb,
}
use wavefront_collector_for.Prelude.Maps.{Map, delete, keys}
use wavefront_collector_for.Prelude.Sort.{sort_strings}
use wavefront_collector_for.Sinks.Patterns.{alpha_beta_regex, iaas_name_regex}
use wavefront_collector_for.Sinks.TagCleaning.{
  remove_matching_loop, remove_tags_labels_matching, Cleaned, remove_labels,
}

loop_length :
    (regexp : String → Bool) (n count : ℕ) (names : List String) (tags : Map String)
    → length (remove_matching_loop regexp n count names tags).1
      ≡ min (length (keep regexp names)) (max 1 (n - count))
unfolding remove_matching_loop keep
loop_length regexp n count [] tags = omega arith
loop_length regexp n count (name ∷ names) tags = ground (
  arith,
  loop_length regexp n (suc count) names (delete name tags),
  loop_length regexp n count names tags,
)

-- As many labels are removed as match, up to the number asked for, but one if that number is 0.
pub remove_tags_labels_matching-length :
    (regexp : String → Bool) (tags : Map String) (number_to_remove : ℕ)
    → length (remove_tags_labels_matching tags regexp number_to_remove).1
      ≡ min (length (keep regexp (sort_strings (keys tags)))) (max 1 number_to_remove)
unfolding remove_tags_labels_matching
remove_tags_labels_matching-length regexp tags n =
    omega (arith, loop_length regexp n 0 (sort_strings (keys tags)) tags)

-- If removing the alpha and beta labels has brought the tags within the capacity, one IaaS label is
-- removed all the same, if there is any.
pub remove_labels-excess :
    (max_capacity : ℕ) (c : Cleaned)
    → max_capacity < length c.tags
    → length (remove_tags_labels_matching c.tags alpha_beta_regex (length c.tags - max_capacity)).0
      ≤ max_capacity
    → 0
      < length (
          keep iaas_name_regex (
            sort_strings (
              keys
                (remove_tags_labels_matching c.tags alpha_beta_regex
                  (length c.tags - max_capacity)).0)))
    → length (remove_labels max_capacity c).iaas ≡ 1
unfolding remove_labels
remove_labels-excess n c over fits some =
    let a = remove_tags_labels_matching c.tags alpha_beta_regex (length c.tags - n) in
    rw (lt→ltb n (length c.tags) over)
      (omega (arith, remove_tags_labels_matching-length iaas_name_regex a.0 (length a.0 - n)))
