-- ===== src/Metrics/Exported.antt =====
-- The functions of internal/metrics/labels.go: each hands out a copy of a table.
use wavefront_collector_for.Prelude.{
  ℕ, zero, suc, ◌+◌, ◌≤◌, List, [], ◌∷◌, ◌++◌, ◌≡◌, refl, ap, ◌∙◌, length, arith,
}
use wavefront_collector_for.Prelude.Maps.{Map, insert}
use wavefront_collector_for.Metrics.Labels.{
  LabelDescriptor, label_metric_set_type, label_pod_name, label_namespace_name, label_hostname,
  label_host_id, label_container_name, label_container_base_image, label_custom_metric_name,
  label_resource_id, label_gce_resource_id, label_gce_resource_type, common_labels as common_table,
  container_labels as container_table, pod_labels as pod_table, metric_labels as metric_table,
  custom_metric_labels as custom_metric_table,
}

-- copy(dst, src): the front of dst is overwritten, as far as both reach
unfoldable pub copy_over {ℓ} : {A : Type ℓ} → List A → List A → List A
copy_over [] src = []
copy_over (d ∷ dst) [] = d ∷ dst
copy_over (d ∷ dst) (s ∷ src) = s ∷ copy_over dst src

abbrev blank : LabelDescriptor
blank = record { key = ""; description = "" }

-- make([]LabelDescriptor, n)
unfoldable pub blanks : ℕ → List LabelDescriptor
blanks zero = []
blanks (suc n) = blank ∷ blanks n

unfoldable pub copied : List LabelDescriptor → List LabelDescriptor
copied table = copy_over (blanks (length table)) table

abbrev pub get_common_labels : List LabelDescriptor
get_common_labels = copied common_table

abbrev pub get_container_labels : List LabelDescriptor
get_container_labels = copied container_table

abbrev pub get_pod_labels : List LabelDescriptor
get_pod_labels = copied pod_table

-- the body of MetricLabels over its two tables
unfoldable pub copied_both : List LabelDescriptor → List LabelDescriptor → List LabelDescriptor
copied_both table custom =
    copy_over (copy_over (blanks (length table + length custom)) table) custom

abbrev pub get_metric_labels : List LabelDescriptor
get_metric_labels = copied_both metric_table custom_metric_table

abbrev pub supported_labels : List LabelDescriptor
supported_labels = get_common_labels ++ (get_pod_labels ++ get_metric_labels)

abbrev pub gcm_labels : List LabelDescriptor
gcm_labels =
    label_metric_set_type ∷ label_pod_name ∷ label_namespace_name ∷ label_hostname ∷ label_host_id
    ∷ label_container_name ∷ label_container_base_image ∷ label_custom_metric_name
    ∷ label_resource_id ∷ []

abbrev pub gcm_node_autoscaling_labels : List LabelDescriptor
gcm_node_autoscaling_labels = label_gce_resource_id ∷ label_gce_resource_type ∷ label_hostname ∷ []

by_key : List LabelDescriptor → Map LabelDescriptor → Map LabelDescriptor
by_key [] result = result
by_key (l ∷ ls) result = by_key ls (insert l.key l result)

-- GcmLabels and GcmNodeAutoscalingLabels, each over its table
unfoldable pub labels_by_key : List LabelDescriptor → Map LabelDescriptor
unfolding by_key
labels_by_key table = by_key table []

copied_lem : (table : List LabelDescriptor) → copied table ≡ table
unfolding copied copy_over blanks
copied_lem [] = refl
copied_lem (l ∷ table) = ap (λ ls. l ∷ ls) (copied_lem table)

overwritten {ℓ} :
    {A : Type ℓ} (dst first second : List A)
    → length first ≤ length second
    → copy_over (copy_over dst first) second ≡ copy_over dst second
unfolding copy_over
overwritten [] first second h = refl
overwritten (d ∷ dst) [] second h = refl
overwritten (d ∷ dst) (x ∷ first) [] h = ground arith
overwritten (d ∷ dst) (x ∷ first) (y ∷ second) h =
    ap (λ ls. y ∷ ls) (overwritten dst first second (ground arith))

over_front :
    (custom : List LabelDescriptor) (n : ℕ)
    → copy_over (blanks (length custom + n)) custom ≡ custom ++ blanks n
unfolding copy_over blanks
over_front [] n =
    let e : length {A = LabelDescriptor} [] + n ≡ n = omega arith in
    ap (λ k. copy_over (blanks k) []) e ∙ over_none (blanks n)
  where
    over_none : (dst : List LabelDescriptor) → copy_over dst [] ≡ dst
    over_none [] = refl
    over_none (d ∷ dst) = refl
over_front (c ∷ custom) n =
    let e : length (c ∷ custom) + n ≡ suc (length custom + n) = omega arith in
    ap (λ k. copy_over (blanks k) (c ∷ custom)) e ∙ ap (λ ls. c ∷ ls) (over_front custom n)

-- Where the second table is at least as long as the first, as it is in MetricLabels, nothing of the
-- first one is left: the result is the second table and a blank label for each of the first.
pub copied_both_lem :
    (table custom : List LabelDescriptor)
    → length table ≤ length custom
    → copied_both table custom ≡ custom ++ blanks (length table)
unfolding copied_both
copied_both_lem table custom h =
    overwritten (blanks (length table + length custom)) table custom h
    ∙ ap (λ n. copy_over (blanks n) custom) (omega arith)
    ∙ over_front custom (length table)
