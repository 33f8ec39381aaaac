-- ===== src/Sources/Summary.antt =====
-- plugins/sources/summary/wavefront_converter.go with converter_utils.go: a batch of metric sets is
-- converted to points. All points of the values of a set share one map of tags, and the filter deletes
-- entries of that map in place: the map is passed on from point to point, and since the filter deletes
-- by the tag's name alone, a point made earlier would lose no more to a later filter.
-- Labeled values of one set may share a map of labels, as those of one file system do. The tags are
-- written to that map, and the filter deletes from it; the points made of it before change with it.
-- Which values share one is a parameter: the address of the map of the n-th labeled value of the set of
-- a key. A nil map has an address of its own, since the code makes a map for it. The range over a map
-- in sorted order is over the sorted entries.
pub mod Counted
pub mod Shared
use Prim.Native.String.{◌++◌}
use Prim.Native.Char.{Char}
use wavefront_collector_for.Prelude.{
  ℕ, suc, eqb, ◌+◌, ◌-◌, ◌/◌, ◌%◌, ◌^◌, String, List, [], ◌∷◌, Option, none, some, Bool, true,
  false, not, ◌==◌, is_empty, or_else, if◌then◌else◌,
}
use mathlib.Core.List.{◌++◌ as ◌++ₗ◌}
use wavefront_collector_for.Prelude.Text.{contains, split, split_once, replace}
use wavefront_collector_for.Prelude.Maps.{Map, lookup, insert, copy_into}
use wavefront_collector_for.Prelude.Sort.{sort_by, string_less}
use wavefront_collector_for.Float64.{Float64}
use wavefront_collector_for.Filter.{GlobFilter}
use wavefront_collector_for.Metrics.Types.{
  MetricSet, Value, LabeledValue, Sets, ValueType, value_int64, value_float, value_other,
}
use wavefront_collector_for.Wf.Point.{Point, new_point}
use wavefront_collector_for.Wf.Metric.{Metric, Batch, point, distribution}
use wavefront_collector_for.Wf.Filtering.{filter, append_some}

pub record PointConverter : Type 0 where
  pub cluster : String
  pub prefix : String
  pub filters : Option GlobFilter

-- what a batch has come to: the points, and by how much the two counters grew
pub record Converted (F : Type 0) : Type 0 where
  pub metrics : List (Metric F)
  pub collected : ℕ
  pub filtered : ℕ

abbrev pub sorted_entries : {V : Type 0} → Map V → Map V
sorted_entries m = sort_by (λ a b. string_less a.0 b.0) m

abbrev pub put_label : Option (String × String) → Map String → Map String
put_label none tags = tags
put_label (some (name, value)) tags = insert ("label." ++ name) value tags

-- labels = app:webproxy,version:latest
unfoldable pub add_each_label : List String → Map String → Map String
add_each_label [] tags = tags
add_each_label (label ∷ labels) tags =
    add_each_label labels (put_label (split_once b':' label) tags)

unfoldable pub add_sorted_labels : Map String → Map String → Map String
unfolding add_each_label
add_sorted_labels [] tags = tags
add_sorted_labels ((name, value) ∷ labels) tags =
    add_sorted_labels labels
      (if name == "labels" then add_each_label (split b',' value) tags else insert name value tags)

unfoldable pub add_label_tags : {F : Type 0} → MetricSet F → Map String → Map String
unfolding add_sorted_labels
add_label_tags ms tags = add_sorted_labels (sorted_entries ms.labels) tags

abbrev pub get : String → Map String → String
get name tags = or_else (lookup name tags) ""

dot : Char
dot = "."

unfoldable pub clean_metric_name : PointConverter → String → String → String
unfolding dot
clean_metric_name c metric_type metric_name =
    c.prefix ++ metric_type ++ "." ++ replace b'/' dot metric_name

unfoldable pub source_of : PointConverter → String → String → String → Map String → String
source_of c node_name metric_type hostname tags =
    if not (node_name == "")
    then node_name
    else if metric_type == "cluster"
    then c.cluster
    else if metric_type == "ns"
    then get "namespace_name" tags ++ "-ns"
    else hostname

unfoldable pub labeled_source : String → String → String
labeled_source node_name hostname = if node_name == "" then hostname else node_name

module _ {F : Type 0} ⦃f : Float64 F⦄ where
  abbrev number : ValueType → Value F → Option F
  number value_int64 v = some (f.of_int64 v.int_value)
  number value_float v = some v.float_value
  number (value_other n) v = none

  -- the value as a float64, if its type is one of the two
  abbrev pub number_of : Value F → Option F
  number_of v = number v.value_type v

-- the map of the point, as the filter leaves it
abbrev pub tags_after : {F : Type 0} → Map String → Option (Metric F) → Map String
tags_after tags none = tags
tags_after tags (some (point p)) = p.tags
tags_after tags (some (distribution d)) = d.tags

module _ {F : Type 0} (c : PointConverter) where
  -- FilterAppend and the two counters, with the point's map afterwards
  unfoldable pub send_point : Point F → Converted F → Converted F × Map String
  send_point p done =
      let (kept, dropped) = filter c.filters (point p) in
      (
        record {
          metrics = append_some done.metrics kept;
          collected = done.collected + 1;
          filtered = done.filtered + dropped;
        },
        tags_after p.tags kept,
      )

-- the maps of labels that were written, by address, with the last state of each first
abbrev pub Cells : Type 0
Cells = List (ℕ × Map String)

unfoldable pub read_cell : ℕ → Map String → Cells → Map String
read_cell address unwritten [] = unwritten
read_cell address unwritten ((written, m) ∷ cells) =
    if eqb written address then m else read_cell address unwritten cells

-- what the labeled values of a set have come to: the maps, the points that the filter kept, each with
-- the address of its map, and the growth of the counters
pub record Labeled (F : Type 0) : Type 0 where
  pub cells : Cells
  pub sent : List (ℕ × Metric F)
  pub collected : ℕ
  pub filtered : ℕ

module _ {F : Type 0} where
  abbrev pub nothing_sent : Labeled F
  nothing_sent = record { cells = []; sent = []; collected = 0; filtered = 0 }

  abbrev pub append_sent : ℕ → List (ℕ × Metric F) → Option (Metric F) → List (ℕ × Metric F)
  append_sent address sent none = sent
  append_sent address sent (some m) = sent ++ₗ (address, m) ∷ []

  -- a metric with the map at its address as it stands at the end
  abbrev pub settled : Cells → ℕ → Metric F → Metric F
  settled cells address (point p) = point (record p { tags = read_cell address p.tags cells })
  settled cells address (distribution d) =
      distribution (record d { tags = read_cell address d.tags cells })

  unfoldable pub settle : Cells → List (ℕ × Metric F) → List (Metric F)
  unfolding read_cell
  settle cells [] = []
  settle cells ((address, m) ∷ sent) = settled cells address m ∷ settle cells sent

  -- the batch, with the points of the labeled values of a set
  unfoldable pub add_labeled : Labeled F → Converted F → Converted F
  unfolding settle
  add_labeled labeled done = record {
    metrics = done.metrics ++ₗ settle labeled.cells labeled.sent;
    collected = done.collected + labeled.collected;
    filtered = done.filtered + labeled.filtered;
  }

module _ {F : Type 0} ⦃f : Float64 F⦄ (c : PointConverter) (node_name : String) (ts : ℕ) where
  module _ (metric_type hostname : String) where
    abbrev pub value_point : String → F → Map String → Point F
    value_point metric_name value tags =
        new_point (clean_metric_name c metric_type metric_name) value ts
          (source_of c node_name metric_type hostname tags) tags

    abbrev pub send_value : String → Option F → Map String → Converted F → Converted F × Map String
    send_value metric_name none tags done = (done, tags)
    send_value metric_name (some value) tags done =
        send_point c (value_point metric_name value tags) done

    -- the loop over the sorted values
    unfoldable pub convert_values :
        Map (Value F) → Map String → Converted F → Converted F × Map String
    unfolding send_point
    convert_values [] tags done = (done, tags)
    convert_values ((metric_name, v) ∷ values) tags done =
        let (next, left) = send_value metric_name (number_of v) tags done in
        convert_values values left next

    -- what is written to the map of the labels before the point is made of it
    abbrev labeled_point : LabeledValue F → F → Map String → Map String → Point F
    labeled_point l value tags labels =
        new_point (clean_metric_name c metric_type l.name) value ts
          (labeled_source node_name hostname) (copy_into tags labels)

    unfoldable pub send_labeled : ℕ → LabeledValue F → Option F → Map String → Labeled F → Labeled F
    unfolding read_cell
    send_labeled address l none tags done = done
    send_labeled address l (some value) tags done =
        let p = labeled_point l value tags (read_cell address l.labels done.cells) in
        let (kept, dropped) = filter c.filters (point p) in
        record {
          cells = (address, tags_after p.tags kept) ∷ done.cells;
          sent = append_sent address done.sent kept;
          collected = done.collected + 1;
          filtered = done.filtered + dropped;
        }

    -- the loop over the labeled values, from the n-th
    unfoldable pub convert_labeled :
        (ℕ → ℕ) → ℕ → List (LabeledValue F) → Map String → Labeled F → Labeled F
    unfolding send_labeled
    convert_labeled address n [] tags done = done
    convert_labeled address n (l ∷ ls) tags done =
        convert_labeled address (suc n) ls tags
          (send_labeled (address n) l (number_of l.value) tags done)

  -- one set, with its tags
  unfoldable pub convert_set : (ℕ → ℕ) → MetricSet F → Map String → Converted F → Converted F
  unfolding convert_values convert_labeled add_labeled
  convert_set address ms tags done =
      let metric_type = get "type" tags in
      let hostname = get "hostname" tags in
      if contains "system.slice/" (get "container_name" tags)
      then done
      else let (next, left) =
          convert_values metric_type hostname (sorted_entries ms.values) tags done in
        add_labeled
          (convert_labeled metric_type hostname address 0 ms.labeled_values left nothing_sent) next

  unfoldable pub convert_sets : (String → ℕ → ℕ) → Sets F → Converted F → Converted F
  unfolding convert_set add_label_tags
  convert_sets address [] done = done
  convert_sets address ((key, ms) ∷ sets) done =
      convert_sets address sets (convert_set (address key) ms (add_label_tags ms []) done)

-- the seconds of a time since 1970, an int64; year 1 was 62135596800 seconds earlier
unfoldable pub unix : ℕ → ℕ
unix t = (t / 1000000000 + (2 ^ 64 - 62135596800)) % 2 ^ 64

module _ {F : Type 0} ⦃f : Float64 F⦄ (c : PointConverter) (node_name : String) where
  -- Process, with the growth of the counters
  unfoldable pub process : (String → ℕ → ℕ) → Batch F → Batch F × Converted F
  unfolding convert_sets unix
  process address batch =
      let start : Converted F = record { metrics = batch.metrics; collected = 0; filtered = 0 } in
      let done =
        convert_sets c node_name (unix batch.timestamp) address (sorted_entries batch.sets) start in
      if is_empty batch.sets
      then (batch, start)
      else (record batch { metrics = done.metrics }, done)
