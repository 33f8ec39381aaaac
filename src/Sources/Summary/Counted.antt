-- ===== src/Sources/Summary/Counted.antt =====
-- Every value of a number type becomes a point that is sent on or counted as filtered.
use wavefront_collector_for.Prelude.{
  ℕ, suc, ap, length-append, ◌+◌, String, List, [], ◌∷◌, Option, none, some, true, length, ◌≡◌,
  refl, sym, sum_of, inl, inr, arith, is_some, is_empty, Bool-cases, if◌then◌else◌,
}
use wavefront_collector_for.Prelude.Text.{contains}
use wavefront_collector_for.Prelude.Maps.{Map}
use wavefront_collector_for.Prelude.Sort.{sum_of-sort_by, string_less}
use wavefront_collector_for.Float64.{Float64}
use wavefront_collector_for.Metrics.Types.{MetricSet, Value, LabeledValue, Sets}
use wavefront_collector_for.Wf.Point.{Point}
use wavefront_collector_for.Wf.Metric.{Metric, Batch, point, filter_tags}
use wavefront_collector_for.Filter.{GlobFilter, match_tag}
use wavefront_collector_for.Wf.Filtering.{filter, filter_append, filter_append-length}
use wavefront_collector_for.Sources.Summary.{
  PointConverter, Converted, Cells, Labeled, nothing_sent, append_sent, settle, add_labeled,
  sorted_entries, add_label_tags, get, number_of, send_point, send_value, send_labeled,
  convert_values, convert_labeled, convert_set, convert_sets, process, unix,
}

sum_of-sorted_entries :
    {V : Type 0} (g : String × V → ℕ) (m : Map V) → sum_of g (sorted_entries m) ≡ sum_of g m
sum_of-sorted_entries g m = sum_of-sort_by (λ a b. string_less a.0 b.0) g m

sum_of-empty : {A : Type 0} (g : A → ℕ) (xs : List A) → is_empty xs ≡ true → sum_of g xs ≡ 0
sum_of-empty g [] h = refl
sum_of-empty g (x ∷ xs) h = cc

module _ {F : Type 0} ⦃f : Float64 F⦄ where
  -- a value that has one of the two number types
  abbrev pub one_number : Value F → ℕ
  one_number v = if is_some (number_of v) then 1 else 0

  -- the points of a set: none for a container of the system
  abbrev pub set_numbers : MetricSet F → ℕ
  set_numbers ms =
      if contains "system.slice/" (get "container_name" (add_label_tags ms []))
      then 0
      else sum_of (λ entry. one_number entry.1) ms.values
        + sum_of (λ l. one_number l.value) ms.labeled_values

  -- what was sent on or filtered grew as the count of points, by n
  pub record Grown (n : ℕ) (before after : Converted F) : Type 0 where
    pub counted : after.collected ≡ before.collected + n
    pub kept : length after.metrics + after.filtered ≡ length before.metrics + before.filtered + n

  Grown-none : (done : Converted F) → Grown 0 done done
  Grown-none done = record { counted = omega arith; kept = omega arith }

  Grown-then : (m n : ℕ) (a b d : Converted F) → Grown m a b → Grown n b d → Grown (m + n) a d
  Grown-then m n a b d p q = record {
    counted = omega (arith, p.counted, q.counted);
    kept = omega (arith, p.kept, q.kept);
  }

  -- the same of the labeled values of a set
  record LabeledGrown (n : ℕ) (before after : Labeled F) : Type 0 where
    counted : after.collected ≡ before.collected + n
    kept : length after.sent + after.filtered ≡ length before.sent + before.filtered + n

  length-settle :
      (cells : Cells) (sent : List (ℕ × Metric F)) → length (settle cells sent) ≡ length sent
  unfolding settle
  length-settle cells [] = refl
  length-settle cells ((address, m) ∷ sent) = ap suc (length-settle cells sent)

  Grown-add_labeled :
      (n : ℕ) (labeled : Labeled F) (done : Converted F)
      → LabeledGrown n nothing_sent labeled
      → Grown n done (add_labeled labeled done)
  unfolding add_labeled
  Grown-add_labeled n labeled done g = record {
    counted = omega (arith, g.counted);
    kept = omega (
      arith,
      g.kept,
      length-append done.metrics (settle labeled.cells labeled.sent),
      length-settle labeled.cells labeled.sent,
    );
  }

  length-append_sent :
      (filters : Option GlobFilter) (address : ℕ) (sent : List (ℕ × Metric F)) (m : Metric F)
      → length (append_sent address sent (filter filters m).0) + (filter filters m).1
        ≡ length sent + 1
  unfolding filter
  length-append_sent none address sent m = ground (arith, length-append sent ((address, m) ∷ []))
  length-append_sent (some gf) address sent m =
      ground (arith, length-append sent ((address, filter_tags m (match_tag gf)) ∷ []))

  module _ (c : PointConverter) where
    Grown-send_point : (p : Point F) (done : Converted F) → Grown 1 done (send_point c p done).0
    unfolding send_point filter_append
    Grown-send_point p done = record {
      counted = refl;
      kept = omega (arith, filter_append-length c.filters done.metrics (point p));
    }

    module _ (node_name : String) (ts : ℕ) (metric_type hostname : String) where
      Grown-send_value :
          (name : String) (o : Option F) (tags : Map String) (done : Converted F)
          → Grown
              (if is_some o then 1 else 0)
              done
              (send_value c node_name ts metric_type hostname name o tags done).0
      Grown-send_value name none tags done = Grown-none done
      Grown-send_value name (some x) tags done = Grown-send_point _ done

      LabeledGrown-send_labeled :
          (address : ℕ) (l : LabeledValue F) (o : Option F) (tags : Map String) (done : Labeled F)
          → LabeledGrown
              (if is_some o then 1 else 0)
              done
              (send_labeled c node_name ts metric_type hostname address l o tags done)
      unfolding send_labeled
      LabeledGrown-send_labeled address l none tags done = record {
        counted = omega arith;
        kept = omega arith;
      }
      LabeledGrown-send_labeled address l (some x) tags done = record {
        counted = refl;
        kept = omega (arith, length-append_sent c.filters address done.sent (point _));
      }

      Grown-convert_values :
          (values : Map (Value F)) (tags : Map String) (done : Converted F)
          → Grown
              (sum_of (λ entry. one_number entry.1) values)
              done
              (convert_values c node_name ts metric_type hostname values tags done).0
      unfolding convert_values
      Grown-convert_values [] tags done = Grown-none done
      Grown-convert_values ((name, v) ∷ values) tags done =
          Grown-then _ _ done _ _ (Grown-send_value name (number_of v) tags done)
            (Grown-convert_values values _ _)

      LabeledGrown-convert_labeled :
          (address : ℕ → ℕ) (n : ℕ) (ls : List (LabeledValue F)) (tags : Map String)
          (done : Labeled F)
          → LabeledGrown
              (sum_of (λ l. one_number l.value) ls)
              done
              (convert_labeled c node_name ts metric_type hostname address n ls tags done)
      unfolding convert_labeled
      LabeledGrown-convert_labeled address n [] tags done = record {
        counted = omega arith;
        kept = omega arith;
      }
      LabeledGrown-convert_labeled address n (l ∷ ls) tags done =
          let p = LabeledGrown-send_labeled (address n) l (number_of l.value) tags done in
          let next =
            send_labeled c node_name ts metric_type hostname (address n) l (number_of l.value) tags
              done in
          let q = LabeledGrown-convert_labeled address (suc n) ls tags next in
          record {
            counted = omega (arith, p.counted, q.counted);
            kept = omega (arith, p.kept, q.kept);
          }

    module _ (node_name : String) (ts : ℕ) where
      Grown-convert_set :
          (address : ℕ → ℕ) (ms : MetricSet F) (done : Converted F)
          → Grown
              (set_numbers ms)
              done
              (convert_set c node_name ts address ms (add_label_tags ms []) done)
      unfolding convert_set
      Grown-convert_set address ms done =
          let tags = add_label_tags ms [] in
          let system = contains "system.slice/" (get "container_name" tags) in
          elim (Bool-cases system) [
            | inl e ↦ rw e (Grown-none done)
            | inr e ↦
                rw
                  (
                    e,
                    sym (
                        sum_of-sorted_entries (λ (entry : String × Value F). one_number entry.1)
                          ms.values),
                  )
                  (Grown-then _ _ done _ _
                    (Grown-convert_values node_name ts _ _ (sorted_entries ms.values) tags done)
                    (Grown-add_labeled _ _ _ (
                      LabeledGrown-convert_labeled node_name ts _ _ address 0 ms.labeled_values _
                        nothing_sent)))
          ]

      Grown-convert_sets :
          (address : String → ℕ → ℕ) (sets : Sets F) (done : Converted F)
          → Grown
              (sum_of (λ entry. set_numbers entry.1) sets)
              done
              (convert_sets c node_name ts address sets done)
      unfolding convert_sets
      Grown-convert_sets address [] done = Grown-none done
      Grown-convert_sets address ((key, ms) ∷ sets) done =
          Grown-then _ _ done _ _ (Grown-convert_set (address key) ms done)
            (Grown-convert_sets address sets _)

    -- A round of the converter makes as many points as the batch has values of a number type, without
    -- those of the containers of the system, and none without a set: so much does the count of points
    -- grow, and each of them is appended to the batch or counted as filtered, whichever labeled values of
    -- a set share a map of labels.
    pub Grown-process :
        (node_name : String) (address : String → ℕ → ℕ) (batch : Batch F)
        → let (after, done) = process c node_name address batch in
          (done.collected ≡ sum_of (λ entry. set_numbers entry.1) batch.sets)
          × (length after.metrics + done.filtered ≡ length batch.metrics + done.collected)
    unfolding process
    Grown-process node_name address batch =
        let count = λ (entry : String × MetricSet F). set_numbers entry.1 in
        let start : Converted F = record { metrics = batch.metrics; collected = 0; filtered = 0 } in
        let grown =
          Grown-convert_sets node_name (unix batch.timestamp) address (sorted_entries batch.sets)
            start in
        let same = sum_of-sorted_entries count batch.sets in
        elim (Bool-cases (is_empty batch.sets)) [
          | inl e ↦ rw e (sym (sum_of-empty count batch.sets e), omega arith)
          | inr e ↦
              rw e (omega (arith, grown.counted, same), omega (arith, grown.kept, grown.counted))
        ]
