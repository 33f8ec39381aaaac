-- ===== src/Sources/Summary/Shared.antt =====
-- What the shared map of tags does to the points of the values of one set.
use wavefront_collector_for.Prelude.{
  ℕ, String, List, [], ◌∷◌, ◌++◌, Option, none, some, Bool, true, false, ◌≡◌, ◌∙◌, refl, ap, inl,
  inr, keep, append-nil, append_assoc, arith, Bool-cases,
}
use wavefront_collector_for.Prelude.Maps.{Map}
use wavefront_collector_for.Float64.{Float64}
use wavefront_collector_for.Filter.{GlobFilter, match_metric, match_tag}
use wavefront_collector_for.Metrics.Types.{Value}
use wavefront_collector_for.Wf.Point.{Point, new_point, filter_keys}
use wavefront_collector_for.Wf.Point
use wavefront_collector_for.Wf.Metric.{Metric, point, name, tags, filter_tags}
use wavefront_collector_for.Wf.Filtering.{filter}
use wavefront_collector_for.Sources.Summary.{
  PointConverter, Converted, number_of, send_point, send_value, value_point, convert_values,
}

filter_keys_idempotent :
    (p : String → Bool) (m : Map String) → filter_keys p (filter_keys p m) ≡ filter_keys p m
unfolding filter_keys
filter_keys_idempotent p [] = refl
filter_keys_idempotent p ((k, v) ∷ m) = elim (Bool-cases (p k)) [
  | inl e ↦ rw (e, e, filter_keys_idempotent p m) refl
  | inr e ↦ rw e (filter_keys_idempotent p m)
]

keep-append {ℓ} :
    {A : Type ℓ} (p : A → Bool) (xs ys : List A) → keep p (xs ++ ys) ≡ keep p xs ++ keep p ys
unfolding keep
keep-append p [] ys = refl
keep-append p (x ∷ xs) ys = ground (arith, keep-append p xs ys)

abbrev pub with_filter : PointConverter → GlobFilter → PointConverter
with_filter c gf = record c { filters = some gf }

module _ {F : Type 0} (gf : GlobFilter) where
  abbrev pub accepts : Metric F → Bool
  accepts m = match_metric gf (name m) (tags m)

  abbrev pub filtered : Metric F → Metric F
  filtered m = filter_tags m (match_tag gf)

module _ {F : Type 0} ⦃f : Float64 F⦄ (c : PointConverter) (gf : GlobFilter) where
  module _ (node_name : String) (ts : ℕ) (metric_type hostname : String) where
    abbrev pub point_with : Map String → String → F → Metric F
    point_with t metric_name x =
        point (value_point (with_filter c gf) node_name ts metric_type hostname metric_name x t)

    abbrev pub one_point : Map String → String → Option F → List (Metric F)
    one_point t metric_name none = []
    one_point t metric_name (some x) = point_with t metric_name x ∷ []

    -- a point for each value of a number type, each with these tags
    abbrev pub points_with : Map String → Map (Value F) → List (Metric F)
    points_with t [] = []
    points_with t ((metric_name, v) ∷ values) =
        one_point t metric_name (number_of v) ++ points_with t values

    abbrev sent : Map String → String → Option F → Converted F → Converted F × Map String
    sent t metric_name o done =
        send_value (with_filter c gf) node_name ts metric_type hostname metric_name o t done

    sent-accepted :
        (t : Map String) (metric_name : String) (x : F) (done : Converted F)
        → accepts gf (point_with t metric_name x) ≡ true
        → ((sent t metric_name (some x) done).0.metrics
            ≡ done.metrics ++ (filtered gf (point_with t metric_name x) ∷ []))
          × ((sent t metric_name (some x) done).1 ≡ filter_keys (match_tag gf) t)
    unfolding send_point filter filter_tags Point.filter_tags new_point
    sent-accepted t metric_name x done h = rw h (refl, refl)

    sent-rejected :
        (t : Map String) (metric_name : String) (x : F) (done : Converted F)
        → accepts gf (point_with t metric_name x) ≡ false
        → ((sent t metric_name (some x) done).0.metrics ≡ done.metrics)
          × ((sent t metric_name (some x) done).1 ≡ t)
    unfolding send_point filter new_point
    sent-rejected t metric_name x done h = rw h (refl, refl)

    filtered-point_with :
        (t : Map String) (metric_name : String) (x : F)
        → filter_keys (match_tag gf) t ≡ t
        → filtered gf (point_with t metric_name x) ≡ point_with t metric_name x
    unfolding filter_tags Point.filter_tags new_point keep
    filtered-point_with t metric_name x h = rw h refl

    sent-kept :
        (t : Map String) (metric_name : String) (o : Option F) (done : Converted F)
        → filter_keys (match_tag gf) t ≡ t
        → ((sent t metric_name o done).0.metrics
            ≡ done.metrics ++ keep (accepts gf) (one_point t metric_name o))
          × ((sent t metric_name o done).1 ≡ t)
    unfolding keep
    sent-kept t metric_name none done k = (rw append-nil refl, refl)
    sent-kept t metric_name (some x) done k =
        elim (Bool-cases (accepts gf (point_with t metric_name x))) [
          | inl passes ↦
              let (ms, left) = sent-accepted t metric_name x done passes in
              (ms ∙ rw (filtered-point_with t metric_name x k, passes) refl, left ∙ k)
          | inr fails ↦
              let (ms, left) = sent-rejected t metric_name x done fails in
              (ms ∙ rw (fails, append-nil) refl, left)
        ]

    -- Where the filter leaves all tags of the set, every point is accepted or not by its own name and
    -- these tags, and the accepted ones are appended as they are.
    pub metrics-convert_values_kept :
        (t : Map String) (values : Map (Value F)) (done : Converted F)
        → filter_keys (match_tag gf) t ≡ t
        → (convert_values
            (with_filter c gf)
            node_name
            ts
            metric_type
            hostname
            values
            t
            done).0.metrics
          ≡ done.metrics ++ keep (accepts gf) (points_with t values)
    unfolding convert_values keep
    metrics-convert_values_kept t [] done k = rw append-nil refl
    metrics-convert_values_kept t ((metric_name, v) ∷ values) done k =
        let o = number_of v in
        let (ms, left) = sent-kept t metric_name o done k in
        let next = (sent t metric_name o done).0 in
        ap
          (λ u.
            (convert_values (with_filter c gf) node_name ts metric_type hostname values u
              next).0.metrics)
          left
        ∙ metrics-convert_values_kept t values next k
        ∙ ap (λ l. l ++ keep (accepts gf) (points_with t values)) ms
        ∙ rw (keep-append, append_assoc) refl

    -- The first point of a set that is accepted changes the tags by which the points of the values after
    -- it are accepted, and from which a namespace's source is taken: from then on only those tags are
    -- looked at that the filter leaves.
    pub metrics-convert_values_filtered :
        (t : Map String) (metric_name : String) (v : Value F) (x : F) (values : Map (Value F))
        (done : Converted F)
        → number_of v ≡ some x
        → accepts gf (point_with t metric_name x) ≡ true
        → (convert_values
            (with_filter c gf)
            node_name
            ts
            metric_type
            hostname
            ((metric_name, v) ∷ values)
            t
            done).0.metrics
          ≡ done.metrics
            ++ (filtered gf (point_with t metric_name x)
                ∷ keep (accepts gf) (points_with (filter_keys (match_tag gf) t) values))
    unfolding convert_values
    metrics-convert_values_filtered t metric_name v x values done number h =
        let (ms, left) = sent-accepted t metric_name x done h in
        let next = (sent t metric_name (some x) done).0 in
        let rest = λ (p : Converted F × Map String).
          (convert_values (with_filter c gf) node_name ts metric_type hostname values p.1
            p.0).0.metrics in
        ap (λ o. rest (sent t metric_name o done)) number
        ∙ ap (λ u. rest (next, u)) left
        ∙ metrics-convert_values_kept (filter_keys (match_tag gf) t) values next
            (filter_keys_idempotent (match_tag gf) t)
        ∙ ap (λ l. l ++ keep (accepts gf) (points_with (filter_keys (match_tag gf) t) values)) ms
        ∙ rw append_assoc refl
