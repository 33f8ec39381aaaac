-- ===== src/Flush/Exported.antt =====
-- When a flush exports, and what.
use wavefront_collector_for.Prelude.{List, [], ◌∷◌, none, some, ◌≡◌, refl, and_then, inl, inr, ◌⊎◌}
use wavefront_collector_for.Prelude.Result.{ok, err, Result-cases}
use wavefront_collector_for.Wf.Metric.{Batch}
use wavefront_collector_for.Flush.{
  Processor, empty_batch, combine_all, get_pending_metrics, process_all, push,
}

abbrev pub combined : {F : Type 0} → List (Batch F) → Batch F
combined response = combine_all (get_pending_metrics response).0 empty_batch

module _ {E F : Type 0} where
  -- the processors succeed one after the other, each on the batch of the one before
  pub data Chain : List (Processor E F) → Batch F → Batch F → Type 0 where
    done : {b : Batch F} → Chain [] b b
    next :
        {p : Processor E F} {ps : List (Processor E F)} {b c d : Batch F}
        → p b ≡ ok c
        → Chain ps c d
        → Chain (p ∷ ps) b d

  -- a processor fails, after some that succeed
  pub data Broken : List (Processor E F) → Batch F → Type 0 where
    now :
        {p : Processor E F} {ps : List (Processor E F)} {b : Batch F} {e : E}
        → p b ≡ err e
        → Broken (p ∷ ps) b
    later :
        {p : Processor E F} {ps : List (Processor E F)} {b c : Batch F}
        → p b ≡ ok c
        → Broken ps c
        → Broken (p ∷ ps) b

  Chain-process_all :
      (ps : List (Processor E F)) (b d : Batch F) → Chain ps b d → process_all ps b ≡ some d
  unfolding process_all and_then
  Chain-process_all [] b d done = refl
  Chain-process_all (p ∷ ps) b d (next {c = c} e rest) = rw e (Chain-process_all ps c d rest)

  Broken-process_all :
      (ps : List (Processor E F)) (b : Batch F) → Broken ps b → process_all ps b ≡ none
  unfolding process_all and_then
  Broken-process_all [] b h = elim h [ ]
  Broken-process_all (p ∷ ps) b (now e) = rw e refl
  Broken-process_all (p ∷ ps) b (later {c = c} e rest) = rw e (Broken-process_all ps c rest)

  Chain-or-Broken :
      (ps : List (Processor E F)) (b : Batch F) → ((d : Batch F) × Chain ps b d) ⊎ Broken ps b
  Chain-or-Broken [] b = inl (b, done)
  Chain-or-Broken (p ∷ ps) b = elim (Result-cases (p b)) [
    | inl (c, e) ↦ elim (Chain-or-Broken ps c) [
      | inl (d, rest) ↦ inl (d, next e rest)
      | inr rest ↦ inr (later e rest)
    ]
    | inr (x, e) ↦ inr (now e)
  ]

  -- A flush either exports the batch that the processors make one after the other of the combined
  -- batch, or leaves the sink as it is, where one of them fails. The pending batches are gone in both
  -- cases.
  pub push_lem :
      {S : Type 0} (ps : List (Processor E F)) (export : Batch F → S → S)
      (response : List (Batch F)) (sink : S)
      → ((d : Batch F) × Chain ps (combined response) d
          × (push ps export response sink ≡ ([], export d sink)))
        ⊎ (Broken ps (combined response) × (push ps export response sink ≡ ([], sink)))
  unfolding push get_pending_metrics
  push_lem ps export response sink = elim (Chain-or-Broken ps (combined response)) [
    | inl (d, c) ↦ inl (d, c, rw (Chain-process_all ps (combined response) d c) refl)
    | inr b ↦ inr (b, rw (Broken-process_all ps (combined response) b) refl)
  ]
