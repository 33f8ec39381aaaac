-- ===== src/Sources/State/Pods/Messages.antt =====
-- How long a message in the tags of a pod is.
use Prim.Native.String.{count}
use text.Mathlib.TextLemmas.{length-cons}
use wavefront_collector_for.Prelude.{
  ℕ, zero, suc, ◌+◌, ◌≤◌, String, List, [], ◌∷◌, Option, none, some, Bool, true, false, ◌≡◌, ◌==◌,
  ◌&&◌, arith, leb, eqb, Bool-cases, inl, inr, if◌then◌else◌,
}
use wavefront_collector_for.Prelude.Maps.{Map, lookup, insert, lookup-insert}
use wavefront_collector_for.Processors.Enriching.{convert_pod_phase}
use wavefront_collector_for.Sources.State.Pods.{
  Condition, Pod, take, max_point_tag_length, truncate_message, explain, explain_pending,
  explain_failed, explained,
}

-- "message=" and the message fit in the 255 characters of a point tag
abbrev pub Fits : Option String → Type 0
Fits none = Unit {0}
Fits (some message) = count message + 8 ≤ 255

count-take : (n : ℕ) (s : String) → count (take n s) ≤ n
unfolding take
count-take zero s = omega arith
count-take (suc n) String.[] = omega arith
count-take (suc n) (String.◌∷◌ c s) = omega (arith, length-cons c (take n s), count-take n s)

Fits-truncate_message : (message : String) → Fits (some (truncate_message message))
unfolding truncate_message
Fits-truncate_message message = elim (Bool-cases (leb max_point_tag_length (count message))) [
  | inl long ↦ rw long (omega (arith, count-take 247 message))
  | inr short ↦ rw short (ground arith)
]

-- the tags with a new one that is not the message
Fits-other :
    (key value : String) (tags : Map String)
    → (key == "message") ≡ false
    → Fits (lookup "message" tags)
    → Fits (lookup "message" (insert key value tags))
Fits-other key value tags e h = rw (lookup-insert, e) h

Fits-explain : (c : Condition) (tags : Map String) → Fits (lookup "message" (explain c tags))
Fits-explain c tags = rw lookup-insert (Fits-truncate_message c.message)

Fits-explain_pending :
    (conditions : List Condition) (tags : Map String)
    → Fits (lookup "message" tags)
    → Fits (lookup "message" (explain_pending conditions tags))
unfolding explain_pending
Fits-explain_pending [] tags h = h
Fits-explain_pending (c ∷ conditions) tags h =
    Fits-explain_pending conditions _
      (elim (Bool-cases (c.type == "PodScheduled" && c.status == "False")) [
        | inl t ↦ rw t (Fits-explain c _)
        | inr t ↦ elim (Bool-cases (c.type == "ContainersReady" && c.status == "False")) [
          | inl u ↦ rw (t, u) (Fits-explain c tags)
          | inr u ↦ rw (t, u) h
        ]
      ])

Fits-explain_failed :
    (conditions : List Condition) (tags : Map String)
    → Fits (lookup "message" tags)
    → Fits (lookup "message" (explain_failed conditions tags))
unfolding explain_failed
Fits-explain_failed [] tags h = h
Fits-explain_failed (c ∷ conditions) tags h =
    Fits-explain_failed conditions _ (elim (Bool-cases (c.type == "Ready")) [
      | inl t ↦ rw t (Fits-explain c tags)
      | inr t ↦ rw t h
    ])

Fits-if :
    (b : Bool) (x y : Map String)
    → Fits (lookup "message" x)
    → Fits (lookup "message" y)
    → Fits (lookup "message" (if b then x else y))
Fits-if true x y p q = p
Fits-if false x y p q = q

-- Whatever the conditions of a pod that does not run say, the message in its tags fits in a point tag if the
-- one that was there did.
pub Fits-explained :
    (pod : Pod) (tags : Map String)
    → Fits (lookup "message" tags)
    → Fits (lookup "message" (explained pod tags))
unfolding explained
Fits-explained pod tags h =
    let pending =
      if eqb (convert_pod_phase pod.phase) 1 then explain_pending pod.conditions tags else tags in
    let first : Fits (lookup "message" pending) =
      Fits-if (eqb (convert_pod_phase pod.phase) 1) (explain_pending pod.conditions tags) tags
        (Fits-explain_pending pod.conditions tags h) h in
    Fits-if (eqb (convert_pod_phase pod.phase) 4) (explain_failed pod.conditions pending) pending
      (Fits-explain_failed pod.conditions pending first) first
