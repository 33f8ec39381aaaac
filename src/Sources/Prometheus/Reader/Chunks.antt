-- ===== src/Sources/Prometheus/Reader/Chunks.antt =====
-- A scrape is cut into blocks: nothing is lost, no comment follows a metric within one block, and the loop ends.
use Prim.Native.String.{◌++◌ as ◌++ₛ◌}
use text.Mathlib.TextLemmas.{append_assoc as text_assoc, nil-append as text_nil}
use wavefront_collector_for.Prelude.{
  ℕ, zero, suc, ◌≤◌, ◌<◌, String, List, [], ◌∷◌, ◌++◌, some, true, false, ◌≡◌, refl, ◌∙◌, ap, map,
  All, length, length-append, arith, inl, inr, Bool-cases, append_assoc,
}
use wavefront_collector_for.Prelude.Text.{is_prefix}
use wavefront_collector_for.Sources.Prometheus.Reader.{
  comment_next, read_comments, read_metrics, read, onto, chunks,
}

-- lines as they are written to a buffer
abbrev pub written : List String → String
written [] = ""
written (line ∷ lines) = line ++ₛ "\n" ++ₛ written lines

-- a block of comments and the metrics that follow it
pub record Block : Type 0 where
  pub comments : List String
  pub metrics : List String

abbrev pub lines_of : Block → List String
lines_of b = b.comments ++ b.metrics

abbrev pub all_lines : List Block → List String
all_lines [] = []
all_lines (b ∷ bs) = lines_of b ++ all_lines bs

-- neither part holds a line of the other kind, and there is a line
pub record IsBlock (b : Block) : Type 0 where
  pub commented : All (λ line. comment_next line ≡ true) b.comments
  pub measured : All (λ line. is_prefix "#" line ≡ false) b.metrics
  pub filled : 0 < length (lines_of b)

written-append : (xs ys : List String) → written (xs ++ ys) ≡ written xs ++ₛ written ys
written-append [] ys = rw (text_nil (written ys)) refl
written-append (x ∷ xs) ys = simp (written-append xs ys, text_assoc)

abbrev StopsAt : List String → Type 0
StopsAt [] = Unit {0}
StopsAt (line ∷ lines) = comment_next line ≡ false

read_comments_lem :
    (lines : List String)
    → (cs : List String) × (rest : List String) × (read_comments lines ≡ (written cs, rest))
      × (cs ++ rest ≡ lines)
      × All (λ line. comment_next line ≡ true) cs
      × StopsAt rest
unfolding read_comments
read_comments_lem [] = ([], [], refl, refl, tt, tt)
read_comments_lem (line ∷ lines) = elim (Bool-cases (comment_next line)) [
  | inl t ↦
      let (cs, rest, e, joined, all, stop) = read_comments_lem lines in
      (line ∷ cs, rest, rw (t, e) refl, ap (λ ls. line ∷ ls) joined, (t, all), stop)
  | inr t ↦ ([], line ∷ lines, rw t refl, refl, tt, t)
]

abbrev AtComment : List String → Type 0
AtComment [] = Unit {0}
AtComment (line ∷ lines) = is_prefix "#" line ≡ true

read_metrics_lem :
    (lines : List String)
    → (ms : List String) × (rest : List String) × (read_metrics lines ≡ (written ms, rest))
      × (ms ++ rest ≡ lines)
      × All (λ line. is_prefix "#" line ≡ false) ms
      × AtComment rest
unfolding read_metrics
read_metrics_lem [] = ([], [], refl, refl, tt, tt)
read_metrics_lem (line ∷ lines) = elim (Bool-cases (is_prefix "#" line)) [
  | inl t ↦ ([], line ∷ lines, rw t refl, refl, tt, t)
  | inr t ↦
      let (ms, rest, e, joined, all, at) = read_metrics_lem lines in
      (line ∷ ms, rest, rw (t, e) refl, ap (λ ls. line ∷ ls) joined, (t, all), at)
]

uncommented : (line : String) → comment_next line ≡ false → is_prefix "#" line ≡ false
unfolding comment_next
uncommented line h = ground arith

-- a line that is neither a comment nor taken as a metric cannot be
progress :
    (line : String) (lines cs ms rest : List String)
    → cs ++ (ms ++ rest) ≡ line ∷ lines
    → StopsAt (ms ++ rest)
    → AtComment rest
    → 0 < length (cs ++ ms)
progress line lines (c ∷ cs) ms rest e stop at = omega arith
progress line lines [] (m ∷ ms) rest e stop at = omega arith
progress line lines [] [] [] e stop at = cc
progress line lines [] [] (r ∷ rest) e stop at = cc (uncommented r stop)

read_lem :
    (line : String) (lines : List String)
    → (b : Block) × (rest : List String) × (read (line ∷ lines) ≡ (written (lines_of b), rest))
      × (lines_of b ++ rest ≡ line ∷ lines)
      × IsBlock b
unfolding read
read_lem line lines =
    let (cs, after, e, joined, commented, stop) = read_comments_lem (line ∷ lines) in
    let (ms, rest, e', joined', measured, at) = read_metrics_lem after in
    let whole : cs ++ (ms ++ rest) ≡ line ∷ lines = rw joined' joined in
    (
      record { comments = cs; metrics = ms },
      rest,
      rw (e, e', written-append cs ms) refl,
      append_assoc cs ms rest ∙ whole,
      record {
        commented = commented;
        measured = measured;
        filled = progress line lines cs ms rest whole (rw joined' stop) at;
      },
    )

chunks-read :
    (fuel : ℕ) (line : String) (lines : List String) (chunk : String) (rest more : List String)
    → read (line ∷ lines) ≡ (chunk, rest)
    → chunks fuel rest ≡ some more
    → chunks (suc fuel) (line ∷ lines) ≡ some (chunk ∷ more)
unfolding chunks
chunks-read fuel line lines chunk rest more e e' =
    ap (λ (r : String × List String). onto r.0 (chunks fuel r.1)) e ∙ ap (λ o. onto chunk o) e'

no_lines : (fuel : ℕ) → chunks fuel [] ≡ some []
unfolding chunks
no_lines zero = refl
no_lines (suc fuel) = refl

-- With as much fuel as there are lines the loop ends. Each chunk is a block of comments and the metrics
-- that follow it, as they were read, and the blocks together are the lines in order.
pub chunks_lem :
    (fuel : ℕ) (lines : List String)
    → length lines ≤ fuel
    → (blocks : List Block) × (chunks fuel lines ≡ some (map (λ b. written (lines_of b)) blocks))
      × (all_lines blocks ≡ lines)
      × All IsBlock blocks
chunks_lem fuel [] h = ([], no_lines fuel, refl, tt)
chunks_lem zero (line ∷ lines) h = absurd (omega arith)
chunks_lem (suc fuel) (line ∷ lines) h =
    let (b, rest, e, joined, block) = read_lem line lines in
    let shorter : length rest ≤ fuel =
      omega (arith, ap length joined, length-append (lines_of b) rest, block.filled) in
    let (blocks, e', joined', all) = chunks_lem fuel rest shorter in
    (b ∷ blocks, chunks-read fuel line lines _ rest _ e e', rw joined' joined, (block, all))
