-- ===== src/Sources/Prometheus/Reader.antt =====
-- metric_reader.go and lookahead_reader.go of plugins/sources/prometheus: the text of a scrape is cut into
-- chunks, a block of comments with the metrics that follow it. A reader is the list of the lines that its
-- scanner gives and that are not read yet; the first of them is the one looked ahead at. A scanner stops
-- without a word at a line that is too long: the list ends there. Text is ASCII.
pub mod Chunks
use Prim.Native.Char.{code}
use Prim.Native.String.{◌++◌}
use wavefront_collector_for.Prelude.{
  ℕ, zero, suc, String, List, [], ◌∷◌, Option, none, some, Bool, true, false, ◌&&◌, ◌||◌, leb, eqb,
  if◌then◌else◌, is_empty,
}
use wavefront_collector_for.Prelude.Text.{is_prefix}

abbrev is_space : ℕ → Bool
is_space c = eqb c 32 || leb 9 c && leb c 13

-- whether bytes.TrimSpace leaves nothing
unfoldable pub is_blank : String → Bool
is_blank String.[] = true
is_blank (String.◌∷◌ c s) = let rest = is_blank s in if is_space (code c) then rest else false

unfoldable pub comment_next : String → Bool
unfolding is_blank is_prefix
comment_next line = if is_blank line then true else is_prefix "#" line

-- what is written to the buffer, and the reader afterwards
unfoldable pub read_comments : List String → String × List String
unfolding comment_next
read_comments [] = ("", [])
read_comments (line ∷ lines) =
    let (buffer, rest) = read_comments lines in
    if comment_next line then (line ++ "\n" ++ buffer, rest) else ("", line ∷ lines)

unfoldable pub read_metrics : List String → String × List String
unfolding is_prefix
read_metrics [] = ("", [])
read_metrics (line ∷ lines) =
    let (buffer, rest) = read_metrics lines in
    if is_prefix "#" line then ("", line ∷ lines) else (line ++ "\n" ++ buffer, rest)

unfoldable pub read : List String → String × List String
unfolding read_comments read_metrics
read lines =
    let (comments, after) = read_comments lines in
    let (metrics, rest) = read_metrics after in (comments ++ metrics, rest)

abbrev pub onto : String → Option (List String) → Option (List String)
onto chunk none = none
onto chunk (some more) = some (chunk ∷ more)

-- `for !metricReader.Done() { … Read() … }` with fuel; `none` where it runs out
unfoldable pub chunks : ℕ → List String → Option (List String)
unfolding read
chunks fuel [] = some []
chunks zero (line ∷ lines) = none
chunks (suc fuel) (line ∷ lines) =
    let (chunk, rest) = read (line ∷ lines) in onto chunk (chunks fuel rest)
