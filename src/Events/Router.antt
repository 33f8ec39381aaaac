-- ===== src/Events/Router.antt =====
-- plugins/events/eventrouter.go: the events of the cluster that are handed to the sink, and the stop
-- channel of the router. Times are nanoseconds from the zero time; `closed` stands for a channel that was
-- closed, `opened` for one that was not, `unmade` for nil. Closing a closed channel panics: `none`.
-- The informers of client-go are outside. A kind is ASCII.
pub mod Panics
pub mod Sent
use Prim.Native.Char.{code}
use wavefront_collector_for.Prelude.{
  ℕ, ◌+◌, ◌-◌, String, List, [], ◌∷◌, ◌++◌, Option, none, some, Bool, true, false, not, ◌==◌, ◌&&◌,
  leb, ltb, eqb, if◌then◌else◌,
}
use wavefront_collector_for.Prelude.Maps.{Map, insert}
use wavefront_collector_for.Events.Selection.{EventFilter, matches}
use wavefront_collector_for.Leadership.{Election, unsubscribe}

pub data StopChannel : Type 0 where
  unmade opened closed : StopChannel

-- an event of the API server
pub record KubeEvent : Type 0 where
  pub message : String
  pub last_timestamp : ℕ
  pub type : String
  pub reason : String
  pub component : String
  pub host : String
  pub namespace : String
  pub kind : String
  pub name : String

-- an option of the Wavefront SDK
pub data EventOption : Type 0 where
  of_type : String → EventOption
  annotate : String → String → EventOption

-- internal/events: what the sink is given
pub record Event : Type 0 where
  pub message : String
  pub ts : ℕ
  pub host : String
  pub options : List EventOption

pub record EventRouter : Type 0 where
  pub filters : EventFilter
  pub scrape_cluster : Bool
  pub stop : StopChannel
  pub received : ℕ
  pub filtered : ℕ
  pub sent : ℕ
  -- what was handed to the sink
  pub exported : List Event

abbrev pub default_to : String → String → String
default_to default s = if s == "" then default else s

abbrev lower : ℕ → ℕ
lower c = if leb b'A' c && leb c b'Z' then c + 32 else c

-- strings.ToLower(s) == t
unfoldable pub is_lowered : String → String → Bool
is_lowered String.[] String.[] = true
is_lowered String.[] (String.◌∷◌ d t) = false
is_lowered (String.◌∷◌ c s) String.[] = false
is_lowered (String.◌∷◌ c s) (String.◌∷◌ d t) =
    let rest = is_lowered s t in if eqb (lower (code c)) (code d) then rest else false

unfoldable pub tags_of : KubeEvent → Map String
unfolding is_lowered
tags_of e =
    let tags =
      ("namespace_name", default_to "default" e.namespace)
      ∷ ("kind", e.kind)
      ∷ ("reason", e.reason)
      ∷ ("component", e.component)
      ∷ [] in
    if e.name == ""
    then tags
    else insert (if is_lowered e.kind "pod" then "pod_name" else "resource_name") e.name tags

unfoldable pub annotations : Map String → List EventOption
annotations [] = []
annotations ((k, v) ∷ tags) = annotate k v ∷ annotations tags

unfoldable pub new_event : String → ℕ → String → Map String → List EventOption → Event
unfolding annotations
new_event message ts host tags options = record {
  message = message;
  ts = ts;
  host = host;
  options = options ++ annotations tags;
}

abbrev pub minute : ℕ
minute = 60000000000

-- before time.Now().Add(-1 * time.Minute)
abbrev pub is_old : ℕ → KubeEvent → Bool
is_old now e = ltb e.last_timestamp (now - minute)

unfoldable pub add_event : ℕ → KubeEvent → EventRouter → EventRouter
unfolding tags_of new_event
add_event now e er =
    let tags = tags_of e in
    if is_old now e
    then er
    else if not (matches er.filters tags)
    then record er { received = er.received + 1; filtered = er.filtered + 1 }
    else record er {
      received = er.received + 1;
      sent = er.sent + 1;
      exported =
          er.exported
          ++ new_event e.message e.last_timestamp e.host tags
              (of_type (default_to "Normal" e.type) ∷ [])
            ∷ [];
    }

unfoldable pub add_events : List (ℕ × KubeEvent) → EventRouter → EventRouter
unfolding add_event
add_events [] er = er
add_events ((now, e) ∷ events) er = add_events events (add_event now e er)

unfoldable pub resume : EventRouter → EventRouter
resume er = record er { stop = opened }

abbrev close : StopChannel → EventRouter → Option EventRouter
close unmade er = some er
close opened er = some (record er { stop = closed })
close closed er = none

unfoldable pub pause : EventRouter → Option EventRouter
pause er = close er.stop er

-- the manager of the leadership: each message that this node leads resumes, any other pauses
unfoldable pub handle : List Bool → EventRouter → Option EventRouter
unfolding resume pause
handle [] er = some er
handle (true ∷ messages) er = handle messages (resume er)
handle (false ∷ messages) er = elim (pause er) [
  | none ↦ none
  | some paused ↦ handle messages paused
]

-- Stop, with the cancellation of the subscription
unfoldable pub stop : EventRouter → Election → Option EventRouter × Election
unfolding pause
stop er s = (pause er, if er.scrape_cluster then unsubscribe "eventRouter" s else s)
