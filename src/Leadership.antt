-- ===== src/Leadership.antt =====
-- internal/leadership: election.go keeps who leads and whom to tell; manager.go pauses and resumes a
-- system on what it is told. Each function runs under the package's lock, so it is one step. The
-- elector of client-go is a parameter: whether it can be created, and the identities it announces.
-- A channel is the list of what was sent on it and not received; a full channel delays its sender
-- and changes nothing else.
pub mod Demotion
pub mod Subscribers
use wavefront_collector_for.Prelude.{
  ℕ, ◌+◌, String, List, [], ◌∷◌, ◌++◌, Option, none, some, Bool, true, false, not, ◌&&◌, ◌==◌,
  if◌then◌else◌,
}
use wavefront_collector_for.Prelude.Maps.{Map, insert, delete}

pub record Election : Type 0 where
  pub subscribers : Map (List Bool)
  pub started : Bool
  pub is_leader : Bool
  pub leader_id : String
  pub leading_gauge : ℕ
  pub election_error : ℕ

abbrev pub unstarted : Election
unstarted = record {
  subscribers = [];
  started = false;
  is_leader = false;
  leader_id = "";
  leading_gauge = 0;
  election_error = 0;
}

-- startLeaderElection; `elector` says whether getLeaderElector succeeds. False is its error.
unfoldable pub start_leader_election : Bool → Election → Election × Bool
start_leader_election elector s =
    if s.started
    then (s, true)
    else if elector
    then (record s { started = true }, true)
    else (record s { election_error = s.election_error + 1 }, false)

-- `make(chan bool, 1)`, with the news that this node leads
abbrev pub new_channel : Bool → List Bool
new_channel leader = if leader then true ∷ [] else []

abbrev add_subscriber : String → Election × Bool → Election × Bool
add_subscriber name (s, false) = (s, false)
add_subscriber name (s, true) =
    (record s { subscribers = insert name (new_channel s.is_leader) s.subscribers }, true)

-- Subscribe; false is its error
unfoldable pub subscribe : Bool → String → Election → Election × Bool
unfolding start_leader_election
subscribe elector name s = add_subscriber name (start_leader_election elector s)

unfoldable pub unsubscribe : String → Election → Election
unsubscribe name s = record s { subscribers = delete name s.subscribers }

-- `for i := range subscribers { subscribers[i] <- b }`
unfoldable pub tell_all : Bool → Map (List Bool) → Map (List Bool)
tell_all b [] = []
tell_all b ((name, sent) ∷ subscribers) = (name, sent ++ b ∷ []) ∷ tell_all b subscribers

-- the callback OnNewLeader on the node `node_name`
unfoldable pub on_new_leader : String → String → Election → Election
on_new_leader node_name identity s =
    let mine = identity == node_name in
    let t = record s { leading_gauge = if mine then 1 else 0; leader_id = identity } in
    if mine && not s.is_leader
    then record t { subscribers = tell_all true s.subscribers; is_leader = true }
    else if not mine && s.is_leader
    then record t { subscribers = tell_all false s.subscribers }
    else t

-- Leading, where `scrape_cluster` is that of the agent type
unfoldable pub leading : Bool → Election → Bool
leading scrape_cluster s = scrape_cluster && s.is_leader

-- manager.go: the system after the messages of the channel, in order
pub data System : Type 0 where
  resumed paused : System

unfoldable pub run : System → List Bool → System
run system [] = system
run system (true ∷ messages) = run resumed messages
run system (false ∷ messages) = run paused messages

-- what may happen to the election
pub data Event : Type 0 where
  subscribed : Bool → String → Event
  unsubscribed : String → Event
  new_leader : String → Event

unfoldable pub step : String → Event → Election → Election
unfolding subscribe unsubscribe on_new_leader
step node_name (subscribed elector name) s = (subscribe elector name s).0
step node_name (unsubscribed name) s = unsubscribe name s
step node_name (new_leader identity) s = on_new_leader node_name identity s

unfoldable pub steps : String → List Event → Election → Election
steps node_name [] s = s
steps node_name (e ∷ events) s = steps node_name events (step node_name e s)
