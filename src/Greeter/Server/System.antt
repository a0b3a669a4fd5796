-- ===== src/Greeter/Server/System.antt =====
-- GreeterServer beside its two completion queues (grpcdemo/server_async.cc): a completion carries a
-- tag that the server has posted on that queue; completions, broadcasts and calls come in any order.
-- A request arrives while a Read is pending, and is stored in the session then.
mod Fits
mod Stores
mod Counts
mod Owes
mod Pending
mod Rounds
mod Completions
mod Operations
mod Settled
mod Once
mod Safety
mod Tests
use cpp_demo.Prelude.{
  ℕ, ◌+◌, ◌%◌, ◌^◌, ◌<◌, ◌≤◌, ◌≡◌, refl, ◌⊎◌, inl, inr, ◌++◌, List, [], ◌∷◌, map, Option, none,
  some, Bool, true, false, Text, All, arith, if◌then◌else◌, ◌==◌, Option-cases, ap, ◌∙◌,
}
use cpp_demo.Greeter.Tag.{
  SessionEvent, connected, read_done, write_done, tagify, detagify, detagify-tagify,
}
use cpp_demo.Greeter.Session.{
  Session, StreamCall, read, write, new_session, process_event, send_response,
}
use cpp_demo.Greeter.Server.{
  Server, Sessions, Call, request_say_hello3, on_stream, try_cancel, shutdown_server,
  shutdown_cq_conn, shutdown_cq_readwrite, Outcome, done, assert_failed, find, assign, erase,
  accepter_event, worker_event, send_all, broadcast_message, broadcast_round, cancels, stop, start,
  initial, add_new_session, is_connected, is_read_or_write,
}
use cpp_demo.Greeter.Server.Sessions.{
  Fresh, Keyed, Keyed-assign, Keyed-assign_new, Keyed-erase, find_id,
}

-- The server, and the tags that it has posted on `cq_conn_` and on `cq_readwrite_`.
pub record System : Type 0 where
  pub server : Server
  pub conn_tags : List ℕ
  pub stream_tags : List ℕ

unfoldable pub new_system : System
unfolding initial
new_system = record { server = initial; conn_tags = []; stream_tags = [] }

abbrev pub post : System → Call → System
post y (request_say_hello3 tag) = record y { conn_tags = tag ∷ y.conn_tags }
post y (on_stream i (read tag)) = record y { stream_tags = tag ∷ y.stream_tags }
post y (on_stream i (write message tag)) = record y { stream_tags = tag ∷ y.stream_tags }
post y _ = y

abbrev pub post_all : System → List Call → System
post_all y [] = y
post_all y (c ∷ cs) = post_all (post y c) cs

pub data Event : Type 0 where
  starts : Event
  stores : ℕ → Text → Event
  accepts : ℕ → Bool → Event
  works : ℕ → Bool → Event
  broadcasts : Event
  stops : Event

store_in : ℕ → Text → Option Session → Server → Server
store_in i name none sv = sv
store_in i name (some s) sv = record sv {
  sessions = assign i (record s { request_name = name }) sv.sessions;
}

-- gRPC stores the request of a pending Read in `request_`, a member of the session.
unfoldable pub store : ℕ → Text → Server → Server
unfolding store_in
store i name sv = store_in i name (find i sv.sessions) sv

abbrev pub settle : System → Server × List Call → System
settle y (sv, calls) = post_all (record y { server = sv }) calls

abbrev pub outcome : System → Outcome → Option System
outcome y (done sv calls) = some (settle y (sv, calls))
outcome y assert_failed = none

-- `none` where an assertion fails.
unfoldable pub step : System → Event → Option System
step y starts = some (settle y (start y.server))
step y (stores i name) = some (record y { server = store i name y.server })
step y (accepts tag ok) = outcome y (accepter_event y.server tag ok)
step y (works tag ok) = outcome y (worker_event y.server tag ok)
step y broadcasts = some (settle y (broadcast_round y.server))
step y stops = some (settle y (stop y.server))

abbrev pub Posted : ℕ → List ℕ → Type 0
Posted t [] = ⊥
Posted t (u ∷ us) = (u ≡ t) ⊎ Posted t us

-- What can happen: a completion of a posted tag, or a request for a Read whose tag is posted; and identifiers are given out below 2 ^ 62, where
-- a tag holds them.
abbrev pub Enabled : System → Event → Type 0
Enabled y starts = y.server.session_id_allocator < 2 ^ 62
Enabled y (stores i name) = Posted (tagify i read_done) y.stream_tags
Enabled y (accepts tag ok) = Posted tag y.conn_tags × (y.server.session_id_allocator < 2 ^ 62)
Enabled y (works tag ok) = Posted tag y.stream_tags
Enabled y broadcasts = Unit {0}
Enabled y stops = Unit {0}

pub data Reach (y : System) : System → Type 0 where
  here : Reach y y
  next : {z u : System} → Reach y z → (e : Event) → Enabled z e → step z e ≡ some u → Reach y u

abbrev pub ConnTag : ℕ → Type 0
ConnTag t = (i : ℕ) × (t ≡ tagify i connected)

abbrev pub StreamTag : ℕ → Type 0
StreamTag t = (i : ℕ) × (e : SessionEvent) × (is_read_or_write e ≡ true) × (t ≡ tagify i e)

-- What holds between two events.
pub record Inv (y : System) : Type 0 where
  pub keyed : Keyed y.server.session_id_allocator y.server.sessions
  pub conn_posted : All ConnTag y.conn_tags
  pub stream_posted : All StreamTag y.stream_tags
