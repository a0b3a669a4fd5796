-- ===== src/Greeter/Server.antt =====
-- The class GreeterServer of grpcdemo/server_async.cc. `sessions_` is an association list; a handler
-- returns the new server and the calls that it makes of gRPC, in order. The three threads take turns
-- at whole completions, rounds and calls; logging and sleeping are left out.
mod Sessions
mod Accepter
mod Worker
mod Broadcast
mod System
mod Tests
use cpp_demo.Prelude.{
  ℕ, ◌+◌, ◌%◌, ◌++◌, List, [], ◌∷◌, map, Option, none, some, Bool, true, false, Text, codes,
  if◌then◌else◌, ◌==◌, not,
}
use cpp_demo.Greeter.Tag.{
  SessionEvent, connected, read_done, write_done, finished, u64_mod, tagify, detagify,
}
use cpp_demo.Greeter.Session.{
  Session, SessionStatus, wait_to_connect, ready_to_write, wait_write_done, StreamCall, new_session,
  process_event, send_response,
}

abbrev pub Sessions : Type 0
Sessions = List (ℕ × Session)

pub record Server : Type 0 where
  pub running : Bool
  pub session_id_allocator : ℕ
  pub sessions : Sessions

pub data Call : Type 0 where
  request_say_hello3 : ℕ → Call
  on_stream : ℕ → StreamCall → Call
  try_cancel : ℕ → Call
  shutdown_server shutdown_cq_conn shutdown_cq_readwrite : Call

-- A handler ends, or one of its `zassert`s fails.
pub data Outcome : Type 0 where
  done : Server → List Call → Outcome
  assert_failed : Outcome

unfoldable pub find : ℕ → Sessions → Option Session
find i [] = none
find i ((k, s) ∷ m) = if k == i then some s else find i m

-- `sessions_[i] = s`, and a write through the pointer that the map shares.
unfoldable pub assign : ℕ → Session → Sessions → Sessions
assign i s [] = (i, s) ∷ []
assign i s ((k, t) ∷ m) = if k == i then (k, s) ∷ m else (k, t) ∷ assign i s m

unfoldable pub erase : ℕ → Sessions → Sessions
erase i [] = []
erase i ((k, t) ∷ m) = if k == i then m else (k, t) ∷ erase i m

unfoldable pub get_session : ℕ → Server → Option Session
get_session i sv = find i sv.sessions

unfoldable pub remove_session : ℕ → Server → Server
remove_session i sv = record sv { sessions = erase i sv.sessions }

unfoldable pub add_new_session : Server → Server × List Call
add_new_session sv = (
  record sv {
    session_id_allocator = (sv.session_id_allocator + 1) % u64_mod;
    sessions = assign sv.session_id_allocator (new_session sv.session_id_allocator) sv.sessions;
  },
  request_say_hello3 (tagify sv.session_id_allocator connected) ∷ [],
)

abbrev pub is_connected : SessionEvent → Bool
is_connected connected = true
is_connected _ = false

abbrev pub is_read_or_write : SessionEvent → Bool
is_read_or_write read_done = true
is_read_or_write write_done = true
is_read_or_write _ = false

-- A session's event: its state is stored back, and its calls go to its stream.
session_event : ℕ → Session → SessionEvent → Server → Server × List Call
session_event i s e sv =
    let (s', calls) = process_event s e in
    (record sv { sessions = assign i s' sv.sessions }, map (on_stream i) calls)

pub accepted : ℕ → Session → SessionEvent → Server → Outcome
unfolding session_event add_new_session
accepted i s e sv =
    let (sv', calls) = session_event i s e sv in
    let (sv'', more) = add_new_session sv' in
    if is_connected e then done sv'' (calls ++ more) else assert_failed

pub worked : ℕ → Session → SessionEvent → Server → Outcome
unfolding session_event
worked i s e sv =
    let (sv', calls) = session_event i s e sv in
    if is_read_or_write e then done sv' calls else assert_failed

-- The body of the accepter's inner loop, for one completion of `cq_conn_`.
unfoldable pub accepter_event : Server → ℕ → Bool → Outcome
unfolding accepted get_session remove_session
accepter_event sv tag ok =
    let (i, e) = detagify tag in
    elim (get_session i sv) [
      | none ↦ done sv []
      | some s ↦ if ok then accepted i s e sv else done (remove_session i sv) []
    ]

-- The body of the worker's inner loop, for one completion of `cq_readwrite_`.
unfoldable pub worker_event : Server → ℕ → Bool → Outcome
unfolding worked get_session remove_session
worker_event sv tag ok =
    let (i, e) = detagify tag in
    elim (get_session i sv) [
      | none ↦ done sv []
      | some s ↦ if ok then worked i s e sv else done (remove_session i sv) []
    ]

pub send_all : Text → Sessions → Sessions × List Call
send_all message [] = ([], [])
send_all message ((i, s) ∷ m) =
    let (s', calls) = send_response s message in
    let (m', more) = send_all message m in ((i, s') ∷ m', map (on_stream i) calls ++ more)

abbrev pub broadcast_message : Text
broadcast_message = codes "this is a broadcast message"

-- One round of the broadcast thread's loop, entered while the server runs.
unfoldable pub broadcast_round : Server → Server × List Call
unfolding send_all
broadcast_round sv =
    let (m, calls) = send_all broadcast_message sv.sessions in
    if sv.running then (record sv { sessions = m }, calls) else (sv, [])

abbrev pub is_waiting : SessionStatus → Bool
is_waiting wait_to_connect = true
is_waiting _ = false

cancels : Sessions → List Call
cancels [] = []
cancels ((i, s) ∷ m) =
    let rest = cancels m in if is_waiting s.status then rest else try_cancel s.session_id ∷ rest

unfoldable pub stop : Server → Server × List Call
unfolding cancels
stop sv =
    if sv.running
    then (
      record sv { running = false },
      cancels sv.sessions ++ (shutdown_server ∷ shutdown_cq_conn ∷ shutdown_cq_readwrite ∷ []),
    )
    else (sv, [])

-- `Start`, with the accepter's first act. The queues and the gRPC server are built outside.
unfoldable pub start : Server → Server × List Call
unfolding add_new_session
start sv = if sv.running then (sv, []) else add_new_session (record sv { running = true })

unfoldable pub initial : Server
initial = record { running = false; session_id_allocator = 0; sessions = [] }
