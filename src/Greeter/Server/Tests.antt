-- ===== src/Greeter/Server/Tests.antt =====
-- The theorems on the handlers of GreeterServer (grpcdemo/server_async.cc) at a server of two sessions.
use cpp_demo.Prelude.{
  ℕ, ◌+◌, ◌≡◌, ◌↔◌, refl, [], ◌∷◌, some, true, false, codes, arith, if◌then◌else◌, ◌==◌,
}
use cpp_demo.Greeter.Tag.{connected, read_done, tagify, detagify}
use cpp_demo.Greeter.Session.{Session, wait_to_connect, ready_to_write, read, new_session}
use cpp_demo.Greeter.Server.{
  erase, Server, request_say_hello3, on_stream, try_cancel, done, find, stop, accepter_event,
}
use cpp_demo.Greeter.Server.Accepter.{waiting, accepter_event-connected, accepter_event-waiting}
use cpp_demo.Greeter.Server.Worker.{WorkEffect, worker_event_effect}
use cpp_demo.Greeter.Server.Broadcast.{Among, Connected, stop_effect}
use cpp_demo.Greeter.Server.Sessions.{Keyed}

-- A connected session 0 beside the waiting session 1.
abbrev waiting_session : Session
waiting_session = record {
  session_id = 1;
  status = wait_to_connect;
  request_name = [];
  message_queue = [];
}

abbrev ready_session : Session
ready_session = record {
  session_id = 0;
  status = ready_to_write;
  request_name = codes "ann";
  message_queue = [];
}

abbrev two_sessions : Server
two_sessions = record {
  running = true;
  session_id_allocator = 2;
  sessions = (0, ready_session) ∷ (1, waiting_session) ∷ [];
}

two_sessions-Keyed : Keyed 2 two_sessions.sessions
two_sessions-Keyed = ground arith

waiting_found : find 1 two_sessions.sessions ≡ some waiting_session
unfolding find
waiting_found = refl

accepter_event-connected_example :
    (sv' : Server) × (accepter_event two_sessions (tagify 1 connected) true
      ≡ done sv'
          (on_stream 1 (read (tagify 1 read_done)) ∷ request_say_hello3 (tagify 2 connected) ∷ []))
    × ((j : ℕ)
        → find j sv'.sessions ≡ (
            if 2 == j
            then some (new_session 2)
            else if 1 == j
            then some (record waiting_session { status = ready_to_write })
            else find j two_sessions.sessions))
    × (sv'.session_id_allocator ≡ 2 + 1)
    × (sv'.running ≡ true)
accepter_event-connected_example =
    accepter_event-connected two_sessions 1 waiting_session two_sessions-Keyed (omega arith)
      waiting_found

abbrev one_left : Server
one_left = record { running = true; session_id_allocator = 2; sessions = (0, ready_session) ∷ [] }

one_left_lem : accepter_event two_sessions (tagify 1 connected) false ≡ done one_left []
unfolding accepter_event tagify detagify find erase
one_left_lem = refl

accepter_event-waiting_example : waiting one_left.sessions + 1 ≡ waiting two_sessions.sessions
accepter_event-waiting_example =
    accepter_event-waiting two_sessions 1 waiting_session two_sessions-Keyed (omega arith)
      waiting_found refl false one_left [] one_left_lem

worker_event_effect_example : WorkEffect two_sessions 0 read_done true
worker_event_effect_example =
    worker_event_effect two_sessions 0 read_done true two_sessions-Keyed (omega arith) refl

stop_effect_example :
    ((i : ℕ) → Among (try_cancel i) (stop two_sessions).1 ↔ Connected i two_sessions.sessions)
    × ((stop two_sessions).0 ≡ record two_sessions { running = false })
    × (stop (stop two_sessions).0 ≡ ((stop two_sessions).0, []))
stop_effect_example = stop_effect two_sessions two_sessions-Keyed refl
