-- ===== src/Greeter/Server/Accepter.antt =====
-- The accepter's handler of GreeterServer and the session map (grpcdemo/server_async.cc,
-- StartAccepterThread).
use cpp_demo.Prelude.{
  ℕ, ◌+◌, ◌%◌, ◌^◌, ◌<◌, ◌≡◌, refl, List, [], ◌∷◌, none, some, Bool, true, false, arith,
  if◌then◌else◌, ◌==◌, Bool-cases, inl, inr,
}
use cpp_demo.Greeter.Tag.{connected, u64_mod, read_done, tagify, detagify_small}
use cpp_demo.Greeter.Session.{
  Session, ready_to_write, wait_to_connect, read, new_session, process_event,
}
use cpp_demo.Greeter.Server.{
  Server, Sessions, Call, request_say_hello3, on_stream, done, find, assign, erase, accepter_event,
  is_waiting,
}
use cpp_demo.Greeter.Server.Sessions.{
  Keyed, Fresh-above, find-Fresh, find-assign, find-erase, find_id,
}

connected_server : Server → ℕ → Session → Server
connected_server sv i s = record sv {
  session_id_allocator = (sv.session_id_allocator + 1) % u64_mod;
  sessions =
      assign sv.session_id_allocator (new_session sv.session_id_allocator)
        (assign i (record s { status = ready_to_write }) sv.sessions);
}

connected_server_lem :
    (sv : Server) (i : ℕ) (s : Session)
    → Keyed sv.session_id_allocator sv.sessions
    → sv.session_id_allocator < 2 ^ 62
    → find i sv.sessions ≡ some s
    → accepter_event sv (tagify i connected) true
      ≡ done (connected_server sv i s) (
          on_stream i (read (tagify i read_done))
          ∷ request_say_hello3 (tagify sv.session_id_allocator connected)
          ∷ [])
unfolding accepter_event process_event connected_server
connected_server_lem sv i s w h e =
    ground (arith, detagify_small i connected, find_id sv.session_id_allocator i sv.sessions s w e)

-- A waiting session whose client has connected is made ready and reads; a new session waits in its
-- place; every other session is as it was.
pub accepter_event-connected :
    (sv : Server) (i : ℕ) (s : Session)
    → Keyed sv.session_id_allocator sv.sessions
    → sv.session_id_allocator < 2 ^ 62
    → find i sv.sessions ≡ some s
    → let n = sv.session_id_allocator in
      (sv' : Server) × (accepter_event sv (tagify i connected) true
        ≡ done sv' (
            on_stream i (read (tagify i read_done)) ∷ request_say_hello3 (tagify n connected) ∷ []))
      × ((j : ℕ)
          → find j sv'.sessions ≡ (
              if n == j
              then some (new_session n)
              else if i == j
              then some (record s { status = ready_to_write })
              else find j sv.sessions))
      × (sv'.session_id_allocator ≡ n + 1)
      × (sv'.running ≡ sv.running)
unfolding connected_server
accepter_event-connected sv i s w h e = (
  connected_server sv i s,
  connected_server_lem sv i s w h e,
  λ j. ground (
    arith,
    find-assign sv.session_id_allocator j (new_session sv.session_id_allocator)
        (assign i (record s { status = ready_to_write }) sv.sessions),
    find-assign i j (record s { status = ready_to_write }) sv.sessions,
  ),
  omega arith,
  refl,
)

erased_lem :
    (sv : Server) (i : ℕ) (s : Session)
    → i < 2 ^ 62
    → find i sv.sessions ≡ some s
    → accepter_event sv (tagify i connected) false
      ≡ done (record sv { sessions = erase i sv.sessions }) []
unfolding accepter_event
erased_lem sv i s h e = ground (arith, detagify_small i connected)

-- A completion of the connection queue that failed removes its session, asks for no new one, and
-- leaves every other session as it was.
pub accepter_event-failed :
    (sv : Server) (i : ℕ) (s : Session)
    → Keyed sv.session_id_allocator sv.sessions
    → i < 2 ^ 62
    → find i sv.sessions ≡ some s
    → (sv' : Server) × (accepter_event sv (tagify i connected) false ≡ done sv' [])
      × ((j : ℕ) → find j sv'.sessions ≡ (if i == j then none else find j sv.sessions))
      × (sv'.session_id_allocator ≡ sv.session_id_allocator)
accepter_event-failed sv i s w h e = (
  record sv { sessions = erase i sv.sessions },
  erased_lem sv i s h e,
  λ j. find-erase sv.session_id_allocator i j sv.sessions w,
  refl,
)

abbrev pub waits : Session → ℕ
waits s = if is_waiting s.status then 1 else 0

-- The number of sessions that wait for a client.
abbrev pub waiting : Sessions → ℕ
waiting [] = 0
waiting ((k, s) ∷ m) = waits s + waiting m

waiting-assign :
    (i : ℕ) (s t : Session) (m : Sessions)
    → find i m ≡ some s
    → waiting (assign i t m) + waits s ≡ waiting m + waits t
unfolding find assign
waiting-assign i s t [] e = cc
waiting-assign i s t ((k, u) ∷ m) e = elim (Bool-cases (k == i)) [
  | inl here ↦ ground arith
  | inr there ↦ ground (arith, waiting-assign i s t m)
]

waiting-assign_new :
    (i : ℕ) (t : Session) (m : Sessions)
    → find i m ≡ none
    → waiting (assign i t m) ≡ waiting m + waits t
unfolding find assign
waiting-assign_new i t [] e = omega arith
waiting-assign_new i t ((k, u) ∷ m) e = ground (arith, waiting-assign_new i t m)

waiting-erase :
    (i : ℕ) (s : Session) (m : Sessions)
    → find i m ≡ some s
    → waiting (erase i m) + waits s ≡ waiting m
unfolding find erase
waiting-erase i s [] e = cc
waiting-erase i s ((k, u) ∷ m) e = ground (arith, waiting-erase i s m)

connected_server-waiting :
    (sv : Server) (i : ℕ) (s : Session)
    → Keyed sv.session_id_allocator sv.sessions
    → find i sv.sessions ≡ some s
    → s.status ≡ wait_to_connect
    → waiting (connected_server sv i s).sessions ≡ waiting sv.sessions
unfolding connected_server new_session
connected_server-waiting sv i s w e p =
    let n = sv.session_id_allocator in
    let s' : Session = record s { status = ready_to_write } in
    let unused : find n (assign i s' sv.sessions) ≡ none = ground (
      arith,
      find-assign i n s' sv.sessions,
      find-Fresh n sv.sessions (Fresh-above {n = n} sv.sessions n w (omega arith)),
      find_id n i sv.sessions s w e,
    ) in
    ground (
      arith,
      waiting-assign i s s' sv.sessions e,
      waiting-assign_new n (new_session n) (assign i s' sv.sessions) unused,
    )

-- Where a completion of the connection queue is for a session that waits for its client: the number
-- of sessions that wait stays the same if it succeeded, and falls by one if it failed.
pub accepter_event-waiting :
    (sv : Server) (i : ℕ) (s : Session)
    → Keyed sv.session_id_allocator sv.sessions
    → sv.session_id_allocator < 2 ^ 62
    → find i sv.sessions ≡ some s
    → s.status ≡ wait_to_connect
    → (ok : Bool) (sv' : Server) (calls : List Call)
    → accepter_event sv (tagify i connected) ok ≡ done sv' calls
    → waiting sv'.sessions + (if ok then 0 else 1) ≡ waiting sv.sessions
accepter_event-waiting sv i s w h e p true sv' calls r =
    ground (arith, connected_server_lem sv i s w h e, connected_server-waiting sv i s w e p)
accepter_event-waiting sv i s w h e p false sv' calls r =
    let known = find_id sv.session_id_allocator i sv.sessions s w e in
    let gone = erased_lem sv i s (omega arith) e in ground (arith, waiting-erase i s sv.sessions e)
