-- ===== src/Greeter/Session/Protocol.antt =====
-- A session beside its stream, as gRPC drives it (grpcdemo/server_async.cc): a completion arrives
-- only for a call that is pending, and other threads send responses at any time.
use cpp_demo.Prelude.{
  ℕ, zero, suc, ◌+◌, ◌-◌, ◌<◌, ◌≡◌, ◌≢◌, sym, ap, ◌∙◌, ◌++◌, List, [], ◌∷◌, append_assoc,
  append-nil, Text, length, arith,
}
use cpp_demo.Greeter.Tag.{connected, read_done, write_done}
use cpp_demo.Greeter.Session.{
  Session, SessionStatus, wait_to_connect, ready_to_write, wait_write_done, StreamCall, read, write,
  new_session, greeting, send_response, process_event,
}

-- The session, the calls of Read and Write that are pending on its stream, the messages written so
-- far, and the messages that the session was asked to send while it was connected.
pub record Link : Type 0 where
  pub session : Session
  pub reads : ℕ
  pub writes : ℕ
  pub written : List Text
  pub accepted : List Text

unfoldable pub fresh_link : ℕ → Link
unfolding new_session
fresh_link i = record {
  session = new_session i;
  reads = 0;
  writes = 0;
  written = [];
  accepted = [];
}

apply_call : Link → StreamCall → Link
apply_call l (read tag) = record l { reads = l.reads + 1 }
apply_call l (write message tag) = record l {
  writes = l.writes + 1;
  written = l.written ++ message ∷ [];
}

abbrev apply_calls : Link → List StreamCall → Link
apply_calls l [] = l
apply_calls l (c ∷ cs) = apply_calls (apply_call l c) cs

-- The session's new state, and the effect of its calls.
abbrev settle : Link → Session × List StreamCall → Link
settle l (s, calls) = apply_calls (record l { session = s }) calls

pub data Event : Type 0 where
  connects : Event
  receives : Text → Event
  completes_write : Event
  sends : Text → Event

-- What the environment may do.
abbrev pub Enabled : Link → Event → Type 0
Enabled l connects = l.session.status ≡ wait_to_connect
Enabled l (receives name) = 0 < l.reads
Enabled l completes_write = 0 < l.writes
Enabled l (sends message) = Unit {0}

-- A message that is offered is accepted unless the session still waits for its client.
abbrev accept : SessionStatus → List Text → Text → List Text
accept wait_to_connect accepted message = accepted
accept ready_to_write accepted message = accepted ++ message ∷ []
accept wait_write_done accepted message = accepted ++ message ∷ []

abbrev offer : Link → Text → Link
offer l message = record l { accepted = accept l.session.status l.accepted message }

unfoldable pub deliver : Link → Event → Link
unfolding process_event send_response apply_call
deliver l connects = settle l (process_event l.session connected)
deliver l (receives name) =
    let s = record (l.session) { request_name = name } in
    settle (record (offer l (greeting name)) { reads = l.reads - 1 }) (process_event s read_done)
deliver l completes_write =
    settle (record l { writes = l.writes - 1 }) (process_event l.session write_done)
deliver l (sends message) = settle (offer l message) (send_response l.session message)

pub data Reach (l : Link) : Link → Type 0 where
  here : Reach l l
  next : {m : Link} → Reach l m → (e : Event) → Enabled m e → Reach l (deliver m e)

-- The writes that are pending in each status.
abbrev pub pending_in : SessionStatus → ℕ
pending_in wait_write_done = 1
pending_in _ = 0

-- The reads that are pending in each status.
abbrev pub reads_in : SessionStatus → ℕ
reads_in wait_to_connect = 0
reads_in _ = 1

pub record Inv (l : Link) : Type 0 where
  pub one_write : l.writes ≡ pending_in l.session.status
  pub one_read : l.reads ≡ reads_in l.session.status
  pub queue_busy : l.session.status ≢ wait_write_done → l.session.message_queue ≡ []
  pub in_order : l.written ++ l.session.message_queue ≡ l.accepted

fresh_link-Inv : (i : ℕ) → Inv (fresh_link i)
unfolding fresh_link
fresh_link-Inv i = ground arith

abbrev head_of : List Text → List Text
head_of [] = []
head_of (m ∷ ms) = m ∷ []

abbrev tail_of : List Text → List Text
tail_of [] = []
tail_of (m ∷ ms) = ms

deliver-Inv : (l : Link) (e : Event) → Enabled l e → Inv l → Inv (deliver l e)
unfolding deliver
deliver-Inv l connects h v = ground arith
deliver-Inv l (receives name) h v = ground (
  arith,
  append-nil l.written,
  append-nil (l.written ++ greeting name ∷ []),
  append_assoc l.written l.session.message_queue (greeting name ∷ []),
)
deliver-Inv l completes_write h v = ground (
  arith,
  append_assoc l.written (head_of l.session.message_queue) (tail_of l.session.message_queue),
)
deliver-Inv l (sends message) h v = ground (
  arith,
  append-nil l.written,
  append-nil (l.written ++ message ∷ []),
  append_assoc l.written l.session.message_queue (message ∷ []),
)

-- However the events come: at most one Write and one Read are ever pending, none before the client
-- connects; while no Write is pending nothing is queued; and the messages written, followed by those
-- still queued, are those that the session accepted, in order.
pub session_Reach-Inv : (i : ℕ) {l : Link} → Reach (fresh_link i) l → Inv l
session_Reach-Inv i here = fresh_link-Inv i
session_Reach-Inv i (next {m = m} r e h) = deliver-Inv m e h (session_Reach-Inv i r)

-- The first `n` writes that are pending complete, and nothing else happens.
unfoldable pub complete : ℕ → Link → Link
complete zero l = l
complete (suc n) l = complete n (deliver l completes_write)

write_done_queued :
    (l : Link)
    → Inv l
    → l.session.status ≡ wait_write_done
    → (n : ℕ) → length l.session.message_queue ≡ suc n
    → let m = deliver l completes_write in
      (m.session.status ≡ wait_write_done)
      × (length m.session.message_queue ≡ n)
      × (m.accepted ≡ l.accepted)
unfolding deliver
write_done_queued l v s n e = ground arith

write_done_empty :
    (l : Link)
    → Inv l
    → l.session.status ≡ wait_write_done
    → length l.session.message_queue ≡ 0
    → let m = deliver l completes_write in
      (m.session.status ≡ ready_to_write)
      × (m.session.message_queue ≡ [])
      × (m.accepted ≡ l.accepted)
unfolding deliver
write_done_empty l v s e = ground arith

-- While a write is pending, the completion of it and of each message queued behind it leaves the
-- session ready, with everything that it accepted written.
pub complete-written :
    (n : ℕ) (l : Link)
    → Inv l
    → l.session.status ≡ wait_write_done
    → length l.session.message_queue ≡ n
    → let m = complete (suc n) l in
      Inv m
      × (m.session.status ≡ ready_to_write)
      × (m.session.message_queue ≡ [])
      × (m.written ≡ l.accepted)
unfolding complete
complete-written zero l v s e =
    let m = deliver l completes_write in
    let w : Inv m = deliver-Inv l completes_write (omega (arith, v.one_write, ap pending_in s)) v in
    let (ready, empty, same) = write_done_empty l v s e in
    (w, ready, empty, sym (append-nil m.written) ∙ (rw (← empty) w.in_order) ∙ same)
complete-written (suc n) l v s e =
    let m = deliver l completes_write in
    let w : Inv m = deliver-Inv l completes_write (omega (arith, v.one_write, ap pending_in s)) v in
    let (waits, shorter, same) = write_done_queued l v s n e in
    let (inv, ready, empty, all) = complete-written n m w waits shorter in
    (inv, ready, empty, all ∙ same)
