-- ===== src/Greeter/Server/System/Fits.antt =====
-- Each handler of GreeterServer posts tags of the right kind (grpcdemo/server_async.cc).
use cpp_demo.Prelude.{
  ℕ, ◌+◌, ◌%◌, ◌^◌, ◌<◌, ◌≡◌, refl, ◌⊎◌, inl, inr, ◌++◌, List, [], ◌∷◌, map, some, Bool, true,
  false, Text, All, arith, if◌then◌else◌, Option-cases, sym, subst, ◌∙◌,
}
use cpp_demo.Greeter.Tag.{SessionEvent, connected, read_done, write_done, tagify, detagify-tagify}
use cpp_demo.Greeter.Session.{Session, read, write, new_session, process_event, send_response}
use cpp_demo.Greeter.Server.{
  Server, Sessions, Call, request_say_hello3, on_stream, try_cancel, shutdown_server,
  shutdown_cq_conn, shutdown_cq_readwrite, Outcome, done, find, assign, erase, accepter_event,
  worker_event, accepted, worked, send_all, broadcast_message, broadcast_round, cancels, stop,
  start, add_new_session, is_read_or_write,
}
use cpp_demo.Greeter.Server.Sessions.{
  Fresh, Keyed, Keyed-assign, Keyed-assign_new, Keyed-erase, find_id,
}
use cpp_demo.Greeter.Server.System.{System, post_all, ConnTag, StreamTag, Inv}

-- A call posts tags of its queue's kind.
abbrev pub TagsFit : Call → Type 0
TagsFit (request_say_hello3 tag) = ConnTag tag
TagsFit (on_stream i (read tag)) = StreamTag tag
TagsFit (on_stream i (write message tag)) = StreamTag tag
TagsFit _ = Unit {0}

All-append {ℓ κ} :
    {A : Type ℓ} (P : A → Type κ) (xs ys : List A) → All P xs → All P ys → All P (xs ++ ys)
All-append P [] ys hx hy = hy
All-append P (x ∷ xs) ys hx hy = (hx.0, All-append P xs ys hx.1 hy)

pub settle-Inv : (y : System) (cs : List Call) → Inv y → All TagsFit cs → Inv (post_all y cs)
settle-Inv y [] v t = v
settle-Inv y (request_say_hello3 tag ∷ cs) v t =
    settle-Inv _ cs
      (record {
        keyed = v.keyed;
        conn_posted = (t.0, v.conn_posted);
        stream_posted = v.stream_posted;
      })
      t.1
settle-Inv y (on_stream i (read tag) ∷ cs) v t =
    settle-Inv _ cs
      (record {
        keyed = v.keyed;
        conn_posted = v.conn_posted;
        stream_posted = (t.0, v.stream_posted);
      })
      t.1
settle-Inv y (on_stream i (write message tag) ∷ cs) v t =
    settle-Inv _ cs
      (record {
        keyed = v.keyed;
        conn_posted = v.conn_posted;
        stream_posted = (t.0, v.stream_posted);
      })
      t.1
settle-Inv y (try_cancel i ∷ cs) v t = settle-Inv y cs v t.1
settle-Inv y (shutdown_server ∷ cs) v t = settle-Inv y cs v t.1
settle-Inv y (shutdown_cq_conn ∷ cs) v t = settle-Inv y cs v t.1
settle-Inv y (shutdown_cq_readwrite ∷ cs) v t = settle-Inv y cs v t.1

send_response-fits :
    (i : ℕ) (s : Session) (message : Text)
    → All TagsFit (map (on_stream i) (send_response s message).1)
unfolding send_response
send_response-fits i s message =
    let w : StreamTag (tagify s.session_id write_done) = (s.session_id, write_done, refl, refl) in
    ground (arith, w)

process_event-fits :
    (i : ℕ) (s : Session) (e : SessionEvent) → All TagsFit (map (on_stream i) (process_event s e).1)
unfolding process_event
process_event-fits i s e =
    let w : StreamTag (tagify s.session_id write_done) = (s.session_id, write_done, refl, refl) in
    let r : StreamTag (tagify s.session_id read_done) = (s.session_id, read_done, refl, refl) in
    ground (arith, w, r)

process_event-id :
    (s : Session) (e : SessionEvent) → (process_event s e).0.session_id ≡ s.session_id
unfolding process_event
process_event-id s e = ground arith

send_response-id :
    (s : Session) (message : Text) → (send_response s message).0.session_id ≡ s.session_id
unfolding send_response
send_response-id s message = ground arith

-- A handler's outcome that is no failed assertion, and keeps the invariant.
abbrev pub Fine : Outcome → Type 0
Fine o =
    (sv : Server) × (calls : List Call) × (o ≡ done sv calls)
    × Keyed sv.session_id_allocator sv.sessions
    × All TagsFit calls

module _ (sv : Server) (w : Keyed sv.session_id_allocator sv.sessions) where
  add_new_session-fine :
      sv.session_id_allocator < 2 ^ 62
      → Keyed (add_new_session sv).0.session_id_allocator (add_new_session sv).0.sessions
        × All TagsFit (add_new_session sv).1
  unfolding add_new_session new_session
  add_new_session-fine h =
      let n = sv.session_id_allocator in
      let wraps : (n + 1) % 2 ^ 64 ≡ n + 1 = omega arith in
      (rw wraps (Keyed-assign_new n (new_session n) sv.sessions refl w), ((n, refl), tt))

  removed-Fine : (i : ℕ) → Fine (done (record sv { sessions = erase i sv.sessions }) [])
  removed-Fine i = (_, _, refl, Keyed-erase sv.session_id_allocator i sv.sessions w, tt)

  processed-Keyed :
      (i : ℕ) (s : Session) (e : SessionEvent)
      → find i sv.sessions ≡ some s
      → Keyed sv.session_id_allocator (assign i (process_event s e).0 sv.sessions)
  processed-Keyed i s e f =
      let (same, low) = find_id sv.session_id_allocator i sv.sessions s w f in
      Keyed-assign sv.session_id_allocator i (process_event s e).0 sv.sessions low
        (process_event-id s e ∙ same) w

module _ (sv : Server) (w : Keyed sv.session_id_allocator sv.sessions) where
  accepted-Fine :
      (i : ℕ) (s : Session)
      → sv.session_id_allocator < 2 ^ 62
      → find i sv.sessions ≡ some s
      → Fine (accepted i s connected sv)
  unfolding accepted
  accepted-Fine i s h f =
      let mid : Server = record sv {
        sessions = assign i (process_event s connected).0 sv.sessions;
      } in
      let (kept, fits) = add_new_session-fine mid (processed-Keyed sv w i s connected f) h in
      (_, _, refl, kept, All-append TagsFit _ _ (process_event-fits i s connected) fits)

  worked-Fine :
      (i : ℕ) (s : Session) (e : SessionEvent)
      → is_read_or_write e ≡ true
      → find i sv.sessions ≡ some s
      → Fine (worked i s e sv)
  unfolding worked
  worked-Fine i s e r f = (
    record sv { sessions = assign i (process_event s e).0 sv.sessions },
    map (on_stream i) (process_event s e).1,
    rw r,
    processed-Keyed sv w i s e f,
    process_event-fits i s e,
  )

module _ (sv : Server) (i : ℕ) (e : SessionEvent) where
  pub accepter_event_cases :
      (ok : Bool)
      → (accepter_event sv (tagify i e) ok ≡ done sv [])
        ⊎ ((s : Session) × (find (i % 2 ^ 62) sv.sessions ≡ some s)
            × (accepter_event sv (tagify i e) ok ≡ (
                if ok
                then accepted (i % 2 ^ 62) s e sv
                else done (record sv { sessions = erase (i % 2 ^ 62) sv.sessions }) [])))
  unfolding accepter_event
  accepter_event_cases ok = elim (Option-cases (find (i % 2 ^ 62) sv.sessions)) [
    | inl missing ↦ inl (ground (arith, detagify-tagify i e))
    | inr (s, found) ↦ inr (s, found, ground (arith, detagify-tagify i e))
  ]

  pub worker_event_cases :
      (ok : Bool)
      → (worker_event sv (tagify i e) ok ≡ done sv [])
        ⊎ ((s : Session) × (find (i % 2 ^ 62) sv.sessions ≡ some s)
            × (worker_event sv (tagify i e) ok ≡ (
                if ok
                then worked (i % 2 ^ 62) s e sv
                else done (record sv { sessions = erase (i % 2 ^ 62) sv.sessions }) [])))
  unfolding worker_event
  worker_event_cases ok = elim (Option-cases (find (i % 2 ^ 62) sv.sessions)) [
    | inl missing ↦ inl (ground (arith, detagify-tagify i e))
    | inr (s, found) ↦ inr (s, found, ground (arith, detagify-tagify i e))
  ]

either-Fine : (ok : Bool) (a b : Outcome) → Fine a → Fine b → Fine (if ok then a else b)
either-Fine true a b p q = p
either-Fine false a b p q = q

pub accepter_event-Fine :
    (sv : Server) (i : ℕ) (ok : Bool)
    → Keyed sv.session_id_allocator sv.sessions
    → sv.session_id_allocator < 2 ^ 62
    → Fine (accepter_event sv (tagify i connected) ok)
accepter_event-Fine sv i ok w h = elim (accepter_event_cases sv i connected ok) [
  | inl e ↦ (sv, [], e, w, tt)
  | inr (s, f, e) ↦
      subst Fine (sym e) (
        either-Fine ok _ _ (accepted-Fine sv w (i % 2 ^ 62) s h f) (removed-Fine sv w (i % 2 ^ 62)))
]

pub worker_event-Fine :
    (sv : Server) (i : ℕ) (e : SessionEvent) (ok : Bool)
    → is_read_or_write e ≡ true
    → Keyed sv.session_id_allocator sv.sessions
    → Fine (worker_event sv (tagify i e) ok)
worker_event-Fine sv i e ok r w = elim (worker_event_cases sv i e ok) [
  | inl p ↦ (sv, [], p, w, tt)
  | inr (s, f, p) ↦
      subst Fine (sym p) (
        either-Fine ok _ _ (worked-Fine sv w (i % 2 ^ 62) s e r f) (removed-Fine sv w (i % 2 ^ 62)))
]

Fresh-send_all :
    (k : ℕ) (message : Text) (m : Sessions) → Fresh k m → Fresh k (send_all message m).0
unfolding send_all
Fresh-send_all k message [] f = tt
Fresh-send_all k message ((j, s) ∷ m) f = (f.0, Fresh-send_all k message m f.1)

-- A round of the broadcast changes no key.
send_all-fine :
    (n : ℕ) (message : Text) (m : Sessions)
    → Keyed n m
    → Keyed n (send_all message m).0 × All TagsFit (send_all message m).1
unfolding send_all
send_all-fine n message [] w = (tt, tt)
send_all-fine n message ((k, s) ∷ m) w =
    let (kept, fits) = send_all-fine n message m w.3 in
    (
      (w.0, send_response-id s message ∙ w.1, Fresh-send_all k message m w.2, kept),
      All-append TagsFit _ _ (send_response-fits k s message) fits,
    )

pub broadcast_round-fine :
    (sv : Server)
    → Keyed sv.session_id_allocator sv.sessions
    → Keyed (broadcast_round sv).0.session_id_allocator (broadcast_round sv).0.sessions
      × All TagsFit (broadcast_round sv).1
unfolding broadcast_round
broadcast_round-fine sv w =
    ground (arith, send_all-fine sv.session_id_allocator broadcast_message sv.sessions w)

cancels-fine : (m : Sessions) → All TagsFit (cancels m)
unfolding cancels
cancels-fine [] = tt
cancels-fine ((k, s) ∷ m) = ground (arith, cancels-fine m)

pub stop-fine :
    (sv : Server)
    → Keyed sv.session_id_allocator sv.sessions
    → Keyed (stop sv).0.session_id_allocator (stop sv).0.sessions × All TagsFit (stop sv).1
unfolding stop
stop-fine sv w =
    let fits =
      All-append TagsFit (cancels sv.sessions)
        (shutdown_server ∷ shutdown_cq_conn ∷ shutdown_cq_readwrite ∷ []) (cancels-fine sv.sessions)
        (tt, (tt, (tt, tt))) in
    ground (arith, fits)

pub start-fine :
    (sv : Server)
    → Keyed sv.session_id_allocator sv.sessions
    → sv.session_id_allocator < 2 ^ 62
    → Keyed (start sv).0.session_id_allocator (start sv).0.sessions × All TagsFit (start sv).1
unfolding start
start-fine sv w h = ground (arith, add_new_session-fine (record sv { running = true }) w h)
