-- ===== src/Greeter/Server/Broadcast.antt =====
-- The broadcast thread's round and Stop of GreeterServer (grpcdemo/server_async.cc).
use mathlib.Core.Option
use cpp_demo.Prelude.{
  ℕ, ◌≡◌, refl, ◌++◌, ◌↔◌, ◌⊎◌, sym, subst, inl, inr, List, [], ◌∷◌, some, Bool, true, false, Text,
  arith, if◌then◌else◌,
}
use cpp_demo.Greeter.Session.{Session, send_response}
use cpp_demo.Greeter.Server.{
  Server, Sessions, Call, try_cancel, shutdown_server, shutdown_cq_conn, shutdown_cq_readwrite,
  find, send_all, broadcast_message, broadcast_round, is_waiting, cancels, stop,
}
use cpp_demo.Greeter.Server.Sessions.{Fresh, Keyed, find-Fresh}

find-send_all :
    (j : ℕ) (message : Text) (m : Sessions)
    → find j (send_all message m).0 ≡ Option.map (λ s. (send_response s message).0) (find j m)
unfolding find send_all
find-send_all j message [] = refl
find-send_all j message ((k, s) ∷ m) = ground (arith, find-send_all j message m)

-- While the server runs, a round sends the message to every session, once; else it does nothing.
pub find-broadcast_round :
    (sv : Server) (j : ℕ)
    → find j (broadcast_round sv).0.sessions ≡ (
        if sv.running
        then Option.map (λ s. (send_response s broadcast_message).0) (find j sv.sessions)
        else find j sv.sessions)
unfolding broadcast_round
find-broadcast_round sv j = ground (arith, find-send_all j broadcast_message sv.sessions)

-- Calls among which one stands.
abbrev pub Among : Call → List Call → Type 0
Among c [] = ⊥
Among c (d ∷ ds) = (d ≡ c) ⊎ Among c ds

abbrev pub Connected : ℕ → Sessions → Type 0
Connected i m = (s : Session) × (find i m ≡ some s) × (is_waiting s.status ≡ false)

Connected-cons :
    (k i : ℕ) (s : Session) (m : Sessions) → Fresh k m → Connected i m → Connected i ((k, s) ∷ m)
unfolding find
Connected-cons k i s m w (t, found, c) = (t, ground (arith, find-Fresh k m w), c)

Among-cons :
    (k i : ℕ) (s : Session) (m : Sessions) (b : Bool)
    → is_waiting s.status ≡ b
    → s.session_id ≡ k
    → Fresh k m
    → (Among (try_cancel i) (cancels m) → Connected i m)
    → Among (try_cancel i) (if b then cancels m else try_cancel s.session_id ∷ cancels m)
    → Connected i ((k, s) ∷ m)
unfolding find
Among-cons k i s m true e p w ih a = Connected-cons k i s m w (ih a)
Among-cons k i s m false e p w ih (inl same) = (s, ground arith, e)
Among-cons k i s m false e p w ih (inr a) = Connected-cons k i s m w (ih a)

Among-sound :
    (n i : ℕ) (m : Sessions) → Keyed n m → Among (try_cancel i) (cancels m) → Connected i m
unfolding cancels
Among-sound n i [] w h = absurd h
Among-sound n i ((k, s) ∷ m) w h =
    Among-cons k i s m (is_waiting s.status) refl w.1 w.2 (Among-sound n i m w.3) h

Among-complete :
    (n i : ℕ) (m : Sessions) → Keyed n m → Connected i m → Among (try_cancel i) (cancels m)
unfolding cancels find
Among-complete n i [] w (t, found, c) = cc
Among-complete n i ((k, s) ∷ m) w (t, found, c) =
    ground (arith, λ (f : find i m ≡ some t). Among-complete n i m w.3 (t, f, c))

Among-append : (c : Call) (xs ys : List Call) → Among c (xs ++ ys) → Among c xs ⊎ Among c ys
Among-append c [] ys a = inr a
Among-append c (x ∷ xs) ys (inl e) = inl (inl e)
Among-append c (x ∷ xs) ys (inr a) = ground (arith, Among-append c xs ys a)

Among-left : (c : Call) (xs ys : List Call) → Among c xs → Among c (xs ++ ys)
Among-left c [] ys a = absurd a
Among-left c (x ∷ xs) ys (inl e) = inl e
Among-left c (x ∷ xs) ys (inr a) = inr (Among-left c xs ys a)

abbrev shutdowns : List Call
shutdowns = shutdown_server ∷ shutdown_cq_conn ∷ shutdown_cq_readwrite ∷ []

stop_calls : (sv : Server) → sv.running ≡ true → (stop sv).1 ≡ cancels sv.sessions ++ shutdowns
unfolding stop
stop_calls sv r = ground arith

Among-cancels :
    (i : ℕ) (m : Sessions)
    → Among (try_cancel i) (cancels m ++ shutdowns)
    → Among (try_cancel i) (cancels m)
Among-cancels i m a = elim (Among-append (try_cancel i) (cancels m) shutdowns a) [
  | inl b ↦ b
  | inr b ↦ ground arith
]

-- Stop of a running server cancels exactly the sessions whose client has connected, leaves its
-- sessions as they were, and marks it stopped; stopping it again makes no call.
pub stop_effect :
    (sv : Server)
    → Keyed sv.session_id_allocator sv.sessions
    → sv.running ≡ true
    → ((i : ℕ) → Among (try_cancel i) (stop sv).1 ↔ Connected i sv.sessions)
      × ((stop sv).0 ≡ record sv { running = false })
      × (stop (stop sv).0 ≡ ((stop sv).0, []))
unfolding stop
stop_effect sv w r = (
  λ i. (
    λ a.
        Among-sound sv.session_id_allocator i sv.sessions w
          (Among-cancels i sv.sessions (subst (Among (try_cancel i)) (stop_calls sv r) a)),
    λ c. subst (Among (try_cancel i)) (sym (stop_calls sv r)) (
        Among-left (try_cancel i) (cancels sv.sessions) shutdowns
          (Among-complete sv.session_id_allocator i sv.sessions w c)),
  ),
  ground arith,
  ground arith,
)
