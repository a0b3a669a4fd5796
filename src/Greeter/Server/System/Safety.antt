-- ===== src/Greeter/Server/System/Safety.antt =====
-- What holds of GreeterServer after any history (grpcdemo/server_async.cc).
use cpp_demo.Prelude.{ℕ, ◌≡◌, refl, sym, subst, inl, inr, List, [], ◌∷◌, some, All, ap}
use cpp_demo.Greeter.Server.{
  Server, Call, Outcome, accepter_event, worker_event, broadcast_round, stop, start,
}
use cpp_demo.Greeter.Server.Sessions.{Keyed}
use cpp_demo.Greeter.Server.System.{
  System, settle, outcome, Event, starts, stores, accepts, works, broadcasts, stops, step,
  new_system, Posted, Enabled, Reach, here, next, ConnTag, StreamTag, Inv,
}
use cpp_demo.Greeter.Server.System.Stores.{store-Inv}
use cpp_demo.Greeter.Server.System.Fits.{
  TagsFit, Fine, settle-Inv, accepter_event-Fine, worker_event-Fine, broadcast_round-fine,
  stop-fine, start-fine,
}

pub All-posted {ℓ} : (P : ℕ → Type ℓ) (t : ℕ) (ts : List ℕ) → All P ts → Posted t ts → P t
All-posted P t [] a p = absurd p
All-posted P t (u ∷ us) a (inl e) = subst P e a.0
All-posted P t (u ∷ us) a (inr p) = All-posted P t us a.1 p

-- The next system exists and satisfies the invariant.
abbrev pub Safe : System → Event → Type 0
Safe y e = (z : System) × (step y e ≡ some z) × Inv z

module _ (y : System) (v : Inv y) where
  pub settled :
      (r : Server × List Call)
      → Keyed r.0.session_id_allocator r.0.sessions × All TagsFit r.1
      → Inv (settle y r)
  settled (sv, calls) (w, fits) =
      settle-Inv (record y { server = sv }) calls
        (record { keyed = w; conn_posted = v.conn_posted; stream_posted = v.stream_posted }) fits

module _ (y : System) (v : Inv y) where
  pub outcome-safe : (o : Outcome) → Fine o → (z : System) × (outcome y o ≡ some z) × Inv z
  outcome-safe o (sv, calls, e, w, fits) =
      (settle y (sv, calls), ap (outcome y) e, settled y v (sv, calls) (w, fits))

-- An event that can happen fails no assertion, and keeps the invariant.
step-Safe : (y : System) (e : Event) → Inv y → Enabled y e → Safe y e
unfolding step
step-Safe y starts v h = (_, refl, settled y v (start y.server) (start-fine y.server v.keyed h))
step-Safe y (stores i name) v h = (_, refl, store-Inv y i name v)
step-Safe y (accepts tag ok) v (p, h) =
    let (i, e) = All-posted ConnTag tag y.conn_tags v.conn_posted p in
    outcome-safe y v (accepter_event y.server tag ok) (
      subst (λ t. Fine (accepter_event y.server t ok)) (sym e)
        (accepter_event-Fine y.server i ok v.keyed h))
step-Safe y (works tag ok) v p =
    let (i, e, r, q) = All-posted StreamTag tag y.stream_tags v.stream_posted p in
    outcome-safe y v (worker_event y.server tag ok) (
      subst (λ t. Fine (worker_event y.server t ok)) (sym q)
        (worker_event-Fine y.server i e ok r v.keyed))
step-Safe y broadcasts v h =
    (_, refl, settled y v (broadcast_round y.server) (broadcast_round-fine y.server v.keyed))
step-Safe y stops v h = (_, refl, settled y v (stop y.server) (stop-fine y.server v.keyed))

pub system_Reach-Inv : {y z : System} → Inv y → Reach y z → Inv z
system_Reach-Inv v here = v
system_Reach-Inv {y} v (next {z = z} {u = u} r e h s) =
    let (x, p, w) = step-Safe z e (system_Reach-Inv v r) h in
    let same : x ≡ u = cc in subst Inv same w

pub new_system-Inv : Inv new_system
unfolding new_system
new_system-Inv = record { keyed = tt; conn_posted = tt; stream_posted = tt }

-- From the initial server, after any history of starts, requests that arrive for pending Reads,
-- completions of posted tags, broadcasts and stops: the map's keys are distinct, below the allocator, and the identifiers of their sessions;
-- and whatever can happen next fails no `zassert`.
pub Reach-Safe :
    {y : System}
    → Reach new_system y
    → Keyed y.server.session_id_allocator y.server.sessions
      × ((e : Event) → Enabled y e → (z : System) × (step y e ≡ some z))
Reach-Safe {y} r =
    let v = system_Reach-Inv new_system-Inv r in
    (v.keyed, λ e h. let (z, p, w) = step-Safe y e v h in (z, p))
