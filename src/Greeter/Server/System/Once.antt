-- ===== src/Greeter/Server/System/Once.antt =====
-- GreeterServer beside its two completion queues where each call of gRPC completes at most once
-- (grpcdemo/server_async.cc): the tag of a completion is no longer posted.
use cpp_demo.Greeter.Server.System.Owes.{waiting, writing, Owes}
use cpp_demo.Greeter.Server.System.Counts.{is_for, count}
use cpp_demo.Prelude.{
  ℕ, ◌+◌, ◌%◌, ◌^◌, ◌<◌, ◌≡◌, refl, sym, subst, ap, ◌∙◌, inl, inr, List, [], ◌∷◌, some, Bool, true,
  false, arith, if◌then◌else◌, ◌==◌,
}
use cpp_demo.Greeter.Tag.{SessionEvent, connected, read_done, write_done, tagify}
use cpp_demo.Greeter.Session.{Session}
use cpp_demo.Greeter.Server.{
  Server, Call, find, accepter_event, worker_event, broadcast_round, stop, start,
}
use cpp_demo.Greeter.Tag.{tagify-injective}
use cpp_demo.Greeter.Server.{initial}
use cpp_demo.Greeter.Server.System.{
  System, settle, outcome, Event, starts, stores, accepts, works, broadcasts, stops, step,
  new_system, Posted, Enabled, ConnTag, StreamTag, Inv,
}
use cpp_demo.Greeter.Server.System.{store}
use cpp_demo.Greeter.Server.System.Stores.{store-Inv, store-Due}
use cpp_demo.Greeter.Server.System.Fits.{
  accepter_event-Fine, worker_event-Fine, broadcast_round-fine, stop-fine, start-fine, Fine,
}
use cpp_demo.Greeter.Server.System.Safety.{outcome-safe, settled, All-posted, new_system-Inv}
use cpp_demo.Prelude.{All}
use cpp_demo.Greeter.Server.System.Pending.{DueAt}
use cpp_demo.Greeter.Server.System.Completions.{
  Shares, accepter_event-Shares, worker_event-Shares, DueAt-cong,
}
use cpp_demo.Greeter.Server.System.Operations.{
  Shared, start-Shared, stop-Shared, broadcast_round-Shared,
}
use cpp_demo.Greeter.Server.System.Settled.{Pending, settle-due, outcome-due}

-- The posted tags but for one that has completed.
abbrev pub without : ℕ → List ℕ → List ℕ
without t [] = []
without t (u ∷ us) = if u == t then us else u ∷ without t us

abbrev pub complete : Event → System → System
complete (accepts tag ok) y = record y { conn_tags = without tag y.conn_tags }
complete (works tag ok) y = record y { stream_tags = without tag y.stream_tags }
complete _ y = y

pub data Run (y : System) : System → Type 0 where
  begins : Run y y
  goes_on :
      {z u : System}
      → Run y z
      → (e : Event) → Enabled z e
      → z.server.session_id_allocator < 2 ^ 62
      → step (complete e z) e ≡ some u
      → Run y u

count-without :
    (i : ℕ) (e : SessionEvent) (t : ℕ) (us : List ℕ)
    → Posted t us
    → count i e us ≡ count i e (without t us) + is_for i e t
count-without i e t [] p = absurd p
count-without i e t (u ∷ us) (inl same) = ground arith
count-without i e t (u ∷ us) (inr p) = ground (arith, count-without i e t us p)

All-either {ℓ} :
    (P : ℕ → Type ℓ) (b : Bool) (us vs : List ℕ)
    → All P us
    → All P vs
    → All P (if b then us else vs)
All-either P true us vs a b = a
All-either P false us vs a b = b

All-without {ℓ} : (P : ℕ → Type ℓ) (t : ℕ) (us : List ℕ) → All P us → All P (without t us)
All-without P t [] a = tt
All-without P t (u ∷ us) a =
    All-either P (u == t) us (u ∷ without t us) a.1 (a.0, All-without P t us a.1)

complete-Inv : (e : Event) (y : System) → Inv y → Inv (complete e y)
complete-Inv (accepts tag ok) y v = record {
  keyed = v.keyed;
  conn_posted = All-without ConnTag tag y.conn_tags v.conn_posted;
  stream_posted = v.stream_posted;
}
complete-Inv (works tag ok) y v = record {
  keyed = v.keyed;
  conn_posted = v.conn_posted;
  stream_posted = All-without StreamTag tag y.stream_tags v.stream_posted;
}
complete-Inv starts y v = v
complete-Inv (stores i name) y v = v
complete-Inv broadcasts y v = v
complete-Inv stops y v = v

settled-Inv : (x z : System) → some x ≡ some z → Inv x → Inv z
settled-Inv x z e v = let same : x ≡ z = cc in subst Inv same v

small_tag : (k : ℕ) (e : SessionEvent) → tagify k e ≡ tagify (k % 2 ^ 62) e
small_tag k e = (tagify-injective k (k % 2 ^ 62) e e).1 (omega arith, refl)

module _ (y z : System) (v : Pending y) (h : y.server.session_id_allocator < 2 ^ 62) where
  accepts-Pending :
      (tag : ℕ) (ok : Bool)
      → Posted tag y.conn_tags
      → outcome (complete (accepts tag ok) y) (accepter_event y.server tag ok) ≡ some z
      → Pending z
  accepts-Pending tag ok p e =
      let y' = complete (accepts tag ok) y in
      let v' = complete-Inv (accepts tag ok) y v.inv in
      let (j, long) = All-posted ConnTag tag y.conn_tags v.inv.conn_posted p in
      let k = j % 2 ^ 62 in
      let same : tag ≡ tagify k connected = long ∙ small_tag j connected in
      let (x, q, w) = outcome-safe y' v' (accepter_event y.server tag ok) (
        subst (λ t. Fine (accepter_event y.server t ok)) (sym same)
          (accepter_event-Fine y.server k ok v.inv.keyed h)) in
      record {
        inv = settled-Inv x z (sym q ∙ e) w;
        due = λ i.
            let fewer = count-without i connected tag y.conn_tags p in
            let c = count i connected y'.conn_tags in
            let r = count i read_done y.stream_tags in
            let w = count i write_done y.stream_tags in
            let before : DueAt y.server i (c + is_for i connected (tagify k connected)) r w =
              DueAt-cong y.server i _ (count i connected y.conn_tags) r r w w
                (sym (fewer ∙ ap (λ t. c + is_for i connected t) same)) refl refl (v.due i) in
            outcome-due y' z (accepter_event y.server tag ok) i e (
              subst (λ t. Shares (accepter_event y.server t ok) i c r w) (sym same)
                (accepter_event-Shares y.server v.inv.keyed k (omega arith) i c r w ok h before));
      }

  works-Pending :
      (tag : ℕ) (ok : Bool)
      → Posted tag y.stream_tags
      → outcome (complete (works tag ok) y) (worker_event y.server tag ok) ≡ some z
      → Pending z
  works-Pending tag ok p q =
      let y' = complete (works tag ok) y in
      let v' = complete-Inv (works tag ok) y v.inv in
      let (j, e, rw_done, long) = All-posted StreamTag tag y.stream_tags v.inv.stream_posted p in
      let k = j % 2 ^ 62 in
      let same : tag ≡ tagify k e = long ∙ small_tag j e in
      let (x, done', w) = outcome-safe y' v' (worker_event y.server tag ok) (
        subst (λ t. Fine (worker_event y.server t ok)) (sym same)
          (worker_event-Fine y.server k e ok rw_done v.inv.keyed)) in
      record {
        inv = settled-Inv x z (sym done' ∙ q) w;
        due = λ i.
            let c = count i connected y.conn_tags in
            let r = count i read_done y'.stream_tags in
            let w = count i write_done y'.stream_tags in
            let before : DueAt y.server i c (r + is_for i read_done (tagify k e))
                (w + is_for i write_done (tagify k e)) =
              DueAt-cong y.server i c c _ (count i read_done y.stream_tags) _
                (count i write_done y.stream_tags) refl
                (sym (
                  count-without i read_done tag y.stream_tags p
                  ∙ ap (λ t. r + is_for i read_done t) same))
                (sym (
                  count-without i write_done tag y.stream_tags p
                  ∙ ap (λ t. w + is_for i write_done t) same))
                (v.due i) in
            outcome-due y' z (worker_event y.server tag ok) i q (
              subst (λ t. Shares (worker_event y.server t ok) i c r w) (sym same)
                (worker_event-Shares y.server v.inv.keyed k (omega arith) i c r w e ok rw_done
                  (omega arith) before));
      }

  own-Pending :
      (p : Server × List Call)
      → some (settle y p) ≡ some z
      → Inv (settle y p)
      → ((i : ℕ)
          → Shared p i
              (count i connected y.conn_tags)
              (count i read_done y.stream_tags)
              (count i write_done y.stream_tags))
      → Pending z
  own-Pending p e inv shares =
      let same : settle y p ≡ z = cc in
      record { inv = subst Inv same inv; due = λ i. settle-due y z p i same (shares i) }

step-Pending :
    (y z : System) (e : Event)
    → Pending y
    → Enabled y e
    → y.server.session_id_allocator < 2 ^ 62
    → step (complete e y) e ≡ some z
    → Pending z
unfolding step
step-Pending y z starts v h low e =
    own-Pending y z v low (start y.server) e
      (settled y v.inv (start y.server) (start-fine y.server v.inv.keyed h))
      (λ i. start-Shared y.server i _ _ _ (v.due i) h)
step-Pending y z (stores k name) v h low e =
    let y' : System = record y { server = store k name y.server } in
    let same : y' ≡ z = cc in
    let there : Pending y' = record {
      inv = store-Inv y k name v.inv;
      due = λ i. store-Due y.server k name i _ _ _ (v.due i);
    } in
    subst Pending same there
step-Pending y z (accepts tag ok) v h low e = accepts-Pending y z v low tag ok h.0 e
step-Pending y z (works tag ok) v h low e = works-Pending y z v low tag ok h e
step-Pending y z broadcasts v h low e =
    own-Pending y z v low (broadcast_round y.server) e
      (settled y v.inv (broadcast_round y.server) (broadcast_round-fine y.server v.inv.keyed))
      (λ i. broadcast_round-Shared y.server i _ _ _ (v.due i) v.inv.keyed (omega arith))
step-Pending y z stops v h low e =
    own-Pending y z v low (stop y.server) e
      (settled y v.inv (stop y.server) (stop-fine y.server v.inv.keyed))
      (λ i. stop-Shared y.server i _ _ _ (v.due i))

new_system-Pending : Pending new_system
unfolding new_system initial find
new_system-Pending = record { inv = new_system-Inv; due = λ i. (tt, λ above. (refl, refl, refl)) }

run-Pending : {y : System} → Run new_system y → Pending y
run-Pending begins = new_system-Pending
run-Pending (goes_on {z = z} {u = u} r e h low s) = step-Pending z u e (run-Pending r) h low s

-- Where each call of gRPC completes at most once: in every order of starts, arriving requests, completions,
-- broadcasts and stops, a session in the map that waits for its client has just its connection to complete; any other
-- has just one read to complete, and just one write exactly if it is writing.
pub Run-Owes :
    {y : System} (i : ℕ) (s : Session)
    → Run new_system y
    → find i y.server.sessions ≡ some s
    → (count i connected y.conn_tags ≡ waiting s.status)
      × (count i read_done y.stream_tags + waiting s.status ≡ 1)
      × (count i write_done y.stream_tags ≡ writing s.status)
Run-Owes {y} i s r found =
    subst
      (λ o.
        Owes o (count i connected y.conn_tags) (count i read_done y.stream_tags)
          (count i write_done y.stream_tags))
      found ((run-Pending r).due i).0
