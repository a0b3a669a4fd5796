-- ===== src/AsyncClient/Callbacks.antt =====
-- What the callbacks of grpcdemo/client_async2.cpp are told, after any history.
use cpp_demo.Prelude.{
  ℕ, suc, ◌+◌, ◌≡◌, ◌≢◌, refl, ap, Bool, true, List, [], ◌∷◌, ◌++◌, Option, none, some, Text, arith,
  if◌then◌else◌, ◌==◌, ◌⊎◌, inl, inr, Option-cases, Bool-cases,
}
use cpp_demo.AsyncClient.{
  Client, Answer, sent, write_failed, not_running, write, new_client, run, send_request,
  on_completion, queue_ends, stop, answer, call, callback_at, delete_context,
}

pub data Event : Type 0 where
  runs stops ends : Event
  requests : Text → ℕ → ℕ → Event
  completes : ℕ → Bool → Event

unfoldable pub step : Client → Event → Option Client
step c runs = some (run c)
step c stops = some (stop c)
step c ends = some (queue_ends c)
step c (requests req cb address) = send_request req cb address c
step c (completes tag ok) = on_completion tag ok c

-- A completion is taken only in the loop. The test of `running_` was made before Next began to wait,
-- so `stop` may have been called since.
abbrev pub Enabled : Client → Event → Type 0
Enabled c (completes tag ok) = c.looping ≡ true
Enabled c _ = Unit {0}

abbrev pub requested : Event → List ℕ → List ℕ
requested (requests req cb address) cbs = cb ∷ cbs
requested _ cbs = cbs

-- The client, and the callbacks of the requests that were made of it.
pub data Reach : Client → List ℕ → Type 0 where
  here : Reach new_client []
  next :
      {c d : Client} {cbs : List ℕ}
      → Reach c cbs
      → (e : Event) → Enabled c e
      → step c e ≡ some d
      → Reach d (requested e cbs)

-- How often a callback was given, is told, and is held by a context.
abbrev pub asked : ℕ → List ℕ → ℕ
asked cb [] = 0
asked cb (k ∷ ks) = (if k == cb then 1 else 0) + asked cb ks

abbrev pub told : ℕ → List (ℕ × Answer) → ℕ
told cb [] = 0
told cb ((k, a) ∷ ks) = (if k == cb then 1 else 0) + told cb ks

abbrev pub held : ℕ → List (ℕ × ℕ) → ℕ
held cb [] = 0
held cb ((a, k) ∷ ks) = (if k == cb then 1 else 0) + held cb ks

abbrev pub failures : List (ℕ × Answer) → ℕ
failures [] = 0
failures ((k, write_failed) ∷ ks) = suc (failures ks)
failures ((k, sent) ∷ ks) = failures ks
failures ((k, not_running) ∷ ks) = failures ks

pub record Inv (c : Client) (cbs : List ℕ) : Type 0 where
  pub streamed : c.running ≡ true → c.has_stream ≡ true
  pub once : (cb : ℕ) → told cb c.answered + held cb c.contexts ≡ asked cb cbs
  pub no_failure : failures c.answered ≡ 0

told_append :
    (cb k : ℕ) (a : Answer) (xs : List (ℕ × Answer))
    → told cb (xs ++ (k, a) ∷ []) ≡ told cb xs + (if k == cb then 1 else 0)
told_append cb k a [] = omega arith
told_append cb k a ((j, b) ∷ xs) = omega (arith, told_append cb k a xs)

failures_append :
    (k : ℕ) (a : Answer) (xs : List (ℕ × Answer))
    → a ≢ write_failed
    → failures (xs ++ (k, a) ∷ []) ≡ failures xs
failures_append k a [] h = ground arith
failures_append k a ((j, sent) ∷ xs) h = failures_append k a xs h
failures_append k a ((j, write_failed) ∷ xs) h = ap suc (failures_append k a xs h)
failures_append k a ((j, not_running) ∷ xs) h = failures_append k a xs h

held_delete :
    (cb a k : ℕ) (cs : List (ℕ × ℕ))
    → callback_at a cs ≡ some k
    → held cb (delete_context a cs) + (if k == cb then 1 else 0) ≡ held cb cs
unfolding callback_at delete_context
held_delete cb a k [] e = cc
held_delete cb a k ((b, j) ∷ cs) e = ground (arith, held_delete cb a k cs)

requests-Inv :
    (c d : Client) (cbs : List ℕ) (req : Text) (cb address : ℕ)
    → send_request req cb address c ≡ some d
    → Inv c cbs
    → Inv d (cb ∷ cbs)
unfolding send_request
requests-Inv c d cbs req cb address s v = record {
  streamed = ground arith;
  once = λ k. ground (arith, v.once k, told_append k cb not_running c.answered);
  no_failure = ground (arith, failures_append cb not_running c.answered (λ e. cc));
}

completes-Inv :
    (c d : Client) (cbs : List ℕ) (tag : ℕ) (ok : Bool)
    → on_completion tag ok c ≡ some d
    → Inv c cbs
    → (callback_at tag c.contexts ≡ none) ⊎ ((cb : ℕ) × (callback_at tag c.contexts ≡ some cb))
    → Inv d cbs
unfolding on_completion
completes-Inv c d cbs tag ok s v (inl none') = record {
  streamed = ground arith;
  once = λ k. ground (arith, v.once k);
  no_failure = ground arith;
}
completes-Inv c d cbs tag ok s v (inr (cb, some')) = record {
  streamed = ground arith;
  once = λ k.
      ground
        (arith, v.once k, told_append k cb sent c.answered, held_delete k tag cb c.contexts some');
  no_failure = ground (arith, failures_append cb sent c.answered (λ e. cc));
}

sends_something :
    (c : Client)
    → (c.running ≡ true → c.has_stream ≡ true)
    → (req : Text) (cb address : ℕ) → (d : Client) × (send_request req cb address c ≡ some d)
unfolding send_request
sends_something c h req cb address = elim (Bool-cases c.running) [
  | inl on ↦ (
    call (write req address) (record c { contexts = (address, cb) ∷ c.contexts }),
    ground (arith, h on),
  )
  | inr off ↦ (answer cb not_running c, ground arith)
]

new_client-Inv : Inv new_client []
unfolding new_client
new_client-Inv = record { streamed = λ h. cc; once = λ cb. refl; no_failure = refl }

step-Inv :
    (c d : Client) (cbs : List ℕ) (e : Event)
    → Enabled c e
    → step c e ≡ some d
    → Inv c cbs
    → Inv d (requested e cbs)
unfolding step run stop queue_ends
step-Inv c d cbs runs h s v = record {
  streamed = ground arith;
  once = ground arith;
  no_failure = ground arith;
}
step-Inv c d cbs stops h s v = record {
  streamed = ground arith;
  once = ground arith;
  no_failure = ground arith;
}
step-Inv c d cbs ends h s v = record {
  streamed = ground arith;
  once = ground arith;
  no_failure = ground arith;
}
step-Inv c d cbs (requests req cb address) h s v = requests-Inv c d cbs req cb address s v
step-Inv c d cbs (completes tag ok) h s v =
    completes-Inv c d cbs tag ok s v (Option-cases (callback_at tag c.contexts))

Reach-AsyncInv : {c : Client} {cbs : List ℕ} → Reach c cbs → Inv c cbs
Reach-AsyncInv here = new_client-Inv
Reach-AsyncInv (next {c = c} {d = d} {cbs = cbs} r e h s) =
    step-Inv c d cbs e h s (Reach-AsyncInv r)

-- After any history: each callback has been called, or is held by a live context, as often as it was
-- given to a request, in all; no callback is ever told that its write failed; and no request fails the
-- assertion that there is a stream.
pub callbacks_told :
    {c : Client} {cbs : List ℕ}
    → Reach c cbs
    → ((cb : ℕ) → told cb c.answered + held cb c.contexts ≡ asked cb cbs)
      × (failures c.answered ≡ 0)
      × ((req : Text) (cb address : ℕ) → (d : Client) × (send_request req cb address c ≡ some d))
callbacks_told {c} r =
    let v = Reach-AsyncInv r in
    (v.once, v.no_failure, λ req cb address. sends_something c v.streamed req cb address)
