-- ===== src/AsyncClient/Requests.antt =====
-- The requests of main in grpcdemo/client_async2.cpp.
use cpp_demo.Prelude.{
  ℕ, ◌+◌, ◌≡◌, ◌≤◌, refl, Bool, true, false, Option, none, some, codes, ltb, if◌then◌else◌, List,
  [], ◌∷◌, arith, ◌<◌, subst, ◌∙◌, ◌&&◌, Option-cases, inl, inr,
}
use cpp_demo.AsyncClient.{Client, send_request, stop}
use cpp_demo.AsyncClient.Callbacks.{
  Event, completes, ends, step, Reach, here, next, runs, stops, requests, asked, told, held,
  callbacks_told,
}
use cpp_demo.AsyncClient.Program.{
  Phase, at_start, client_made, client_run, testing, pausing, sending, ended, Process, at_entry,
  passes, main_step, signal_handler, Threaded,
}

-- The process, in any order of its main thread's steps, signals and steps of the callback thread.
pub data Run : Process → Type 0 where
  entry : Run at_entry
  main_steps : {p q : Process} → Run p → (address : ℕ) → main_step address p ≡ some q → Run q
  signalled : {p q : Process} → Run p → signal_handler p ≡ some q → Run q
  threaded :
      {p : Process} {d : Client}
      → Run p
      → (e : Event) → Threaded p.client e
      → step p.client e ≡ some d
      → Run (record p { client = d })

abbrev Bounded : Phase → ℕ → Type 0
Bounded pausing i = i < passes
Bounded sending i = i < passes
Bounded _ i = i ≤ passes

-- The callbacks given so far are the numbers below `i`, each once.
record Inv (p : Process) : Type 0 where
  cbs : List ℕ
  reached : Reach p.client cbs
  numbers : (cb : ℕ) → asked cb cbs ≡ (if ltb cb p.i then 1 else 0)
  bounded : Bounded p.phase p.i

entry-Inv : Inv at_entry
unfolding at_entry
entry-Inv = record { cbs = []; reached = here; numbers = λ cb. ground arith; bounded = omega arith }

same_client :
    (p q : Process) → p.client ≡ q.client → p.i ≡ q.i → Bounded q.phase q.i → Inv p → Inv q
same_client p q c e b v = record {
  cbs = v.cbs;
  reached = subst (λ d. Reach d v.cbs) c v.reached;
  numbers = λ cb. ground (arith, v.numbers cb);
  bounded = b;
}

stopped :
    (p q : Process) → stop p.client ≡ q.client → p.i ≡ q.i → Bounded q.phase q.i → Inv p → Inv q
unfolding step
stopped p q c e b v = record {
  cbs = v.cbs;
  reached = subst (λ d. Reach d v.cbs) c (next v.reached stops tt refl);
  numbers = λ cb. ground (arith, v.numbers cb);
  bounded = b;
}

abbrev Whole : Option Process → Type 0
Whole none = Unit {0}
Whole (some p) = Inv p

abbrev process : Phase → Client → Bool → Bool → ℕ → Process
process f c pt g i = record { phase = f; client = c; pointed = pt; g_running = g; i = i }

Bounded-le : (f : Phase) (i : ℕ) → Bounded f i → i ≤ passes
Bounded-le f i b = ground arith

left :
    (f : Phase) (c : Client) (pt g : Bool) (i : ℕ)
    → Inv (process f c pt g i)
    → Inv (process ended (stop c) pt g i)
left f c pt g i v =
    stopped (process f c pt g i) (process ended (stop c) pt g i) refl refl
      (Bounded-le f i v.bounded) v

sent :
    (c d : Client) (pt g : Bool) (i address : ℕ)
    → send_request (codes "tony") i address c ≡ some d
    → Inv (process sending c pt g i)
    → Inv (process testing d pt g (i + 1))
unfolding step
sent c d pt g i address e v = record {
  cbs = i ∷ v.cbs;
  reached = next v.reached (requests (codes "tony") i address) tt e;
  numbers = λ cb. ground (arith, v.numbers cb);
  bounded = ground (arith, v.bounded);
}

tested :
    (c : Client) (pt g : Bool) (i : ℕ) (b : Bool)
    → (ltb i passes && g) ≡ b
    → Inv (process testing c pt g i)
    → Inv (if b then process pausing c pt g i else process ended (stop c) pt g i)
tested c pt g i true e v =
    same_client (process testing c pt g i) (process pausing c pt g i) refl refl (ground arith) v
tested c pt g i false e v = left testing c pt g i v

main_step-Inv :
    (f : Phase) (c : Client) (pt g : Bool) (i address : ℕ) (q : Process)
    → main_step address (process f c pt g i) ≡ some q
    → Inv (process f c pt g i)
    → Inv q
unfolding main_step step
main_step-Inv at_start c pt g i address q e v =
    subst Whole e (same_client _ (process client_made c true g i) refl refl v.bounded v)
main_step-Inv client_made c pt g i address q e v = subst Whole e (record {
  cbs = v.cbs;
  reached = next v.reached runs tt refl;
  numbers = v.numbers;
  bounded = v.bounded;
})
main_step-Inv client_run c pt g i address q e v =
    subst Whole e (same_client _ (process testing c pt true i) refl refl v.bounded v)
main_step-Inv testing c pt g i address q e v =
    subst Whole e (tested c pt g i (ltb i passes && g) refl v)
main_step-Inv pausing c pt true i address q e v =
    subst Whole e (same_client _ (process sending c pt true i) refl refl v.bounded v)
main_step-Inv pausing c pt false i address q e v = subst Whole e (left pausing c pt false i v)
main_step-Inv sending c pt g i address q e v =
    elim (Option-cases (send_request (codes "tony") i address c)) [
      | inl n ↦ absurd (ground arith)
      | inr (d, s) ↦
          let done : some (process testing d pt g (i + 1)) ≡ some q = ground arith in
          subst Whole done (sent c d pt g i address s v)
    ]
main_step-Inv ended c pt g i address q e v = subst Whole e v

signal_handler-Inv :
    (f : Phase) (c : Client) (pt g : Bool) (i : ℕ) (q : Process)
    → signal_handler (process f c pt g i) ≡ some q
    → Inv (process f c pt g i)
    → Inv q
unfolding signal_handler
signal_handler-Inv f c false g i q e v =
    subst Whole e (same_client _ (process f c false false i) refl refl v.bounded v)
signal_handler-Inv at_start c true g i q e v =
    subst Whole e (stopped _ (process at_start (stop c) true false i) refl refl v.bounded v)
signal_handler-Inv client_made c true g i q e v =
    subst Whole e (stopped _ (process client_made (stop c) true false i) refl refl v.bounded v)
signal_handler-Inv client_run c true g i q e v =
    subst Whole e (stopped _ (process client_run (stop c) true false i) refl refl v.bounded v)
signal_handler-Inv testing c true g i q e v =
    subst Whole e (stopped _ (process testing (stop c) true false i) refl refl v.bounded v)
signal_handler-Inv pausing c true g i q e v =
    subst Whole e (stopped _ (process pausing (stop c) true false i) refl refl v.bounded v)
signal_handler-Inv sending c true g i q e v =
    subst Whole e (stopped _ (process sending (stop c) true false i) refl refl v.bounded v)
signal_handler-Inv ended c true g i q e v = cc

Run-Inv : {p : Process} → Run p → Inv p
Run-Inv entry = entry-Inv
Run-Inv (main_steps {p = p} {q = q} r address e) =
    main_step-Inv p.phase p.client p.pointed p.g_running p.i address q e (Run-Inv r)
Run-Inv (signalled {p = p} {q = q} r e) =
    signal_handler-Inv p.phase p.client p.pointed p.g_running p.i q e (Run-Inv r)
Run-Inv (threaded {p = p} {d = d} r (completes tag ok) h e) =
    let v = Run-Inv r in
    record {
      cbs = v.cbs;
      reached = next v.reached (completes tag ok) h e;
      numbers = v.numbers;
      bounded = v.bounded;
    }
Run-Inv (threaded {p = p} {d = d} r ends h e) =
    let v = Run-Inv r in
    record {
      cbs = v.cbs;
      reached = next v.reached ends tt e;
      numbers = v.numbers;
      bounded = v.bounded;
    }
Run-Inv (threaded {p = p} {d = d} r runs h e) = absurd h
Run-Inv (threaded {p = p} {d = d} r stops h e) = absurd h
Run-Inv (threaded {p = p} {d = d} r (requests t cb a) h e) = absurd h

-- In any order of main's steps, signals and steps of the callback thread: main makes at most a
-- hundred requests, and the callback of each request made so far, and of no other, has been called
-- once or is held by one live context, not both.
pub Run-told :
    {p : Process}
    → Run p
    → (p.i ≤ passes)
      × ((cb : ℕ)
          → told cb p.client.answered + held cb p.client.contexts ≡ (if ltb cb p.i then 1 else 0))
Run-told {p} r =
    let v = Run-Inv r in
    let (t, f, a) = callbacks_told v.reached in
    (Bounded-le p.phase p.i v.bounded, λ cb. t cb ∙ v.numbers cb)
