-- ===== src/ProducerConsumer.antt =====
-- misc/producer_consumer.cpp: one producer and two consumers around a queue, a mutex and a condition
-- variable. A step is what a thread does between taking the mutex and giving it back; sleeping and
-- output are left out, but for the numbers that the consumers print.
mod Tests
use cpp_demo.Prelude.{
  ℕ, zero, suc, ◌+◌, ◌≡◌, ◌≢◌, refl, ap, sym, ◌∙◌, Bool, true, false, not, List, [], ◌∷◌, ◌++◌,
  append_assoc, append-nil, arith, length, length-append, if◌then◌else◌,
}

-- A consumer waits on the condition variable, or has seen `notified` and given the mutex back.
pub data Phase : Type 0 where
  waiting woken : Phase

-- `next` is the producer's `i`, an `int` that the loop, which has no end, counts up; it is not bounded
-- here, so the model holds up to 2 ^ 31 rounds; `printed` holds what the consumers printed, in order.
pub record State : Type 0 where
  pub buffer : List ℕ
  pub notified : Bool
  pub next : ℕ
  pub first : Phase
  pub second : Phase
  pub printed : List ℕ

unfoldable pub initial : State
initial = record {
  buffer = [];
  notified = false;
  next = 0;
  first = waiting;
  second = waiting;
  printed = [];
}

-- The producer's round.
unfoldable pub produce : State → State
produce s = record s { buffer = s.buffer ++ s.next ∷ []; notified = true; next = s.next + 1 }

-- `while (!buffer.empty())`: the fronts are printed and popped.
empty_out : List ℕ → List ℕ → List ℕ
empty_out printed [] = printed
empty_out printed (x ∷ xs) = empty_out (printed ++ x ∷ []) xs

-- The consumer's second critical section.
unfoldable pub consume : State → State
unfolding empty_out
consume s = record s { buffer = []; notified = false; printed = empty_out s.printed s.buffer }

-- Which consumer: true for the first.
abbrev pub phase : Bool → State → Phase
phase true s = s.first
phase false s = s.second

abbrev pub set_phase : Bool → Phase → State → State
set_phase true p s = record s { first = p }
set_phase false p s = record s { second = p }

-- What can happen next, in any order that the scheduler chooses.
pub data Step (s : State) : State → Type 0 where
  produces : Step s (produce s)
  wakes : (c : Bool) → phase c s ≡ waiting → s.notified ≡ true → Step s (set_phase c woken s)
  consumes : (c : Bool) → phase c s ≡ woken → Step s (set_phase c waiting (consume s))

pub data Reach (s : State) : State → Type 0 where
  here : Reach s s
  next_step : {t u : State} → Reach s t → Step t u → Reach s u

-- 0, 1, …, n - 1.
abbrev pub upto : ℕ → List ℕ
upto zero = []
upto (suc n) = upto n ++ n ∷ []

pub record Inv (s : State) : Type 0 where
  pub in_order : s.printed ++ s.buffer ≡ upto s.next
  pub announced : s.buffer ≢ [] → s.notified ≡ true

empty_out_lem : (printed xs : List ℕ) → empty_out printed xs ≡ printed ++ xs
unfolding empty_out
empty_out_lem printed [] = sym (append-nil printed)
empty_out_lem printed (x ∷ xs) =
    empty_out_lem (printed ++ x ∷ []) xs ∙ append_assoc printed (x ∷ []) xs

upto-suc : (n : ℕ) → upto (n + 1) ≡ upto n ++ n ∷ []
upto-suc n = let e : n + 1 ≡ suc n = omega arith in rw e

produce-Inv : (s : State) → Inv s → Inv (produce s)
unfolding produce
produce-Inv s v = record {
  in_order =
      sym (append_assoc s.printed s.buffer (s.next ∷ []))
      ∙ ap (λ xs. xs ++ s.next ∷ []) v.in_order
      ∙ sym (upto-suc s.next);
  announced = λ h. refl;
}

set_phase-Inv : (c : Bool) (p : Phase) (s : State) → Inv s → Inv (set_phase c p s)
set_phase-Inv true p s v = record { in_order = v.in_order; announced = v.announced }
set_phase-Inv false p s v = record { in_order = v.in_order; announced = v.announced }

consume-Inv : (s : State) → Inv s → Inv (consume s)
unfolding consume
consume-Inv s v = record {
  in_order = append-nil _ ∙ empty_out_lem s.printed s.buffer ∙ v.in_order;
  announced = λ h. absurd (h refl);
}

Step-Inv : {s t : State} → Step s t → Inv s → Inv t
Step-Inv {s} produces v = produce-Inv s v
Step-Inv {s} (wakes c p n) v = set_phase-Inv c woken s v
Step-Inv {s} (consumes c p) v = set_phase-Inv c waiting (consume s) (consume-Inv s v)

initial-Inv : Inv initial
unfolding initial
initial-Inv = record { in_order = refl; announced = λ h. absurd (h refl) }

-- In every order of the threads' steps: the numbers printed, followed by those in the buffer, are
-- those produced, each once and in order; and `notified` is set while the buffer holds a number.
pub thread_Reach-Inv : {s : State} → Reach initial s → Inv s
thread_Reach-Inv here = initial-Inv
thread_Reach-Inv (next_step r t) = Step-Inv t (thread_Reach-Inv r)

consume-printed :
    (c : Bool) (s : State)
    → Inv s
    → ((set_phase c waiting (consume s)).printed ≡ upto s.next)
      × ((set_phase c waiting (consume s)).buffer ≡ [])
unfolding consume
consume-printed true s v = (empty_out_lem s.printed s.buffer ∙ v.in_order, refl)
consume-printed false s v = (empty_out_lem s.printed s.buffer ∙ v.in_order, refl)

phase-set : (c : Bool) (s : State) → phase c (set_phase c woken s) ≡ woken
phase-set true s = refl
phase-set false s = refl

next-set : (c : Bool) (s : State) → (set_phase c woken s).next ≡ s.next
next-set true s = refl
next-set false s = refl

-- A consumer that is in either phase gets to where all is printed.
goes_on :
    (c : Bool) (s : State) (p : Phase)
    → phase c s ≡ p
    → Inv s
    → s.buffer ≢ []
    → (t : State) × Reach s t × (t.printed ≡ upto s.next) × (t.buffer ≡ [])
goes_on c s woken e v h =
    let (p, b) = consume-printed c s v in
    (set_phase c waiting (consume s), next_step here (consumes c e), p, b)
goes_on c s waiting e v h =
    let s' = set_phase c woken s in
    let (p, b) = consume-printed c s' (set_phase-Inv c woken s v) in
    (
      set_phase c waiting (consume s'),
      next_step (next_step here (wakes c e (v.announced h))) (consumes c (phase-set c s)),
      p ∙ ap upto (next-set c s),
      b,
    )

-- No number is stranded: while the buffer holds one, either consumer can go on by itself to where
-- everything produced so far is printed and the buffer is empty.
pub buffer_consumed :
    {s : State}
    → Reach initial s
    → s.buffer ≢ []
    → (c : Bool) → (t : State) × Reach s t × (t.printed ≡ upto s.next) × (t.buffer ≡ [])
buffer_consumed {s} r h c = goes_on c s (phase c s) refl (thread_Reach-Inv r) h
