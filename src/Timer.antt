-- ===== src/Timer.antt =====
-- asio/timer/timer4.cpp and asio/timer/timer5.cpp: a counter that timers count down, one timer or
-- two. A wait that is pending completes once; the strand lets one handler run at a time, in any
-- order. The time is in seconds since the start, and a timer's expiry is kept as the source moves it.
pub mod Single
pub mod Ticks
pub mod Two
mod Tests
use cpp_demo.Prelude.{
  ℕ, zero, suc, ◌+◌, ◌-◌, ◌*◌, ◌<◌, ◌≤◌, ◌≡◌, ◌≢◌, refl, sym, ap, subst, ◌∙◌, Bool, true, false,
  List, [], ◌∷◌, ◌++◌, append_assoc, append-nil, arith, ltb, ◌==◌, if◌then◌else◌,
}

-- A steady_timer: its expiry, and whether a wait on it is pending.
pub record Timer : Type 0 where
  pub expiry : ℕ
  pub armed : Bool

-- timer4's Counter, with the numbers that it printed.
pub record Counter : Type 0 where
  pub timer : Timer
  pub interval : ℕ
  pub count : ℕ
  pub printed : List ℕ

-- The constructor; its assertion `count > 0` is a hypothesis below.
unfoldable pub new_counter : ℕ → ℕ → Counter
new_counter interval count = record {
  timer = record { expiry = interval; armed = true };
  interval = interval;
  count = count;
  printed = [];
}

-- `expires_at(expiry() + interval)` and `async_wait`, or neither: the wait that ran is over.
again : Bool → ℕ → Timer → Timer
again more interval t =
    if more
    then record { expiry = t.expiry + interval; armed = true }
    else record t { armed = false }

-- print; where the count is 0 it would go below, which no pending wait does.
unfoldable pub print : Counter → Counter
unfolding again
print c = record c {
  printed = c.printed ++ c.count ∷ [];
  count = c.count - 1;
  timer = again (ltb 0 (c.count - 1)) c.interval c.timer;
}

-- `ctx.run()`, on fuel: it returns when no wait is pending.
unfoldable pub run : ℕ → Counter → Counter
run zero c = c
run (suc f) c = let rest = run f (print c) in if c.timer.armed then rest else c

-- n, n - 1, …, 1.
abbrev pub down : ℕ → List ℕ
down zero = []
down (suc n) = suc n ∷ down n

down_head : (n : ℕ) → 0 < n → n ∷ down (n - 1) ≡ down n
down_head zero h = absurd (omega arith)
down_head (suc n) h = let e : suc n - 1 ≡ n = omega arith in ap (λ m. suc n ∷ down m) e

append_down : (xs : List ℕ) (n : ℕ) → 0 < n → (xs ++ n ∷ []) ++ down (n - 1) ≡ xs ++ down n
append_down xs n h = append_assoc xs (n ∷ []) (down (n - 1)) ∙ ap (λ ys. xs ++ ys) (down_head n h)

-- timer5's Counter: two timers and one count. Each number is printed with its timer, true for the
-- first.
pub record Pair : Type 0 where
  pub timer1 : Timer
  pub timer2 : Timer
  pub shared_interval : ℕ
  pub left : ℕ
  pub lines : List (Bool × ℕ)

unfoldable pub new_pair : ℕ → ℕ → Pair
new_pair interval count = record {
  timer1 = record { expiry = interval; armed = true };
  timer2 = record { expiry = interval; armed = true };
  shared_interval = interval;
  left = count;
  lines = [];
}

-- The wait that ran is over; at 0 nothing else is done.
unfoldable pub print1 : Pair → Pair
unfolding again
print1 p =
    if ltb 0 p.left
    then record p {
      lines = p.lines ++ (true, p.left) ∷ [];
      left = p.left - 1;
      timer1 = again (ltb 0 (p.left - 1)) p.shared_interval p.timer1;
    }
    else record p { timer1 = again false p.shared_interval p.timer1 }

unfoldable pub print2 : Pair → Pair
unfolding again
print2 p =
    if ltb 0 p.left
    then record p {
      lines = p.lines ++ (false, p.left) ∷ [];
      left = p.left - 1;
      timer2 = again (ltb 0 (p.left - 1)) p.shared_interval p.timer2;
    }
    else record p { timer2 = again false p.shared_interval p.timer2 }

-- Histories, with the number of waits that completed.
pub data Runs (p : Pair) : ℕ → Pair → Type 0 where
  here : Runs p 0 p
  fires1 : {n : ℕ} {q : Pair} → Runs p n q → q.timer1.armed ≡ true → Runs p (suc n) (print1 q)
  fires2 : {n : ℕ} {q : Pair} → Runs p n q → q.timer2.armed ≡ true → Runs p (suc n) (print2 q)
