-- ===== src/Timer/Single.antt =====
-- The run of timer4 (asio/timer/timer4.cpp).
use cpp_demo.Prelude.{
  ℕ, zero, suc, ◌+◌, ◌*◌, ◌<◌, ◌≡◌, refl, sym, ap, subst, ◌∙◌, true, false, ◌++◌, append-nil, arith,
  ltb,
}
use cpp_demo.Timer.{Counter, new_counter, print, run, down, append_down}

-- After `k` waits.
record CounterInv (interval n k : ℕ) (c : Counter) : Type 0 where
  spent : k + c.count ≡ n
  pending : c.timer.armed ≡ ltb 0 c.count
  listed : c.printed ++ down c.count ≡ down n
  steady : c.interval ≡ interval
  timed : 0 < c.count → c.timer.expiry ≡ interval * (k + 1)

mul_step : (i k : ℕ) → i * (suc k + 1) ≡ i * (k + 1) + i
mul_step i k = omega arith

print-CounterInv :
    (i n k : ℕ) (c : Counter)
    → CounterInv i n k c
    → c.timer.armed ≡ true
    → CounterInv i n (suc k) (print c)
unfolding print
print-CounterInv i n k c v a =
    let more : 0 < c.count = ground (arith, v.pending) in
    record {
      spent = omega (arith, v.spent);
      pending = ground arith;
      listed = append_down c.printed c.count more ∙ v.listed;
      steady = v.steady;
      timed = λ h. ground (arith, v.timed more, v.steady, mul_step i k);
    }

new_counter-CounterInv : (i n : ℕ) → 0 < n → CounterInv i n 0 (new_counter i n)
unfolding new_counter
new_counter-CounterInv i n h = record {
  spent = omega arith;
  pending = ground arith;
  listed = refl;
  steady = refl;
  timed = λ p. omega arith;
}

run-CounterInv :
    (i n m k : ℕ) (c : Counter) → CounterInv i n k c → k + m ≡ n → CounterInv i n n (run m c)
unfolding run print
run-CounterInv i n zero k c v e =
    let same : k ≡ n = omega (arith, e) in subst (λ j. CounterInv i n j c) same v
run-CounterInv i n (suc m) k c v e =
    let armed : c.timer.armed ≡ true = ground (arith, v.pending, v.spent) in
    rw armed
      (run-CounterInv i n m (suc k) (print c) (print-CounterInv i n k c v armed) (omega (arith, e)))

-- With one timer: after as many waits as the count, each number has been printed, from the count down to
-- 1, and no wait is pending.
pub run-new_counter :
    (i n : ℕ)
    → let c = run (suc n) (new_counter i (suc n)) in
      (c.printed ≡ down (suc n)) × (c.timer.armed ≡ false) × (c.count ≡ 0)
run-new_counter i n =
    let c = run (suc n) (new_counter i (suc n)) in
    let v =
      run-CounterInv i (suc n) (suc n) 0 (new_counter i (suc n))
        (new_counter-CounterInv i (suc n) (omega arith)) (omega arith) in
    let none_left : c.count ≡ 0 = omega (arith, v.spent) in
    (
      sym (append-nil c.printed) ∙ (ap (λ k. c.printed ++ down k) (sym none_left) ∙ v.listed),
      v.pending ∙ ap (ltb 0) none_left,
      none_left,
    )
