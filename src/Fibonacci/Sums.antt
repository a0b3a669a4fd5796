-- ===== src/Fibonacci/Sums.antt =====
-- main of misc/const_expr.cpp: the sums of its three loops, which it does not print. An `uint64_t`
-- has 64 bits; the times are left out.
use cpp_demo.Prelude.{
  ℕ, zero, suc, ◌+◌, ◌*◌, ◌%◌, ◌^◌, ◌≡◌, ◌<◌, refl, ap, Option, some, arith, ◌>>=◌, ◌∙◌,
}
use cpp_demo.Fibonacci.{f1, fib, f1-fib}

-- A loop of `k` turns that adds what a call gives to `v`.
unfoldable pub add_calls : ℕ → Option ℕ → ℕ → Option ℕ
add_calls zero call v = some v
add_calls (suc k) call v = do w ← call; add_calls k call ((v + w) % 2 ^ 64)

-- The sums with f1, with f2, which is f1 in the same words, and with the constant f2(n).
unfoldable pub main : ℕ → ℕ → Option (ℕ × ℕ × ℕ)
unfolding add_calls
main turns n = do
  first ← add_calls turns (f1 n) 0
  second ← add_calls turns (f1 n) 0
  vv ← f1 n
  third ← add_calls turns (some vv) 0
  some (first, second, third)

add_calls-some : (k w v : ℕ) → v < 2 ^ 64 → add_calls k (some w) v ≡ some ((v + k * w) % 2 ^ 64)
unfolding add_calls
add_calls-some zero w v h =
    let none_added : zero * w ≡ 0 = omega arith in rw none_added (ap some (omega arith))
add_calls-some (suc k) w v h =
    let times : suc k * w ≡ k * w + w = grind arith in
    let same : ((v + w) % 2 ^ 64 + k * w) % 2 ^ 64 ≡ (v + suc k * w) % 2 ^ 64 =
      omega (arith, times) in
    add_calls-some k w ((v + w) % 2 ^ 64) (omega arith) ∙ ap some same

-- For a positive argument and any number of turns the three sums are the same: the Fibonacci number,
-- in 64 bits, as often as there are turns, in 64 bits.
pub main_sums :
    (turns n : ℕ)
    → let sum = turns * (fib (suc n) % 2 ^ 64) % 2 ^ 64 in main turns (suc n) ≡ some (sum, sum, sum)
unfolding main
main_sums turns n =
    let w = fib (suc n) % 2 ^ 64 in
    let one : add_calls turns (some w) 0 ≡ some (turns * w % 2 ^ 64) =
      add_calls-some turns w 0 (omega arith) ∙ ap some (omega arith) in
    rw (f1-fib n, one) refl
