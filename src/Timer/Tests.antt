-- ===== src/Timer/Tests.antt =====
-- The theorems on the timers of asio/timer at the counts that the programs use, or less.
use cpp_demo.Prelude.{refl, ◌≡◌, ◌+◌, [], ◌∷◌}
use cpp_demo.Timer.Two.{Runs-finished, numbers}
use cpp_demo.Timer.{Pair, new_pair, print1, print2, Runs, here, fires1, fires2}

abbrev after_one : Pair
after_one = print2 (print1 (new_pair 1 1))

after_one_reached : Runs (new_pair 1 1) 2 after_one
unfolding new_pair print1
after_one_reached = fires2 (fires1 here refl) refl

Runs-finished_example : (2 ≡ 1 + 1) × (numbers after_one.lines ≡ 1 ∷ [])
unfolding new_pair print1 print2
Runs-finished_example = Runs-finished 1 0 after_one_reached refl refl
