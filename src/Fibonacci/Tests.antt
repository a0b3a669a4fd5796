-- ===== src/Fibonacci/Tests.antt =====
-- Runs of misc/matrix_fast_power.cpp and misc/const_expr.cpp.
use cpp_demo.Prelude.{◌≡◌, if◌then◌else◌, leb}
use cpp_demo.Fibonacci.{ok, overflow, f4, fib, f4-fib}

f4-fib_example : f4 40 ≡ (if leb 40 32 then ok (fib 40) else overflow)
f4-fib_example = f4-fib 40
