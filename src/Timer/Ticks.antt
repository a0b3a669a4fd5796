-- ===== src/Timer/Ticks.antt =====
-- asio/timer/timer3.cpp: print, which counts up to five, and main. The waits end when the timer
-- expires; the time is in seconds since the start.
use cpp_demo.Prelude.{
  ℕ, zero, suc, ◌+◌, ◌≡◌, refl, true, false, List, [], ◌∷◌, ◌++◌, arith, ltb, ◌∙◌, if◌then◌else◌,
}
use cpp_demo.Timer.{Timer, again}

-- The variables `timer` and `count` of main, and what was printed, each number with its time.
pub record Ticks : Type 0 where
  pub ticker : Timer
  pub ticks : ℕ
  pub shown : List (ℕ × ℕ)

unfoldable pub new_ticks : ℕ → Ticks
new_ticks start = record {
  ticker = record { expiry = start + 1; armed = true };
  ticks = 0;
  shown = [];
}

unfoldable pub tick : Ticks → Ticks
unfolding again
tick t =
    let n = t.ticks + 1 in
    record {
      ticker = again (ltb n 5) 1 t.ticker;
      ticks = n;
      shown = t.shown ++ (t.ticker.expiry, n) ∷ [];
    }

-- `ctx.run()`, on fuel: it returns when no wait is pending.
unfoldable pub run_ticks : ℕ → Ticks → Ticks
run_ticks zero t = t
run_ticks (suc f) t = let rest = run_ticks f (tick t) in if t.ticker.armed then rest else t

stops : (f : ℕ) (t : Ticks) → t.ticker.armed ≡ false → run_ticks f t ≡ t
unfolding run_ticks
stops zero t e = refl
stops (suc f) t e = ground arith

-- Started at any time, on fuel for five waits or more: main returns from run, with a count of five,
-- and the numbers from one to five were printed, one second apart.
pub run_ticks-new_ticks :
    (start f : ℕ)
    → run_ticks (suc (suc (suc (suc (suc f))))) (new_ticks start) ≡ record {
      ticker = record { expiry = start + 5; armed = false };
      ticks = 5;
      shown =
          (start + 1, 1) ∷ (start + 2, 2) ∷ (start + 3, 3) ∷ (start + 4, 4) ∷ (start + 5, 5) ∷ [];
    }
unfolding run_ticks new_ticks tick
run_ticks-new_ticks start f =
    let second : start + 1 + 1 ≡ start + 2 = omega arith in
    let third : start + 2 + 1 ≡ start + 3 = omega arith in
    let fourth : start + 3 + 1 ≡ start + 4 = omega arith in
    let fifth : start + 4 + 1 ≡ start + 5 = omega arith in
    stops f (tick (tick (tick (tick (tick (new_ticks start)))))) refl
    ∙ rw (second, third, fourth, fifth) refl
