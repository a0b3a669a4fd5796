-- ===== src/Timer/Two.antt =====
-- The histories of timer5 (asio/timer/timer5.cpp).
use cpp_demo.Prelude.{
  ℕ, suc, ◌+◌, ◌<◌, ◌≤◌, ◌≡◌, refl, sym, ap, ◌∙◌, Bool, true, false, List, [], ◌∷◌, ◌++◌,
  append-nil, arith, ltb, if◌then◌else◌,
}
use cpp_demo.Timer.{down, append_down, Pair, new_pair, print1, print2, Runs, here, fires1, fires2}

abbrev pub numbers : List (Bool × ℕ) → List ℕ
numbers [] = []
numbers ((b, n) ∷ ls) = n ∷ numbers ls

abbrev waits : Pair → ℕ
waits p = (if p.timer1.armed then 1 else 0) + (if p.timer2.armed then 1 else 0)

-- After `k` waits of a count `n`.
record PairInv (n k : ℕ) (p : Pair) : Type 0 where
  both : 0 < p.left → waits p ≡ 2
  spent : k + p.left + (if ltb 0 p.left then 1 else waits p) ≡ n + 1
  listed : numbers p.lines ++ down p.left ≡ down n

numbers_append :
    (ls : List (Bool × ℕ)) (b : Bool) (n : ℕ) → numbers (ls ++ (b, n) ∷ []) ≡ numbers ls ++ n ∷ []
numbers_append [] b n = refl
numbers_append ((c, m) ∷ ls) b n = ap (◌∷◌ m) (numbers_append ls b n)

print1-PairInv :
    (n k : ℕ) (p : Pair) → PairInv n k p → p.timer1.armed ≡ true → PairInv n (suc k) (print1 p)
unfolding print1
print1-PairInv n k p v a = record {
  both = ground (arith, v.both, v.spent);
  spent = ground (arith, v.both, v.spent);
  listed =
      ground
        (arith, v.listed, numbers_append p.lines true p.left, append_down (numbers p.lines) p.left);
}

print2-PairInv :
    (n k : ℕ) (p : Pair) → PairInv n k p → p.timer2.armed ≡ true → PairInv n (suc k) (print2 p)
unfolding print2
print2-PairInv n k p v a = record {
  both = ground (arith, v.both, v.spent);
  spent = ground (arith, v.both, v.spent);
  listed =
      ground (
        arith,
        v.listed,
        numbers_append p.lines false p.left,
        append_down (numbers p.lines) p.left,
      );
}

new_pair-PairInv : (i n : ℕ) → PairInv (suc n) 0 (new_pair i (suc n))
unfolding new_pair
new_pair-PairInv i n = record { both = λ h. refl; spent = ground arith; listed = refl }

Runs-PairInv : (i n : ℕ) {k : ℕ} {p : Pair} → Runs (new_pair i (suc n)) k p → PairInv (suc n) k p
Runs-PairInv i n here = new_pair-PairInv i n
Runs-PairInv i n (fires1 {n = k} {q = q} r a) = print1-PairInv (suc n) k q (Runs-PairInv i n r) a
Runs-PairInv i n (fires2 {n = k} {q = q} r a) = print2-PairInv (suc n) k q (Runs-PairInv i n r) a

-- With two timers, in whatever order they fire: the numbers printed so far, by either timer, and those
-- still to come count down to 1, none twice; and there is at most one more wait than numbers.
pub Runs-new_pair :
    (i n : ℕ) {k : ℕ} {p : Pair}
    → Runs (new_pair i (suc n)) k p
    → (numbers p.lines ++ down p.left ≡ down (suc n)) × (k ≤ suc n + 1)
Runs-new_pair i n {k} {p} r =
    let v = Runs-PairInv i n r in (v.listed, ground (arith, v.spent, v.both))

-- When neither timer has a wait pending, there has been exactly one more wait than numbers, and every
-- number has been printed.
pub Runs-finished :
    (i n : ℕ) {k : ℕ} {p : Pair}
    → Runs (new_pair i (suc n)) k p
    → p.timer1.armed ≡ false
    → p.timer2.armed ≡ false
    → (k ≡ suc n + 1) × (numbers p.lines ≡ down (suc n))
Runs-finished i n {k} {p} r a b =
    let v = Runs-PairInv i n r in
    let none_left : p.left ≡ 0 = ground (arith, v.both) in
    (
      ground (arith, v.spent),
      sym (append-nil (numbers p.lines))
          ∙ (ap (λ m. numbers p.lines ++ down m) (sym none_left) ∙ v.listed),
    )
