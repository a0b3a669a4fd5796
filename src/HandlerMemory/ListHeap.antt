-- ===== src/HandlerMemory/ListHeap.antt =====
-- A heap for the tests: the list of its live addresses.
use cpp_demo.Prelude.{
  ℕ, ◌+◌, ◌<◌, ◌≡◌, refl, Bool, true, false, List, [], ◌∷◌, arith, ltb, ◌==◌, if◌then◌else◌,
}
use cpp_demo.HandlerMemory.{OperatorNew}

abbrev pub member : List ℕ → ℕ → Bool
member [] a = false
member (b ∷ bs) a = if a == b then true else member bs a

abbrev pub top : List ℕ → ℕ
top [] = 0
top (b ∷ bs) = let m = top bs in if ltb b m then m else b + 1

abbrev pub without : ℕ → List ℕ → List ℕ
without a [] = []
without a (b ∷ bs) = if b == a then without a bs else b ∷ without a bs

member-lt-top : (bs : List ℕ) (a : ℕ) → member bs a ≡ true → a < top bs
member-lt-top [] a h = cc
member-lt-top (b ∷ bs) a h = ground (arith, member-lt-top bs a)

pub top_fresh : (bs : List ℕ) → member bs (top bs) ≡ false
top_fresh bs = ground (arith, member-lt-top bs (top bs))

pub member-without :
    (p : ℕ) (bs : List ℕ) (a : ℕ)
    → member (without p bs) a ≡ (if a == p then false else member bs a)
member-without p [] a = ground arith
member-without p (b ∷ bs) a = ground (arith, member-without p bs a)

abbrev pub list_new : OperatorNew (List ℕ)
list_new = record {
  operator_new = λ size bs. (top bs, top bs ∷ bs);
  operator_delete = without;
  live = member;
  new_fresh = λ size bs. top_fresh bs;
  new_live = λ size bs a. refl;
  delete_live = member-without;
}
