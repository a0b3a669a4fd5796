-- ===== src/IntSequence/Packs.antt =====
-- What make_int_sequence<N> derives from, and what its object holds (mpl/make_int_seq.cpp).
use cpp_demo.Prelude.{
  ℕ, zero, suc, ◌+◌, ◌∷◌, ◌++◌, ◌≡◌, refl, ap, sym, ◌∙◌, List, [], append-nil, arith, length,
}
use cpp_demo.IntSequence.{
  int_sequence, MakeIntSequence, last_base, derived, make_int_sequence, pack_of, items_of,
}

-- The `n` numbers from `a` on.
abbrev pub range : ℕ → ℕ → List ℕ
range a zero = []
range a (suc n) = a ∷ range (a + 1) n

range-suc : (n a : ℕ) (ns : List ℕ) → range a (suc n) ++ ns ≡ range a n ++ ((a + n) ∷ ns)
range-suc zero a ns = ap (λ k. k ∷ ns) (omega arith)
range-suc (suc n) a ns =
    ap (λ l. a ∷ l) (range-suc n (a + 1) ns ∙ ap (λ k. range (a + 1) n ++ (k ∷ ns)) (omega arith))

pack_lem :
    (n : ℕ) (ns : List ℕ) (x : MakeIntSequence n ns)
    → (pack_of x ≡ range 0 n ++ ns) × (length (items_of x) ≡ length (range 0 n ++ ns))
unfolding pack_of items_of
pack_lem zero ns (last_base s) = (refl, s.sized)
pack_lem (suc n) ns (derived x) =
    let here : 0 + n ≡ n = omega arith in
    let step = range-suc n 0 ns ∙ ap (λ k. range 0 n ++ (k ∷ ns)) here in
    let (p, l) = pack_lem n (n ∷ ns) x in (p ∙ sym step, l ∙ ap length (sym step))

items_lem : (n : ℕ) (ns : List ℕ) → items_of (make_int_sequence n ns) ≡ range 0 n ++ ns
unfolding items_of make_int_sequence int_sequence
items_lem zero ns = refl
items_lem (suc n) ns =
    let here : 0 + n ≡ n = omega arith in
    items_lem n (n ∷ ns) ∙ sym (range-suc n 0 ns ∙ ap (λ k. range 0 n ++ (k ∷ ns)) here)

length-range : (n a : ℕ) → length (range a n) ≡ n
length-range zero a = refl
length-range (suc n) a = ap suc (length-range n (a + 1))

-- Every object of make_int_sequence<n> is one of int_sequence for the pack of the numbers from 0 below
-- `n`, in order, and its array has `n` elements; in the object that the constructor makes they are
-- these numbers.
pub make_int_sequence-range :
    (n : ℕ) (x : MakeIntSequence n [])
    → (pack_of x ≡ range 0 n)
      × (length (items_of x) ≡ n)
      × (items_of (make_int_sequence n []) ≡ range 0 n)
make_int_sequence-range n x =
    let (p, l) = pack_lem n [] x in
    let plain = append-nil (range 0 n) in
    (p ∙ plain, l ∙ ap length plain ∙ length-range n 0, items_lem n [] ∙ plain)
