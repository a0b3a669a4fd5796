-- ===== src/IntSequence.antt =====
-- The templates of mpl/make_int_seq.cpp. A parameter pack is a list of numbers; an object of
-- a derived class holds an object of its base class; the specialisation for zero ends the chain.
pub mod Packs
mod Tests
use cpp_demo.Prelude.{ℕ, zero, suc, ◌∷◌, ◌≡◌, refl, List, [], length, replicate, length-replicate}

-- int_sequence<Ns...>: an array of `sizeof...(Ns)` numbers.
pub record IntSequence (ns : List ℕ) : Type 0 where
  pub items : List ℕ
  pub sized : length items ≡ length ns

-- `data{{Ns...}}`
unfoldable pub int_sequence : (ns : List ℕ) → IntSequence ns
int_sequence ns = record { items = ns; sized = refl }

-- `make()`: a new array, whose numbers are zero.
unfoldable pub make : (ns : List ℕ) → List ℕ
make ns = replicate (length ns) 0

-- make_int_sequence<N, Ns...>: an object of the class is one of its base class, and has no member
-- of its own. The base class of make_int_sequence<0, Ns...> is int_sequence<Ns...>.
pub data MakeIntSequence : ℕ → List ℕ → Type 0 where
  last_base : {ns : List ℕ} → IntSequence ns → MakeIntSequence zero ns
  derived : {n : ℕ} {ns : List ℕ} → MakeIntSequence n (n ∷ ns) → MakeIntSequence (suc n) ns

-- `make_int_sequence<N, Ns...>()`: each constructor calls that of its base class.
unfoldable pub make_int_sequence : (n : ℕ) (ns : List ℕ) → MakeIntSequence n ns
make_int_sequence zero ns = last_base (int_sequence ns)
make_int_sequence (suc n) ns = derived (make_int_sequence n (n ∷ ns))

-- The parameter pack of the int_sequence that an object derives from, and the member `data`, which
-- it inherits.
unfoldable pub pack_of : {n : ℕ} {ns : List ℕ} → MakeIntSequence n ns → List ℕ
pack_of (last_base {ns} s) = ns
pack_of (derived x) = pack_of x

unfoldable pub items_of : {n : ℕ} {ns : List ℕ} → MakeIntSequence n ns → List ℕ
items_of (last_base s) = s.items
items_of (derived x) = items_of x

-- What main prints, a space behind each number.
unfoldable pub main : List ℕ
unfolding make_int_sequence int_sequence items_of
main = items_of (make_int_sequence 3 [])
