-- ===== src/Allocators/Shared.antt =====
-- The one block of memory/custom_new_delete.cpp, and the blocks of memory/custom_allocator.cpp.
use cpp_demo.Prelude.{
  ◌+◌, ◌⊎◌, inl, inr, false, ℕ, zero, suc, ◌*◌, ◌≡◌, ◌≤◌, ◌<◌, refl, true, List, ◌∷◌, none, some,
  replicate, ap, arith, ◌↔◌, if◌then◌else◌, ◌==◌,
}
use cpp_demo.HandlerMemory.{OperatorNew}
use cpp_demo.Allocators.{
  Students, student_new, student_delete, make_and_delete, make_all, has_room, requested,
}

module _ {H : Type 0} (o : OperatorNew H) where
  make_all-made :
      (size n a : ℕ) (h : H)
      → make_all o size n (record { m = some a; rest = h })
        ≡ (replicate n a, record { m = some a; rest = h })
  unfolding make_all student_new
  make_all-made size zero a h = refl
  make_all-made size (suc n) a h =
      ap (λ (r : List ℕ × Students H). (a ∷ r.0, r.1)) (make_all-made size n a h)

  make_and_delete-made :
      (size n a : ℕ) (h : H)
      → make_and_delete o size n (record { m = some a; rest = h })
        ≡ (replicate n a, record { m = some a; rest = h })
  unfolding make_and_delete student_new student_delete
  make_and_delete-made size zero a h = refl
  make_and_delete-made size (suc n) a h =
      ap (λ (r : List ℕ × Students H). (a ∷ r.0, r.1)) (make_and_delete-made size n a h)

  -- From the start of the program: one block is taken from `malloc`, however many students are made
  -- and deleted in turn, and none is given back; and students that live together are all at its
  -- address.
  pub students_share :
      (size n : ℕ) (h : H)
      → let (a, g) = o.operator_new size h in
        let start : Students H = record { m = none; rest = h } in
        let end : Students H = record { m = some a; rest = g } in
        (make_and_delete o size (suc n) start ≡ (replicate (suc n) a, end))
        × (make_all o size (suc n) start ≡ (replicate (suc n) a, end))
        × ((b : ℕ) → o.live end.rest b ≡ (if b == a then true else o.live h b))
  unfolding make_and_delete make_all student_new student_delete
  students_share size n h =
      let (a, g) = o.operator_new size h in
      (
        ap (λ (r : List ℕ × Students H). (a ∷ r.0, r.1)) (make_and_delete-made size n a g),
        ap (λ (r : List ℕ × Students H). (a ∷ r.0, r.1)) (make_all-made size n a g),
        λ b. o.new_live size h b,
      )

has_room_cases :
    (object_size size : ℕ)
    → 0 < size
    → (has_room object_size size ≡ true) × (object_size ≤ 1)
      ⊎ ((has_room object_size size ≡ false) × (1 < object_size))
unfolding has_room requested
has_room_cases zero size h = inl (ground arith, omega arith)
has_room_cases (suc zero) size h = inl (ground arith, omega arith)
has_room_cases (suc (suc k)) size h =
    let times : size * suc (suc k) ≡ size * k + 2 * size = grind arith in
    let above : size < size * suc (suc k) = omega (arith, times) in
    inr (ground (arith, above), omega arith)

-- A block that MyAllocator takes for one or more objects has room for them exactly if an object has
-- at most one byte.
pub has_room_iff :
    (object_size size : ℕ) → 0 < size → (has_room object_size size ≡ true) ↔ (object_size ≤ 1)
has_room_iff object_size size h = elim (has_room_cases object_size size h) [
  | inl (room, small) ↦ (λ e. small, λ l. room)
  | inr (full, large) ↦ (λ e. cc, λ l. absurd (omega arith))
]
