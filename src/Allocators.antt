-- ===== src/Allocators.antt =====
-- The class student of memory/custom_new_delete.cpp, which has an `operator new` of its own, and
-- MyAllocator of memory/custom_allocator.cpp. `malloc` and `free` are those of a heap `H`, with the
-- laws that `OperatorNew` states; a null pointer, which `malloc` gives when it fails, is left out.
pub mod Shared
mod Tests
use cpp_demo.Prelude.{
  ℕ, zero, suc, ◌*◌, ◌≡◌, Bool, List, [], ◌∷◌, Option, none, some, leb, if◌then◌else◌,
}
use cpp_demo.HandlerMemory.{OperatorNew}

-- The static `m`, beside the heap.
pub record Students (H : Type 0) : Type 0 where
  pub m : Option ℕ
  pub rest : H

module _ {H : Type 0} (o : OperatorNew H) where
  fresh_student : ℕ × H → ℕ × Students H
  fresh_student (a, h) = (a, record { m = some a; rest = h })

  new_if : ℕ → Students H → Option ℕ → ℕ × Students H
  unfolding fresh_student
  new_if size s none = fresh_student (o.operator_new size s.rest)
  new_if size s (some a) = (a, s)

  unfoldable pub student_new : ℕ → Students H → ℕ × Students H
  unfolding new_if
  student_new size s = new_if size s s.m

  -- `operator delete`, whose `free` is commented out.
  unfoldable pub student_delete : ℕ → Students H → Students H
  student_delete p s = s

  -- The loop of main: `n` students are made and deleted in turn. The result has their addresses.
  unfoldable pub make_and_delete : ℕ → ℕ → Students H → List ℕ × Students H
  unfolding student_new student_delete
  make_and_delete size zero s = ([], s)
  make_and_delete size (suc n) s =
      let (a, t) = student_new size s in
      let (others, end) = make_and_delete size n (student_delete a t) in (a ∷ others, end)

  -- `n` students that live together.
  unfoldable pub make_all : ℕ → ℕ → Students H → List ℕ × Students H
  unfolding student_new
  make_all size zero s = ([], s)
  make_all size (suc n) s =
      let (a, t) = student_new size s in let (others, end) = make_all size n t in (a ∷ others, end)

  -- MyAllocator<T>::allocate, and whether `size` objects of `object_size` bytes fit in the block.
  unfoldable pub my_allocate : ℕ → H → ℕ × H
  my_allocate size h = o.operator_new size h

  unfoldable pub my_deallocate : Option ℕ → ℕ → H → H
  my_deallocate none size h = h
  my_deallocate (some p) size h = o.operator_delete p h

-- The bytes that MyAllocator<T>::allocate asks for, for `size` objects.
unfoldable pub requested : ℕ → ℕ
requested size = size

unfoldable pub has_room : ℕ → ℕ → Bool
unfolding requested
has_room object_size size = leb (size * object_size) (requested size)
