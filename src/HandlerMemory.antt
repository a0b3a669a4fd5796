-- ===== src/HandlerMemory.antt =====
-- The class handler_memory and its allocator, which asio/allocation/allocation.cpp and
-- asio/buffer/reference_counted_buffer.cpp hold in the same words. Output is left out.
pub mod Blocks
pub mod ListHeap
mod Tests
use cpp_demo.Prelude.{ℕ, ◌*◌, ◌%◌, ◌^◌, ◌≡◌, Bool, true, false, ◌&&◌, not, ltb, ◌==◌, if◌then◌else◌}

-- The global `operator new` and `operator delete`, on a heap `H`: a new block is at an address that
-- no live block has, and is live until it is deleted.
pub record OperatorNew (H : Type 0) : Type 0 where
  pub operator_new : ℕ → H → ℕ × H
  pub operator_delete : ℕ → H → H
  pub live : H → ℕ → Bool
  pub new_fresh : (size : ℕ) (h : H) → live h (operator_new size h).0 ≡ false
  pub new_live :
      (size : ℕ) (h : H) (a : ℕ)
      → live (operator_new size h).1 a ≡ (if a == (operator_new size h).0 then true else live h a)
  pub delete_live :
      (p : ℕ) (h : H) (a : ℕ) → live (operator_delete p h) a ≡ (if a == p then false else live h a)

-- `&storage_`, or an address of the heap.
pub data Pointer : Type 0 where
  storage : Pointer
  heap : ℕ → Pointer

-- sizeof(storage_)
abbrev pub storage_size : ℕ
storage_size = 1024

-- The field `in_use_`, beside the heap that the whole program shares.
pub record Memory (H : Type 0) : Type 0 where
  pub in_use : Bool
  pub rest : H

module _ {H : Type 0} where
  unfoldable pub handler_memory : H → Memory H
  handler_memory h = record { in_use = false; rest = h }

module _ {H : Type 0} (o : OperatorNew H) where
  from_heap : Memory H → ℕ × H → Pointer × Memory H
  from_heap m (a, h) = (heap a, record m { rest = h })

  unfoldable pub allocate : ℕ → Memory H → Pointer × Memory H
  unfolding from_heap
  allocate size m =
      if not m.in_use && ltb size storage_size
      then (storage, record m { in_use = true })
      else from_heap m (o.operator_new size m.rest)

  unfoldable pub deallocate : Pointer → Memory H → Memory H
  deallocate storage m = record m { in_use = false }
  deallocate (heap a) m = record m { rest = o.operator_delete a m.rest }

  -- handler_allocator<T>: `n` objects of `size` bytes; the product is a `size_t`.
  unfoldable pub allocate_objects : ℕ → ℕ → Memory H → Pointer × Memory H
  allocate_objects size n m = allocate (size * n % 2 ^ 64) m
