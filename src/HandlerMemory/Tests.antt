-- ===== src/HandlerMemory/Tests.antt =====
-- The theorem on handler_memory at a concrete history.
use cpp_demo.Prelude.{ℕ, refl, List, []}
use cpp_demo.HandlerMemory.{storage, allocate}
use cpp_demo.HandlerMemory.Blocks.{
  Use, takes, returns, act, Inv, here, next, unused, block_Reach-Inv,
}
use cpp_demo.HandlerMemory.ListHeap.{list_new}

-- Two small blocks and the return of the first.
abbrev used_twice : Use (List ℕ)
used_twice =
    act list_new (act list_new (act list_new (unused list_new []) (takes 100)) (takes 100))
      (returns storage)

block_Reach-Inv_example : Inv list_new used_twice
unfolding act unused allocate
block_Reach-Inv_example =
    block_Reach-Inv list_new []
      (next (next (next here (takes 100) tt) (takes 100) tt) (returns storage) refl)
