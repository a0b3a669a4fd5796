-- ===== src/Inventory/Tests.antt =====
-- The theorem on abseil/abseil_sync.cpp after one producer and one consumer.
use cpp_demo.Prelude.{arith}
use cpp_demo.Inventory.{initial, produce, consume, Reach, here, next, produces, consumes}
use cpp_demo.Inventory.Bounds.{Inv, inventory_Reach-Inv}

one_round : Reach initial (consume (produce initial))
unfolding initial produce
one_round = next (next here (produces (omega arith))) (consumes (omega arith))

inventory_Reach-Inv_example : Inv (consume (produce initial))
inventory_Reach-Inv_example = inventory_Reach-Inv one_round
