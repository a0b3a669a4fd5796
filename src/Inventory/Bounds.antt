-- ===== src/Inventory/Bounds.antt =====
-- The bounds and the expectation of abseil/abseil_sync.cpp.
use cpp_demo.Prelude.{◌≡◌, ◌≤◌, refl, arith}
use cpp_demo.Inventory.{
  State, initial, print_inventory, produce, consume, Step, produces, consumes, stops, producer_ends,
  consumer_ends, Reach, here, next,
}

pub record Inv (s : State) : Type 0 where
  pub at_most : s.inventory ≤ 30
  pub printed : s.last ≡ s.inventory
  pub as_expected : s.failures ≡ 0

Step-Inv : {s t : State} → Step s t → Inv s → Inv t
unfolding produce consume print_inventory
Step-Inv {s} (produces h) v = record {
  at_most = ground (arith, v.at_most);
  printed = ground (arith, v.printed);
  as_expected = ground (arith, v.printed, v.as_expected);
}
Step-Inv {s} (consumes h) v = record {
  at_most = ground (arith, v.at_most);
  printed = ground (arith, v.printed);
  as_expected = ground (arith, v.printed, v.as_expected);
}
Step-Inv {s} stops v = record {
  at_most = v.at_most;
  printed = v.printed;
  as_expected = v.as_expected;
}
Step-Inv {s} (producer_ends h k) v = record {
  at_most = v.at_most;
  printed = v.printed;
  as_expected = v.as_expected;
}
Step-Inv {s} (consumer_ends h k) v = record {
  at_most = v.at_most;
  printed = v.printed;
  as_expected = v.as_expected;
}

initial-Inv : Inv initial
unfolding initial
initial-Inv = record { at_most = omega arith; printed = refl; as_expected = refl }

-- In every order of the threads' steps the inventory stays between 0 and 30, the last number printed
-- is the inventory, and the expectation that it changes by one has never failed.
pub inventory_Reach-Inv : {s : State} → Reach initial s → Inv s
inventory_Reach-Inv here = initial-Inv
inventory_Reach-Inv (next r t) = Step-Inv t (inventory_Reach-Inv r)
