-- ===== src/Inventory.antt =====
-- abseil/abseil_sync.cpp, the test lock_unlock: ten producers and three consumers of one number, under
-- an absl::Mutex. LockWhenWithTimeout takes the mutex when its condition holds, or at the timeout, and
-- says whether it holds then. A step is what a thread does with the mutex held, its test of `stop`, or
-- the test's own end. Output is left out.
mod Bounds
mod Tests
use cpp_demo.Prelude.{ℕ, ◌+◌, ◌-◌, ◌≡◌, ◌<◌, ◌≤◌, Bool, true, false, ltb, ◌==◌, if◌then◌else◌}

-- `inventory`, `stop`, the static `last` of print_inventory, the expectations that failed, and the
-- threads of each kind that are in their loops.
pub record State : Type 0 where
  pub inventory : ℕ
  pub stop : Bool
  pub last : ℕ
  pub failures : ℕ
  pub producers : ℕ
  pub consumers : ℕ

unfoldable pub initial : State
initial = record {
  inventory = 0;
  stop = false;
  last = 0;
  failures = 0;
  producers = 10;
  consumers = 3;
}

-- `abs(a - b)`
abbrev pub distance : ℕ → ℕ → ℕ
distance a b = a - b + (b - a)

-- print_inventory
unfoldable pub print_inventory : State → State
print_inventory s = record s {
  failures = s.failures + (if distance s.last s.inventory == 1 then 0 else 1);
  last = s.inventory;
}

-- The two conditions.
abbrev pub has_room : State → Bool
has_room s = ltb s.inventory 30

abbrev pub has_some : State → Bool
has_some s = ltb 0 s.inventory

-- The bodies of the two loops, with the mutex; where the condition does not hold at the timeout, the
-- mutex is just given back.
unfoldable pub produce : State → State
unfolding print_inventory
produce s = if has_room s then print_inventory (record s { inventory = s.inventory + 1 }) else s

unfoldable pub consume : State → State
unfolding print_inventory
consume s = if has_some s then print_inventory (record s { inventory = s.inventory - 1 }) else s

-- A thread that is in a pass of its loop may go on with it after `stop` is set.
pub data Step (s : State) : State → Type 0 where
  produces : 0 < s.producers → Step s (produce s)
  consumes : 0 < s.consumers → Step s (consume s)
  stops : Step s (record s { stop = true })
  producer_ends :
      s.stop ≡ true → 0 < s.producers → Step s (record s { producers = s.producers - 1 })
  consumer_ends :
      s.stop ≡ true → 0 < s.consumers → Step s (record s { consumers = s.consumers - 1 })

pub data Reach (s : State) : State → Type 0 where
  here : Reach s s
  next : {t u : State} → Reach s t → Step t u → Reach s u
