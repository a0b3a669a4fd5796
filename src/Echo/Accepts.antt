-- ===== src/Echo/Accepts.antt =====
-- The accept loop of asio/allocation/allocation.cpp and asio/buffer/reference_counted_buffer.cpp.
use cpp_demo.Prelude.{
  ℕ, ◌+◌, ◌≡◌, ◌≤◌, refl, Bool, true, false, List, [], ◌∷◌, ◌++◌, Text, length, drop, Option, none,
  some, All, arith, take-append, if◌then◌else◌,
}
use cpp_demo.Echo.{
  Connection, writing, data_size, response, do_write_in_place, start, Server, on_accept, closed,
}

-- One completion of an accept: whether it failed, what the new `data_` holds, and the daytime text.
abbrev pub Accept : Type 0
Accept = Bool × Text × Text

module _ (do_write : ℕ → Text → Connection → Option Connection) where
  unfoldable pub accept_all : Server → List Accept → Option Server
  accept_all s [] = some s
  accept_all s ((failed, buffer, daytime) ∷ es) =
      elim (on_accept do_write failed buffer daytime s) [ none ↦ none | some t ↦ accept_all t es ]

abbrev pub succeeded : List Accept → ℕ
succeeded [] = 0
succeeded ((failed, buffer, daytime) ∷ es) = if failed then succeeded es else succeeded es + 1

-- A greeting fits in `data_`, as it does for the 25 bytes that `ctime` gives.
abbrev pub Greets : Accept → Type 0
Greets (failed, buffer, daytime) = (length buffer ≡ data_size) × (length daytime + 8 ≤ data_size)

abbrev greeted : Text → Text → Connection
greeted buffer daytime =
    let text = response buffer 0 daytime in
    record { buffer = text ++ drop (length text) buffer; pending = writing text }

start-in_place :
    (buffer daytime : Text)
    → length buffer ≡ data_size
    → length daytime + 8 ≤ data_size
    → start do_write_in_place daytime (record { buffer = buffer; pending = closed })
      ≡ some (greeted buffer daytime)
unfolding start do_write_in_place
start-in_place buffer daytime e h =
    let text = response buffer 0 daytime in
    ground (arith, take-append text (drop (length text) buffer))

on_accept-failed :
    (buffer daytime : Text) (s : Server)
    → on_accept do_write_in_place true buffer daytime s ≡ some (record s { accepting = true })
unfolding on_accept
on_accept-failed buffer daytime s = refl

on_accept-succeeded :
    (buffer daytime : Text) (s : Server)
    → length buffer ≡ data_size
    → length daytime + 8 ≤ data_size
    → on_accept do_write_in_place false buffer daytime s
      ≡ some (record { connections = greeted buffer daytime ∷ s.connections; accepting = true })
unfolding on_accept
on_accept-succeeded buffer daytime s e h = ground (arith, start-in_place buffer daytime e h)

-- The server that writes in place: whatever mix of accepts succeeds and fails, where each greeting
-- fits, every accept is followed by the next one, and each success adds one connection.
pub accept_all-in_place :
    (es : List Accept) (s : Server)
    → s.accepting ≡ true
    → All Greets es
    → (t : Server) × (accept_all do_write_in_place s es ≡ some t)
      × (t.accepting ≡ true)
      × (length t.connections ≡ length s.connections + succeeded es)
unfolding accept_all
accept_all-in_place [] s a h = (s, refl, a, omega arith)
accept_all-in_place ((true, buffer, daytime) ∷ es) s a h =
    let (t, e, b, n) = accept_all-in_place es (record s { accepting = true }) refl h.1 in
    (t, rw (on_accept-failed buffer daytime s, accept_all) e, b, n)
accept_all-in_place ((false, buffer, daytime) ∷ es) s a h =
    let next : Server = record {
      connections = greeted buffer daytime ∷ s.connections;
      accepting = true;
    } in
    let (t, e, b, n) = accept_all-in_place es next refl h.1 in
    let first = on_accept-succeeded buffer daytime s h.0.0 h.0.1 in
    (t, rw (first, accept_all) e, b, omega (arith, n))
