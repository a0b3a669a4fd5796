-- ===== src/Echo/Handlers.antt =====
-- The handlers of the class connection in asio/allocation/allocation.cpp and
-- asio/buffer/reference_counted_buffer.cpp: each operation on the socket keeps its handler, a
-- custom_alloc_handler, in a block of the connection's `memory_`, and the handler keeps `self`.
use cpp_demo.Prelude.{ℕ, ◌+◌, ◌-◌, Bool, Text, Option, none, some}
use cpp_demo.HandlerMemory.{
  OperatorNew, Pointer, Memory, handler_memory, allocate_objects, deallocate,
}
use cpp_demo.Echo.{Connection, Pending, writing, reading, closed, on_written, start, on_read}

-- A connection object: what `Connection` has of it, `memory_`, the block of the pending operation's
-- handler, and the number of `shared_ptr`s to the object, which is destroyed when it reaches zero.
pub record Object (H : Type 0) : Type 0 where
  pub connection : Connection
  pub memory : Memory H
  pub handler : Option Pointer
  pub owners : ℕ

-- What asio reports: async_write has sent a part and goes on, or has ended; a read has ended, with
-- its bytes and the daytime text of the answer.
pub data Completion : Type 0 where
  wrote_part : Completion
  written : (failed : Bool) → Completion
  received_some : (failed : Bool) → (bytes daytime : Text) → Completion

-- The size of the object in which asio keeps a pending operation and its handler.
pub record Sizes : Type 0 where
  pub write_size : ℕ
  pub read_size : ℕ

-- The last step of a handler: it is destroyed, and its copy of `self` with it.
unfoldable pub drop_self : {H : Type 0} → Object H → Object H
drop_self x = record x { owners = x.owners - 1 }

module _ {H : Type 0} (o : OperatorNew H) (z : Sizes) where
  keep : Object H → Pointer × Memory H → Object H
  keep x (p, m) = record x { memory = m; handler = some p; owners = x.owners + 1 }

  -- make_custom_alloc_handler and the call of asio that takes the handler: one object is allocated
  -- by its `get_allocator()`, and holds another copy of `self`.
  unfoldable pub initiate : ℕ → Object H → Object H
  unfolding keep
  initiate size x = keep x (allocate_objects o size 1 x.memory)

  -- The operation that the object's code has begun, if it has.
  unfoldable pub initiate_pending : Object H → Pending → Object H
  initiate_pending x (writing t) = initiate z.write_size x
  initiate_pending x reading = initiate z.read_size x
  initiate_pending x closed = x

  free_block : Object H → Option Pointer → Object H
  free_block x none = x
  free_block x (some p) = record x { memory = deallocate o p x.memory; handler = none }

  -- asio gives the block back before it calls the handler, which it has moved out of it.
  unfoldable pub free_handler : Object H → Object H
  unfolding free_block
  free_handler x = free_block x x.handler

  -- The call of the handler, which leaves the connection as `c`, or has no defined result.
  unfoldable pub upcall : Object H → Option Connection → Option (Object H)
  upcall x none = none
  upcall x (some c) = some (drop_self (initiate_pending (record x { connection = c }) c.pending))

  module _ (do_write : ℕ → Text → Connection → Option Connection) where
    unfoldable pub complete : Completion → Object H → Option (Object H)
    complete wrote_part x =
        let y = free_handler x in some (drop_self (initiate_pending y y.connection.pending))
    complete (written failed) x =
        let y = free_handler x in upcall y (some (on_written failed y.connection))
    complete (received_some failed bytes daytime) x =
        let y = free_handler x in upcall y (on_read do_write failed bytes daytime y.connection)

    -- `std::make_shared<connection>(std::move(socket))->start()`: the temporary pointer is dropped.
    unfoldable pub start_object : H → Text → Text → Option (Object H)
    start_object h buffer daytime =
        let c : Connection = record { buffer = buffer; pending = closed } in
        upcall (record { connection = c; memory = handler_memory h; handler = none; owners = 1 })
          (start do_write daytime c)
