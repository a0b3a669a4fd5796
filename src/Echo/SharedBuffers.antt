-- ===== src/Echo/SharedBuffers.antt =====
-- The class shared_const_buffer of asio/buffer/reference_counted_buffer.cpp: the text of a write is
-- in a vector that the copies of the buffer share, and that goes with the last of them.
use cpp_demo.Prelude.{ℕ, ◌+◌, ◌-◌, List, [], ◌∷◌, Text, Option, none, some, ◌==◌, if◌then◌else◌}
use cpp_demo.Echo.{
  Connection, Pending, writing, reading, closed, do_write_shared, on_written, on_read,
}
use cpp_demo.Echo.Handlers.{Completion, wrote_part, written, received_some}

-- A vector on the heap, and how many buffers share it.
pub record Vector : Type 0 where
  pub address : ℕ
  pub contents : Text
  pub owners : ℕ

-- The live vectors. The addresses of new ones count up.
pub record Vectors : Type 0 where
  pub next : ℕ
  pub live : List Vector

-- The constructor.
unfoldable pub shared_const_buffer : Text → Vectors → ℕ × Vectors
shared_const_buffer text v = (
  v.next,
  record {
    next = v.next + 1;
    live = record { address = v.next; contents = text; owners = 1 } ∷ v.live;
  },
)

more : ℕ → List Vector → List Vector
more a [] = []
more a (x ∷ xs) = (if x.address == a then record x { owners = x.owners + 1 } else x) ∷ more a xs

less : ℕ → List Vector → List Vector
less a [] = []
less a (x ∷ xs) =
    let rest = less a xs in
    if x.address == a
    then (if x.owners == 1 then rest else record x { owners = x.owners - 1 } ∷ rest)
    else x ∷ rest

-- A copy of a buffer, and the end of one.
unfoldable pub copy_buffer : ℕ → Vectors → Vectors
unfolding more
copy_buffer a v = record v { live = more a v.live }

unfoldable pub end_buffer : ℕ → Vectors → Vectors
unfolding less
end_buffer a v = record v { live = less a v.live }

-- The connection, the vectors, and the one that the pending write has a buffer of.
pub record Talk : Type 0 where
  pub connection : Connection
  pub vectors : Vectors
  pub sending : Option ℕ

-- doWrite: the local buffer, the copy of it that asio keeps with the operation, and the local one's
-- end.
unfoldable pub begin_write : Text → Talk → Talk
begin_write text t =
    let (a, v) = shared_const_buffer text t.vectors in
    record t { vectors = end_buffer a (copy_buffer a v); sending = some a }

begin_pending : Pending → Talk → Talk
unfolding begin_write
begin_pending (writing text) t = begin_write text t
begin_pending reading t = t
begin_pending closed t = t

begin_from : Talk → Option Connection → Talk
unfolding begin_pending
begin_from t none = t
begin_from t (some c) = begin_pending c.pending (record t { connection = c })

end_sending : Option ℕ → Talk → Talk
end_sending none t = t
end_sending (some a) t = record t { vectors = end_buffer a t.vectors; sending = none }

-- `start()` on a new connection.
unfoldable pub start_talk : Text → Text → Talk
unfolding begin_from
start_talk buffer daytime =
    let c : Connection = record { buffer = buffer; pending = closed } in
    let t : Talk = record {
      connection = c;
      vectors = record { next = 0; live = [] };
      sending = none;
    } in
    begin_from t (do_write_shared 0 daytime c)

-- A completion. A write that has sent a part keeps its buffer; one that has ended calls its handler
-- and goes with its buffer.
unfoldable pub talk : Completion → Talk → Talk
unfolding begin_from end_sending
talk wrote_part t = t
talk (written failed) t =
    end_sending t.sending (record t { connection = on_written failed t.connection })
talk (received_some failed bytes daytime) t =
    begin_from t (on_read do_write_shared failed bytes daytime t.connection)
