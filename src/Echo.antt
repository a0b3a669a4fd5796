-- ===== src/Echo.antt =====
-- The class connection of asio/allocation/allocation.cpp and of
-- asio/buffer/reference_counted_buffer.cpp, and their server. The two differ in doWrite. `data_` is
-- a list of 1024 bytes; the socket's completions and the daytime text are arguments; the memory of
-- the handlers is `HandlerMemory`.
pub mod Replies
pub mod Accepts
pub mod Handlers
pub mod Placement
pub mod SharedBuffers
pub mod Sharing
mod Tests
use cpp_demo.Prelude.{
  ℕ, ◌+◌, ◌≡◌, Bool, true, false, List, [], ◌∷◌, ◌++◌, Text, codes, length, take, drop, leb,
  if◌then◌else◌, Option, none, some,
}

-- The size of `data_`.
abbrev pub data_size : ℕ
data_size = 1024

-- The operation that is under way on the socket: a write of a text, a read, or none, when the
-- connection's last handler has ended.
pub data Pending : Type 0 where
  writing : Text → Pending
  reading : Pending
  closed : Pending

pub record Connection : Type 0 where
  pub buffer : Text
  pub pending : Pending

-- absl::StrCat("got ", string_view(data_.data(), length), " on ", daytime)
abbrev pub response : Text → ℕ → Text → Text
response buffer n daytime = codes "got " ++ (take n buffer ++ (codes " on " ++ daytime))

-- `memcpy(data_.data(), text.c_str(), text.size())`: `none` where it writes past the array's end.
unfoldable pub copy_over : Text → Text → Option Text
copy_over text buffer =
    if leb (length text) (length buffer) then some (text ++ drop (length text) buffer) else none

-- What a completed read of `bytes` leaves in `data_`.
abbrev pub received : Text → Text → Text
received bytes buffer = bytes ++ drop (length bytes) buffer

-- What `asio::buffer(data_, size)` sends: the bytes that `data_` holds when the write is begun.
write_from : ℕ → Option Text → Option Connection
write_from size none = none
write_from size (some buffer) =
    some (record { buffer = buffer; pending = writing (take size buffer) })

-- doWrite of allocation.cpp: the text is copied over `data_`, and sent from there.
unfoldable pub do_write_in_place : ℕ → Text → Connection → Option Connection
unfolding write_from copy_over
do_write_in_place n daytime c =
    let text = response c.buffer n daytime in write_from (length text) (copy_over text c.buffer)

-- doWrite of reference_counted_buffer.cpp: the text has a shared buffer of its own.
unfoldable pub do_write_shared : ℕ → Text → Connection → Option Connection
do_write_shared n daytime c = some (record c { pending = writing (response c.buffer n daytime) })

-- doRead: a read into `data_` is begun.
unfoldable pub do_read : Connection → Connection
do_read c = record c { pending = reading }

-- The completion handler of the write.
unfoldable pub on_written : Bool → Connection → Connection
unfolding do_read
on_written failed c = if failed then record c { pending = closed } else do_read c

module _ (do_write : ℕ → Text → Connection → Option Connection) where
  unfoldable pub start : Text → Connection → Option Connection
  start daytime c = do_write 0 daytime c

  -- The completion handler of the read.
  unfoldable pub on_read : Bool → Text → Text → Connection → Option Connection
  on_read failed bytes daytime c =
      if failed
      then some (record c { pending = closed })
      else do_write (length bytes) daytime (record c { buffer = received bytes c.buffer })

-- The server: its connections, newest first, and whether an accept is pending.
pub record Server : Type 0 where
  pub connections : List Connection
  pub accepting : Bool

module _ (do_write : ℕ → Text → Connection → Option Connection) where
  add_started : Server → Option Connection → Option Server
  add_started s none = none
  add_started s (some c) = some (record s { connections = c ∷ s.connections })

  rearm : Option Server → Option Server
  rearm none = none
  rearm (some s) = some (record s { accepting = true })

  -- The completion handler of the accept, which begins the next one. `buffer` is what the memory of
  -- the new connection's `data_` holds.
  unfoldable pub on_accept : Bool → Text → Text → Server → Option Server
  unfolding add_started rearm start
  on_accept failed buffer daytime s =
      let idle = record s { accepting = false } in
      rearm (
        if failed
        then some idle
        else add_started idle
            (start do_write daytime (record { buffer = buffer; pending = closed })))
