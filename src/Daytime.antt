-- ===== src/Daytime.antt =====
-- asio/daytime: the server of server_async.cpp, that of server_sync.cpp and the client of
-- client_sync.cpp. The daytime text and the completions are arguments; an accept that fails in the
-- synchronous server throws, which ends it.
pub mod Talk
mod Tests
use cpp_demo.Prelude.{
  ℕ, zero, suc, ◌+◌, Bool, true, false, Option, none, some, List, [], ◌∷◌, ◌++◌, Text,
  if◌then◌else◌, take, drop,
}

-- A connection of the asynchronous server: `message_`, and whether its write is pending. It goes, and
-- its socket with it, when its last handler has run.
pub record Connection : Type 0 where
  pub message : Text
  pub writing : Bool

-- The connections, each with its number, and the connection of the accept that is pending.
pub record Server : Type 0 where
  pub connections : List (ℕ × Connection)
  pub accepting : Option ℕ
  pub made : ℕ

-- doAccept: a new connection, and an accept into its socket.
unfoldable pub do_accept : Server → Server
do_accept s = record s { accepting = some s.made; made = s.made + 1 }

unfoldable pub new_server : Server
unfolding do_accept
new_server = do_accept (record { connections = []; accepting = none; made = 0 })

-- connection::handle.
unfoldable pub handle : ℕ → Text → Server → Server
handle i daytime s = record s {
  connections = (i, record { message = daytime; writing = true }) ∷ s.connections;
}

on_accepted : Bool → Text → Option ℕ → Server → Server
unfolding handle
on_accepted failed daytime none s = s
on_accepted failed daytime (some i) s = if failed then s else handle i daytime s

-- handleAccept: the completion of the pending accept.
unfoldable pub handle_accept : Bool → Text → Server → Server
unfolding on_accepted do_accept
handle_accept failed daytime s =
    do_accept (on_accepted failed daytime s.accepting (record s { accepting = none }))

-- One pass of the synchronous server's loop: whether the accept throws, and the text that the accepted
-- socket gets; an error of the write is not looked at.
unfoldable pub serve_sync : Bool → Text → Option Text
serve_sync thrown daytime = if thrown then none else some daytime

-- What the client's read_some gives.
pub data ReadResult : Type 0 where
  arrived : Text → ReadResult
  eof read_failed : ReadResult

-- How the client ends: at the end of the stream, with an exception, or it waits for more.
pub data End : Type 0 where
  ends throws waits : End

-- sizeof(buf)
abbrev pub read_size : ℕ
read_size = 128

abbrev also : Text → Text × End → Text × End
also t (shown, e) = (t ++ shown, e)

-- The client's loop: what it writes out, and how it ends.
unfoldable pub read_all : List ReadResult → Text × End
read_all [] = ([], waits)
read_all (arrived bytes ∷ rs) = also (take read_size bytes) (read_all rs)
read_all (eof ∷ rs) = ([], ends)
read_all (read_failed ∷ rs) = ([], throws)
