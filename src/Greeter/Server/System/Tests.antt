-- ===== src/Greeter/Server/System/Tests.antt =====
-- The theorem on the histories of GreeterServer (grpcdemo/server_async.cc) after its start.
use cpp_demo.Greeter.Server.System.Counts.{count}
use cpp_demo.Prelude.{◌+◌, ◌≡◌, refl, [], ◌∷◌, some, arith}
use cpp_demo.Greeter.Tag.{connected, read_done, write_done, tagify}
use cpp_demo.Greeter.Session.{new_session}
use cpp_demo.Greeter.Server.{initial, start, find, assign}
use cpp_demo.Greeter.Server.Sessions.{Keyed}
use cpp_demo.Greeter.Server.System.{
  System, Event, Reach, here, next, new_system, step, starts, Enabled,
}
use cpp_demo.Greeter.Server.System.Once.{Run, begins, goes_on, Run-Owes}
use cpp_demo.Greeter.Server.System.Safety.{Reach-Safe}

abbrev started : System
started = record {
  server = (start initial).0;
  conn_tags = tagify 0 connected ∷ [];
  stream_tags = [];
}

started_reached : Reach new_system started
unfolding step new_system start initial
started_reached = next here starts (omega arith) refl

Reach-Safe_example :
    Keyed started.server.session_id_allocator started.server.sessions
    × ((e : Event) → Enabled started e → (z : System) × (step started e ≡ some z))
Reach-Safe_example = Reach-Safe started_reached

started-Run : Run new_system started
unfolding step new_system start initial
started-Run = goes_on begins starts (omega arith) (omega arith) refl

first_found : find 0 started.server.sessions ≡ some (new_session 0)
unfolding find start initial assign
first_found = refl

Run-Owes_example :
    (count 0 connected started.conn_tags ≡ 1)
    × (count 0 read_done started.stream_tags + 1 ≡ 1)
    × (count 0 write_done started.stream_tags ≡ 0)
unfolding new_session
Run-Owes_example = Run-Owes 0 (new_session 0) started-Run first_found
