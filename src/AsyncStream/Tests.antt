-- ===== src/AsyncStream/Tests.antt =====
-- The client of grpcdemo/client_async.cpp stopped while its first Write is under way.
use cpp_demo.Prelude.{◌<◌, ◌+◌, length, ◌≤◌, ◌≡◌, ◌⊎◌, refl, true}
use cpp_demo.AsyncStream.{
  test_running, tests, Client, new_client, run, stop, writing, ended, finished, leave_writing,
  write_request, Act, writes, write_fails, acts, Reach, here, next, Acts, none_yet, one_more,
}
use cpp_demo.AsyncStream.Threads.{stop-joins, stop-length}

abbrev at_first_write : Client
at_first_write = record (run new_client) { writer = writing }

abbrev cut_off : Client
cut_off = record (stop at_first_write) { over = true }

wound_up : Acts cut_off 1 (leave_writing cut_off)
unfolding run stop
wound_up = one_more none_yet (write_fails refl refl)

reached_first_write : Reach (run new_client) at_first_write
unfolding run new_client test_running
reached_first_write = next here (acts (tests refl))

stop-joins_example :
    let d = leave_writing cut_off in
    (0 < (stop at_first_write).cancels)
    × (1 ≤ 2)
    × (((d.writer ≡ ended) × (d.reader ≡ finished)) ⊎ ((e : Client) × Act d e))
stop-joins_example = stop-joins reached_first_write wound_up

last_write : Reach (stop at_first_write) (write_request (stop at_first_write))
unfolding stop run new_client
last_write = next here (acts (writes refl refl))

stop-length_example :
    length (write_request (stop at_first_write)).requests ≤ length at_first_write.requests + 1
stop-length_example = stop-length at_first_write last_write
