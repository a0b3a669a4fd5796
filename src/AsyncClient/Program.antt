-- ===== src/AsyncClient/Program.antt =====
-- main and signalHandler of grpcdemo/client_async2.cpp. A signal and the steps of the callback thread
-- come anywhere between two steps of main; the clock of the pause is left out.
use cpp_demo.Prelude.{
  ℕ, ◌+◌, ◌≡◌, Bool, true, false, ◌&&◌, Option, none, some, codes, ltb, if◌then◌else◌,
}
use cpp_demo.AsyncClient.{Client, new_client, run, send_request, stop}
use cpp_demo.AsyncClient.Callbacks.{Event, completes, ends}

-- Where main stands: at the start, with the client made, with it run, at the test of the loop, in
-- the pause, behind the second test, and behind `client.reset()`.
pub data Phase : Type 0 where
  at_start client_made client_run testing pausing sending ended : Phase

-- `pointed` says that `g_client` is not null; it is not cleared by `client.reset()`.
pub record Process : Type 0 where
  pub phase : Phase
  pub client : Client
  pub pointed : Bool
  pub g_running : Bool
  pub i : ℕ

unfoldable pub at_entry : Process
at_entry = record {
  phase = at_start;
  client = new_client;
  pointed = false;
  g_running = false;
  i = 0;
}

-- The number of passes of the loop.
abbrev pub passes : ℕ
passes = 100

-- `client.reset()`: the destructor stops the client.
leave : Process → Process
leave p = record p { phase = ended; client = stop p.client }

from_send : Process → Option Client → Option Process
from_send p none = none
from_send p (some c) = some (record p { phase = testing; client = c; i = p.i + 1 })

-- The next step of main. `address` is that of the request's new context.
unfoldable pub main_step : ℕ → Process → Option Process
unfolding leave from_send
main_step address p = elim p.phase [
  | at_start ↦ some (record p { phase = client_made; pointed = true })
  | client_made ↦ some (record p { phase = client_run; client = run p.client })
  | client_run ↦ some (record p { phase = testing; g_running = true })
  | testing ↦ some (if ltb p.i passes && p.g_running then record p { phase = pausing } else leave p)
  | pausing ↦ some (if p.g_running then record p { phase = sending } else leave p)
  | sending ↦ from_send p (send_request (codes "tony") p.i address p.client)
  | ended ↦ some p
]

-- signalHandler. `none` where `g_client` points to a client that is gone.
unfoldable pub signal_handler : Process → Option Process
signal_handler p =
    let q = record p { g_running = false } in
    if p.pointed
    then elim p.phase [ ended ↦ none | _ ↦ some (record q { client = stop p.client }) ]
    else some q

-- A step of the callback thread: it may have tested `running_` before a signal came.
abbrev pub Threaded : Client → Event → Type 0
Threaded c (completes tag ok) = c.looping ≡ true
Threaded c ends = c.looping ≡ true
Threaded c _ = ⊥
