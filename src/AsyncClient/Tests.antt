-- ===== src/AsyncClient/Tests.antt =====
-- The theorem on grpcdemo/client_async2.cpp after one request, whose write failed.
use cpp_demo.Prelude.{
  ◌≤◌, ltb, if◌then◌else◌, ℕ, ◌+◌, ◌≡◌, refl, true, false, Text, codes, [], ◌∷◌, some,
}
use cpp_demo.AsyncClient.{Client, new_client, run, send_request, on_completion, connect, write}
use cpp_demo.AsyncClient.{stop, cancel}
use cpp_demo.AsyncClient.Program.{Process, testing, passes, at_entry, main_step, signal_handler}
use cpp_demo.AsyncClient.Requests.{Run, entry, main_steps, signalled, Run-told}
use cpp_demo.AsyncClient.Callbacks.{
  Reach, here, next, runs, requests, completes, step, asked, told, held, failures, callbacks_told,
}

abbrev requesting : Client
requesting = record {
  running = false;
  looping = false;
  has_stream = true;
  contexts = (16, 5) ∷ [];
  answered = [];
  calls = connect ∷ write (codes "ann") 16 ∷ [];
}

requesting_reached : Reach requesting (5 ∷ [])
unfolding step new_client run send_request on_completion
requesting_reached =
    next (next (next here runs tt refl) (requests (codes "ann") 5 16) tt refl) (completes 16 false)
      refl refl

callbacks_told_example :
    ((cb : ℕ) → told cb [] + held cb requesting.contexts ≡ asked cb (5 ∷ []))
    × (failures [] ≡ 0)
    × ((req : Text) (cb address : ℕ)
        → (d : Client) × (send_request req cb address requesting ≡ some d))
callbacks_told_example = callbacks_told requesting_reached

-- main has made one request, and a signal came.
abbrev signalled_process : Process
signalled_process = record {
  phase = testing;
  client = record {
    running = false;
    looping = true;
    has_stream = true;
    contexts = (16, 0) ∷ [];
    answered = [];
    calls = connect ∷ write (codes "tony") 16 ∷ cancel ∷ [];
  };
  pointed = true;
  g_running = false;
  i = 1;
}

signalled_process_reached : Run signalled_process
unfolding main_step signal_handler at_entry new_client run send_request stop
signalled_process_reached =
    signalled
      (main_steps
        (main_steps
          (main_steps (main_steps (main_steps (main_steps entry 0 refl) 0 refl) 0 refl) 0 refl) 0
          refl)
        16 refl)
      refl

Run-told_example :
    (1 ≤ passes)
    × ((cb : ℕ)
        → told cb [] + held cb signalled_process.client.contexts ≡ (if ltb cb 1 then 1 else 0))
Run-told_example = Run-told signalled_process_reached
