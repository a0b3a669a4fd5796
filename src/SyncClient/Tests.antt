-- ===== src/SyncClient/Tests.antt =====
-- The theorems on grpcdemo/client.cpp: a failing write, and a run of the last call with one name.
use cpp_demo.Prelude.{◌+◌, ◌*◌, ◌≡◌, ◌≤◌, ◌⊎◌, refl, List, [], ◌∷◌, ◌++◌, Text, codes}
use cpp_demo.Service.{say_hello3}
use cpp_demo.SyncClient.{named}
use cpp_demo.SyncClient.Duplex.{
  Duplex, ended, begin_call, message, write_one, writes_done, serve, show, Step, writes, finishes,
  serves, returns, reads, read_fails, Steps, here, next,
}
use cpp_demo.SyncClient.Duplex.Order.{Steps-Duplex}
use cpp_demo.SyncClient.Duplex.Unbroken.{count_breaks, Duplex-say_hello3}

abbrev whole_call : Duplex
whole_call = record {
  left = [];
  writer = ended;
  requests = [];
  service = ended;
  responses = [];
  reader = ended;
  shown = message (named (codes "ann")) ∷ [];
  sent = named (codes "ann") ∷ [];
}

whole_call_run : Steps (begin_call (codes "ann" ∷ [])) 6 whole_call
unfolding begin_call write_one writes_done serve show
whole_call_run =
    next
      (next
        (next
          (next
            (next (next here (writes (codes "ann") [] refl refl))
              (serves (named (codes "ann")) [] refl refl))
            (finishes refl refl))
          (reads (message (named (codes "ann"))) [] refl refl))
        (returns refl refl refl))
      (read_fails refl refl refl)

Steps-Duplex_example :
    (6 ≤ 1 * 3 + 3)
    × ((whole_call.reader ≡ ended) ⊎ ((e : Duplex) × Step whole_call e))
    × ((more : List Text) × (whole_call.shown ++ more ≡ say_hello3 whole_call.sent))
Steps-Duplex_example = Steps-Duplex (codes "ann" ∷ []) whole_call_run

unbroken : count_breaks whole_call_run ≡ 0
unfolding whole_call_run
unbroken = refl

Duplex-say_hello3_example :
    (whole_call.shown ≡ say_hello3 whole_call.sent)
    × (whole_call.writer ≡ ended)
    × (whole_call.service ≡ ended)
Duplex-say_hello3_example = Duplex-say_hello3 (codes "ann" ∷ []) whole_call_run unbroken refl
