-- ===== src/SyncClient/Duplex/Unbroken.antt =====
-- The last call of grpcdemo/client.cpp on a stream that does not break.
use cpp_demo.Prelude.{ℕ, ◌+◌, ◌≡◌, refl, List, [], append-nil, Text, arith}
use cpp_demo.Service.{say_hello3}
use cpp_demo.SyncClient.Duplex.{
  ended, Duplex, begin_call, write_one, writes_done, serve, show, Step, writes, write_fails,
  finishes, serves, returns, reads, read_fails, Steps, here, next, breaks,
}
use cpp_demo.SyncClient.Duplex.Order.{Steps-InOrder, say_hello3-map_message}

-- The breaks in a run.
abbrev pub count_breaks : {d e : Duplex} {k : ℕ} → Steps d k e → ℕ
count_breaks here = 0
count_breaks (next r s) = count_breaks r
count_breaks (breaks r b) = count_breaks r + 1

record Inv (d : Duplex) : Type 0 where
  behind_writer : d.service ≡ ended → d.writer ≡ ended
  all_served : d.service ≡ ended → d.requests ≡ []
  behind_service : d.reader ≡ ended → d.service ≡ ended
  all_read : d.reader ≡ ended → d.responses ≡ []

Step-Inv : {d e : Duplex} → Step d e → Inv d → Inv e
unfolding write_one writes_done serve show
Step-Inv {d} (writes n ns w l) v = record {
  behind_writer = v.behind_writer;
  all_served = λ h. ground (arith, v.behind_writer h);
  behind_service = v.behind_service;
  all_read = v.all_read;
}
Step-Inv {d} (write_fails n ns w l) v = record {
  behind_writer = λ h. refl;
  all_served = v.all_served;
  behind_service = v.behind_service;
  all_read = v.all_read;
}
Step-Inv {d} (finishes w l) v = record {
  behind_writer = λ h. refl;
  all_served = v.all_served;
  behind_service = v.behind_service;
  all_read = v.all_read;
}
Step-Inv {d} (serves r rs s q) v = record {
  behind_writer = v.behind_writer;
  all_served = λ h. ground arith;
  behind_service = v.behind_service;
  all_read = λ h. ground (arith, v.behind_service h);
}
Step-Inv {d} (returns s w q) v = record {
  behind_writer = λ h. w;
  all_served = λ h. q;
  behind_service = λ h. refl;
  all_read = v.all_read;
}
Step-Inv {d} (reads t ts r q) v = record {
  behind_writer = v.behind_writer;
  all_served = v.all_served;
  behind_service = v.behind_service;
  all_read = λ h. ground arith;
}
Step-Inv {d} (read_fails r s q) v = record {
  behind_writer = v.behind_writer;
  all_served = v.all_served;
  behind_service = λ h. s;
  all_read = λ h. q;
}

begin_call-Inv : (ns : List Text) → Inv (begin_call ns)
unfolding begin_call
begin_call-Inv ns = record {
  behind_writer = λ h. cc;
  all_served = λ h. refl;
  behind_service = λ h. cc;
  all_read = λ h. refl;
}

Steps-Inv :
    (ns : List Text) {k : ℕ} {d : Duplex} (r : Steps (begin_call ns) k d)
    → count_breaks r ≡ 0
    → Inv d
Steps-Inv ns here h = begin_call-Inv ns
Steps-Inv ns (next r s) h = Step-Inv s (Steps-Inv ns r h)
Steps-Inv ns (breaks r b) h = absurd (omega arith)

-- Where the stream does not break: when the reading thread has ended, so have the writer and the
-- service, and the client has shown just what the service's SayHello3 makes of the requests that were
-- sent, in order.
pub Duplex-say_hello3 :
    (ns : List Text) {k : ℕ} {d : Duplex} (r : Steps (begin_call ns) k d)
    → count_breaks r ≡ 0
    → d.reader ≡ ended
    → (d.shown ≡ say_hello3 d.sent) × (d.writer ≡ ended) × (d.service ≡ ended)
Duplex-say_hello3 ns {k} {d} r whole h =
    let v = Steps-Inv ns r whole in
    let s = v.behind_service h in
    (
      ground (
        arith,
        Steps-InOrder ns r,
        v.all_read h,
        v.all_served s,
        append-nil d.shown,
        say_hello3-map_message d.sent,
      ),
      v.behind_writer s,
      s,
    )
