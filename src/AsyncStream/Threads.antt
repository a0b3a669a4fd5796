-- ===== src/AsyncStream/Threads.antt =====
-- How the two threads of grpcdemo/client_async.cpp end.
use cpp_demo.Prelude.{
  ℕ, suc, ◌+◌, ◌≤◌, ◌<◌, ◌≡◌, refl, ◌⊎◌, inl, inr, true, false, [], ◌∷◌, length, length-append,
  arith, if◌then◌else◌,
}
use cpp_demo.AsyncStream.{
  Writer, testing, writing, ended, Reader, reading, finished, Client, new_client, run, stop,
  test_running, request, write_request, leave_writing, read_response, leave_reading, Act, tests,
  writes, write_fails, reads, read_fails, Step, acts, stops, closes, is_cancelled, Reach, here,
  next, Acts, none_yet, one_more,
}

pub record Inv (c : Client) : Type 0 where
  pub cancelled_once : c.cancels ≡ (if c.running then 0 else 1)
  pub writer_ended : c.writer ≡ ended → (c.running ≡ false) ⊎ (c.over ≡ true)
  pub reader_ended : c.reader ≡ finished → c.over ≡ true

run-Inv : Inv (run new_client)
unfolding run new_client
run-Inv = record { cancelled_once = refl; writer_ended = λ e. cc; reader_ended = λ e. cc }

Act-Inv : {c d : Client} → Act c d → Inv c → Inv d
unfolding test_running write_request leave_writing read_response leave_reading
Act-Inv (tests h) v = record {
  cancelled_once = v.cancelled_once;
  writer_ended = λ e. ground (arith, v.cancelled_once);
  reader_ended = v.reader_ended;
}
Act-Inv (writes h o) v = record {
  cancelled_once = v.cancelled_once;
  writer_ended = λ e. cc;
  reader_ended = v.reader_ended;
}
Act-Inv (write_fails h o) v = record {
  cancelled_once = v.cancelled_once;
  writer_ended = λ e. inr o;
  reader_ended = v.reader_ended;
}
Act-Inv (reads message h o) v = record {
  cancelled_once = v.cancelled_once;
  writer_ended = v.writer_ended;
  reader_ended = v.reader_ended;
}
Act-Inv (read_fails h o) v = record {
  cancelled_once = v.cancelled_once;
  writer_ended = v.writer_ended;
  reader_ended = λ e. o;
}

stop-Inv : (c : Client) → Inv c → Inv (stop c)
unfolding stop
stop-Inv c v = record {
  cancelled_once = ground (arith, v.cancelled_once);
  writer_ended = λ e. ground (arith, v.cancelled_once, v.writer_ended);
  reader_ended = λ e. ground (arith, v.cancelled_once, v.reader_ended);
}

over-Inv : (c : Client) → Inv c → Inv (record c { over = true })
over-Inv c v = record {
  cancelled_once = v.cancelled_once;
  writer_ended = λ e. inr refl;
  reader_ended = λ e. refl;
}

Step-Inv : {c d : Client} → Step c d → Inv c → Inv d
Step-Inv (acts a) v = Act-Inv a v
Step-Inv {c} stops v = stop-Inv c v
Step-Inv closes v = over-Inv _ v
Step-Inv (is_cancelled h) v = over-Inv _ v

-- In every order of steps: the context is cancelled once if stop was called, and else not; the writer
-- has ended only if stop was called or the stream is over; and the reader only if the stream is over.
pub stream_Reach-Inv : {c : Client} → Reach (run new_client) c → Inv c
stream_Reach-Inv here = run-Inv
stream_Reach-Inv (next r s) = Step-Inv s (stream_Reach-Inv r)

abbrev pub at_work : Writer → Reader → ℕ
at_work ended finished = 0
at_work ended reading = 1
at_work testing finished = 1
at_work writing finished = 1
at_work testing reading = 2
at_work writing reading = 2

record Stopped (c : Client) : Type 0 where
  off : c.running ≡ false
  shut : c.over ≡ true

Act-Stopped :
    {c d : Client}
    → Act c d
    → Stopped c
    → Stopped d × (at_work c.writer c.reader ≡ suc (at_work d.writer d.reader))
unfolding test_running write_request leave_writing read_response leave_reading
Act-Stopped {c} (tests h) v = (record { off = v.off; shut = v.shut }, ground (arith, v.off))
Act-Stopped {c} (writes h o) v = ground (arith, v.shut)
Act-Stopped {c} (write_fails h o) v = (record { off = v.off; shut = v.shut }, ground (arith, v.off))
Act-Stopped {c} (reads m h o) v = ground (arith, v.shut)
Act-Stopped {c} (read_fails h o) v = (record { off = v.off; shut = v.shut }, ground (arith, v.off))

Acts-Stopped :
    {c d : Client} {k : ℕ}
    → Acts c k d
    → Stopped c
    → Stopped d × (at_work c.writer c.reader ≡ k + at_work d.writer d.reader)
Acts-Stopped none_yet v = (v, omega arith)
Acts-Stopped (one_more r a) v =
    let (w, e) = Acts-Stopped r v in let (w', e') = Act-Stopped a w in (w', omega arith)

goes_on :
    (c : Client) (w : Writer) (r : Reader)
    → c.writer ≡ w
    → c.reader ≡ r
    → Stopped c
    → ((c.writer ≡ ended) × (c.reader ≡ finished)) ⊎ ((d : Client) × Act c d)
goes_on c testing r p q v = inr (_, tests p)
goes_on c writing r p q v = inr (_, write_fails p v.shut)
goes_on c ended reading p q v = inr (_, read_fails q v.shut)
goes_on c ended finished p q v = inl (p, q)

cancelled :
    (c : Client) → Inv c → (0 < (stop c).cancels) × Stopped (record (stop c) { over = true })
unfolding stop
cancelled c v = (ground (arith, v.cancelled_once), record { off = ground arith; shut = refl })

-- Whenever stop is called on a client that runs: the stream's context is then cancelled; and once the
-- stream is over, as the cancellation makes it, the two threads make at most two more steps, whatever
-- they are, and one can be made until both threads have ended, so that run returns.
pub stop-joins :
    {c d : Client} {k : ℕ}
    → Reach (run new_client) c
    → Acts (record (stop c) { over = true }) k d
    → (0 < (stop c).cancels)
      × (k ≤ 2)
      × (((d.writer ≡ ended) × (d.reader ≡ finished)) ⊎ ((e : Client) × Act d e))
stop-joins {c} {d} r a =
    let (cut, v) = cancelled c (stream_Reach-Inv r) in
    let (w, e) = Acts-Stopped a v in
    (cut, ground (arith, e), goes_on d d.writer d.reader refl refl w)

abbrev at_write : Writer → ℕ
at_write testing = 0
at_write writing = 1
at_write ended = 0

-- Behind a stop, with at most `n` requests written when the write that is under way is done.
record Winding (n : ℕ) (c : Client) : Type 0 where
  off : c.running ≡ false
  few : length c.requests + at_write c.writer ≤ n

Act-Winding : {n : ℕ} {c d : Client} → Act c d → Winding n c → Winding n d
unfolding test_running write_request leave_writing read_response leave_reading
Act-Winding (tests h) v = record { off = v.off; few = ground (arith, v.off, v.few) }
Act-Winding {c = c} (writes h o) v = record {
  off = v.off;
  few = ground (arith, v.few, length-append c.requests (request ∷ []));
}
Act-Winding (write_fails h o) v = record { off = v.off; few = ground (arith, v.few) }
Act-Winding (reads m h o) v = record { off = v.off; few = v.few }
Act-Winding (read_fails h o) v = record { off = v.off; few = v.few }

Step-Winding : {n : ℕ} {c d : Client} → Step c d → Winding n c → Winding n d
unfolding stop
Step-Winding (acts a) v = Act-Winding a v
Step-Winding stops v = record { off = ground (arith, v.off); few = ground (arith, v.off, v.few) }
Step-Winding closes v = record { off = v.off; few = v.few }
Step-Winding (is_cancelled h) v = record { off = v.off; few = v.few }

Winding-Reach : {n : ℕ} {c d : Client} → Winding n c → Reach c d → Winding n d
Winding-Reach v here = v
Winding-Reach v (next r s) = Step-Winding s (Winding-Reach v r)

-- Whenever stop is called, at most the one request whose Write is under way is still written, in
-- whatever order the steps come, and also where the cancellation does not take effect.
pub stop-length :
    (c : Client) {d : Client} → Reach (stop c) d → length d.requests ≤ length c.requests + 1
unfolding stop
stop-length c {d} r =
    let start : Winding (length c.requests + 1) (stop c) = record {
      off = ground arith;
      few = ground arith;
    } in
    omega (arith, (Winding-Reach start r).few)
