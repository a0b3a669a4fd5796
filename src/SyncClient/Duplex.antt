-- ===== src/SyncClient/Duplex.antt =====
-- The last call of grpcdemo/client.cpp: a thread that writes and one that reads, against SayHello3 of
-- grpcdemo/service_impl.cc, on one stream. A step is one call that a thread or the service makes, in
-- any order.
pub mod Order
pub mod Unbroken
use cpp_demo.Prelude.{
  ℕ, suc, ◌+◌, ◌*◌, ◌<◌, ◌≤◌, ◌≡◌, refl, sym, ap, ◌∙◌, ◌⊎◌, inl, inr, List, [], ◌∷◌, ◌++◌, map,
  append_assoc, append-nil, Text, codes, length, length-append, arith,
}
use cpp_demo.Service.{HelloRequest, quoted_name, say_hello3}
use cpp_demo.SyncClient.{named}

-- The writing thread is in its loop, or has called WritesDone; the reading thread and the service are
-- in their loops, or have seen a Read fail.
pub data Thread : Type 0 where
  working ended : Thread

-- `left` are the names not yet written, `requests` and `responses` are under way, `shown` were read.
-- `sent` are all the requests that Write accepted.
pub record Duplex : Type 0 where
  pub left : List Text
  pub writer : Thread
  pub requests : List HelloRequest
  pub service : Thread
  pub responses : List Text
  pub reader : Thread
  pub shown : List Text
  pub sent : List HelloRequest

unfoldable pub begin_call : List Text → Duplex
begin_call ns = record {
  left = ns;
  writer = working;
  requests = [];
  service = working;
  responses = [];
  reader = working;
  shown = [];
  sent = [];
}

-- The message of the service's loop body.
abbrev pub message : HelloRequest → Text
message r = codes "hello" ++ 32 ∷ quoted_name r

-- Write returns true.
unfoldable pub write_one : Text → List Text → Duplex → Duplex
write_one n ns d = record d {
  left = ns;
  requests = d.requests ++ named n ∷ [];
  sent = d.sent ++ named n ∷ [];
}

-- WritesDone, behind the loop or behind a Write that failed.
unfoldable pub writes_done : Duplex → Duplex
writes_done d = record d { left = []; writer = ended }

-- The service reads a request and writes its response.
unfoldable pub serve : HelloRequest → List HelloRequest → Duplex → Duplex
serve r rs d = record d { requests = rs; responses = d.responses ++ message r ∷ [] }

unfoldable pub show : Text → List Text → Duplex → Duplex
show t ts d = record d { responses = ts; shown = d.shown ++ t ∷ [] }

-- The service's Read fails when all requests are read and the writer is done; the client's when all
-- responses are read and the service has returned. The status that Finish gives is only logged.
pub data Step (d : Duplex) : Duplex → Type 0 where
  writes :
      (n : Text) (ns : List Text) → d.writer ≡ working → d.left ≡ n ∷ ns → Step d (write_one n ns d)
  write_fails :
      (n : Text) (ns : List Text) → d.writer ≡ working → d.left ≡ n ∷ ns → Step d (writes_done d)
  finishes : d.writer ≡ working → d.left ≡ [] → Step d (writes_done d)
  serves :
      (r : HelloRequest) (rs : List HelloRequest)
      → d.service ≡ working
      → d.requests ≡ r ∷ rs
      → Step d (serve r rs d)
  returns :
      d.service ≡ working
      → d.writer ≡ ended
      → d.requests ≡ []
      → Step d (record d { service = ended })
  reads :
      (t : Text) (ts : List Text) → d.reader ≡ working → d.responses ≡ t ∷ ts → Step d (show t ts d)
  read_fails :
      d.reader ≡ working
      → d.service ≡ ended
      → d.responses ≡ []
      → Step d (record d { reader = ended })

-- A stream that breaks or is cancelled: a Read of the client, or one of the service, fails early. A
-- Write may fail at any time.
pub data Break (d : Duplex) : Duplex → Type 0 where
  read_broken : d.reader ≡ working → Break d (record d { reader = ended })
  service_broken : d.service ≡ working → Break d (record d { service = ended })

-- A number of steps and breaks.
pub data Steps (d : Duplex) : ℕ → Duplex → Type 0 where
  here : Steps d 0 d
  breaks : {k : ℕ} {e f : Duplex} → Steps d k e → Break e f → Steps d (suc k) f
  next : {k : ℕ} {e f : Duplex} → Steps d k e → Step e f → Steps d (suc k) f
