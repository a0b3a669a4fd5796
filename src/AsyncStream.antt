-- ===== src/AsyncStream.antt =====
-- grpcdemo/client_async.cpp: the class GreeterClient, whose two threads read and write one stream
-- until `stop`, which a signal calls at any time. A step is one call or test of a thread, a call of
-- stop, or the end of the stream, from the server's side or by a cancellation, which takes effect later.
-- A Read and a Write fail exactly on a stream that is over. Sleeping and logging are left out.
mod Threads
mod Tests
use cpp_demo.Prelude.{
  ℕ, suc, ◌+◌, ◌<◌, ◌≡◌, Bool, true, false, List, [], ◌∷◌, ◌++◌, Text, codes, if◌then◌else◌,
}
use cpp_demo.Service.{HelloRequest}

-- The writing thread is at the test of its loop, at Write, or at its end.
pub data Writer : Type 0 where
  testing writing ended : Writer

pub data Reader : Type 0 where
  reading finished : Reader

-- `running_`, how often the context was cancelled, whether the stream is over, the two
-- threads, the requests that Write has accepted, and the responses that were logged.
pub record Client : Type 0 where
  pub running : Bool
  pub cancels : ℕ
  pub over : Bool
  pub writer : Writer
  pub reader : Reader
  pub requests : List HelloRequest
  pub responses : List Text

-- `GreeterClient instance_`
unfoldable pub new_client : Client
new_client = record {
  running = false;
  cancels = 0;
  over = false;
  writer = testing;
  reader = reading;
  requests = [];
  responses = [];
}

-- run, up to where it has started its threads.
unfoldable pub run : Client → Client
run c = record c { running = true; writer = testing; reader = reading }

unfoldable pub stop : Client → Client
stop c = if c.running then record c { running = false; cancels = c.cancels + 1 } else c

-- `while (running_)`
unfoldable pub test_running : Client → Client
test_running c = record c { writer = if c.running then writing else ended }

abbrev pub request : HelloRequest
request = record { name = codes "tony"; double_quote = false }

-- A Write that is accepted, and one that fails, which leaves the loop.
unfoldable pub write_request : Client → Client
write_request c = record c { writer = testing; requests = c.requests ++ request ∷ [] }

unfoldable pub leave_writing : Client → Client
leave_writing c = record c { writer = ended }

unfoldable pub read_response : Text → Client → Client
read_response message c = record c { responses = c.responses ++ message ∷ [] }

unfoldable pub leave_reading : Client → Client
leave_reading c = record c { reader = finished }

-- A step of one of the two threads.
pub data Act (c : Client) : Client → Type 0 where
  tests : c.writer ≡ testing → Act c (test_running c)
  writes : c.writer ≡ writing → c.over ≡ false → Act c (write_request c)
  write_fails : c.writer ≡ writing → c.over ≡ true → Act c (leave_writing c)
  reads : (message : Text) → c.reader ≡ reading → c.over ≡ false → Act c (read_response message c)
  read_fails : c.reader ≡ reading → c.over ≡ true → Act c (leave_reading c)

pub data Step (c : Client) : Client → Type 0 where
  acts : {d : Client} → Act c d → Step c d
  stops : Step c (stop c)
  closes : Step c (record c { over = true })
  is_cancelled : 0 < c.cancels → Step c (record c { over = true })

pub data Reach (c : Client) : Client → Type 0 where
  here : Reach c c
  next : {d e : Client} → Reach c d → Step d e → Reach c e

-- A number of steps of the threads.
pub data Acts (c : Client) : ℕ → Client → Type 0 where
  none_yet : Acts c 0 c
  one_more : {k : ℕ} {d e : Client} → Acts c k d → Act d e → Acts c (suc k) e
