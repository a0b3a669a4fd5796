-- ===== src/ConsoleClient.antt =====
-- asio/allocation/client.cpp: a client that sends the lines of the console and shows the server's
-- answers. The console's lines and the results of the socket's calls are arguments; a call that
-- blocks for good is an argument that runs out.
pub mod Start
mod Tests
use cpp_demo.Prelude.{
  ℕ, suc, ◌≡◌, ◌≢◌, ◌↔◌, refl, Bool, true, false, List, [], ◌∷◌, ◌++◌, map, Text, length, take,
  arith, ◌==◌, if◌then◌else◌,
}

-- CustomErrorCode; a default-made CustomError is no error.
pub data CustomError : Type 0 where
  no_error client_quit server_quit : CustomError

-- `write_some`, with the number of bytes that it took, and `read_some`, with the bytes that had come.
pub data WriteResult : Type 0 where
  wrote : ℕ → WriteResult
  write_failed : WriteResult

pub data ReadResult : Type 0 where
  arrived : Text → ReadResult
  eof read_failed : ReadResult

-- What a function leaves: the error and a text, or it throws.
pub data Result : Type 0 where
  returned : CustomError → Text → Result
  thrown : Result

write_some : Text → WriteResult → CustomError → Result
write_some line (wrote n) e = returned e (take n line)
write_some line write_failed e = thrown

-- talkToServer; the text is what went to the server.
unfoldable pub talk_to_server : Text → WriteResult → CustomError → Result
unfolding write_some
talk_to_server line w e = if length line == 0 then returned client_quit [] else write_some line w e

-- sizeof(buf)
abbrev pub read_size : ℕ
read_size = 128

-- readFromServer; the text is what it returns.
unfoldable pub read_from_server : ReadResult → CustomError → Result
read_from_server (arrived bytes) e = returned e (take read_size bytes)
read_from_server eof e = returned server_quit []
read_from_server read_failed e = thrown

-- What one turn of the loop meets.
pub record Turn : Type 0 where
  pub line : Text
  pub write : WriteResult
  pub read : ReadResult

-- How the program ends: it quits, catches an exception, fails an assertion, or blocks.
pub data End : Type 0 where
  quits_client quits_server catches asserts blocks : End

-- The end, the texts sent, and the answers shown.
pub record Log : Type 0 where
  pub end : End
  pub sent : List Text
  pub shown : List Text

abbrev pub ended : End → Log
ended e = record { end = e; sent = []; shown = [] }

abbrev also_sent : Text → Log → Log
also_sent t l = record l { sent = t ∷ l.sent }

abbrev also_shown : Text → Log → Log
also_shown t l = record l { shown = t ∷ l.shown }

-- Behind readFromServer; `rest` is the rest of the loop.
after_read : Result → (CustomError → Log) → Log
after_read thrown rest = ended catches
after_read (returned server_quit t) rest = ended quits_server
after_read (returned client_quit t) rest = ended asserts
after_read (returned no_error t) rest = also_shown t (rest no_error)

-- Behind talkToServer.
after_talk : Result → ReadResult → (CustomError → Log) → Log
unfolding after_read
after_talk thrown r rest = ended catches
after_talk (returned client_quit t) r rest = ended quits_client
after_talk (returned server_quit t) r rest = also_sent t (ended asserts)
after_talk (returned no_error t) r rest =
    also_sent t (after_read (read_from_server r no_error) rest)

-- The `for` loop.
unfoldable pub session : List Turn → CustomError → Log
unfolding after_talk
session [] e = ended blocks
session (t ∷ ts) e = after_talk (talk_to_server t.line t.write e) t.read (session ts)

-- Behind the first read.
after_hello : Result → List Turn → Log
unfolding session
after_hello thrown ts = ended catches
after_hello (returned no_error t) ts = also_shown t (session ts no_error)
after_hello (returned client_quit t) ts = ended asserts
after_hello (returned server_quit t) ts = ended asserts

-- main, from the connection on.
unfoldable pub main : ReadResult → List Turn → Log
unfolding after_hello
main hello ts = after_hello (read_from_server hello no_error) ts

-- A line that is not empty, sent and answered.
pub record Exchange : Type 0 where
  pub first : ℕ
  pub more : Text
  pub taken : ℕ
  pub answer : Text

abbrev pub turn_of : Exchange → Turn
turn_of x = record { line = x.first ∷ x.more; write = wrote x.taken; read = arrived x.answer }

abbrev pub said : Exchange → Text
said x = take x.taken (x.first ∷ x.more)

abbrev pub heard : Exchange → Text
heard x = take read_size x.answer

-- After whole exchanges the client is where it was, with their lines sent and their answers shown.
session_exchanges :
    (xs : List Exchange) (ts : List Turn)
    → let l = session ts no_error in
      session (map turn_of xs ++ ts) no_error
      ≡ record { end = l.end; sent = map said xs ++ l.sent; shown = map heard xs ++ l.shown }
unfolding session talk_to_server read_from_server
session_exchanges [] ts = refl
session_exchanges (x ∷ xs) ts = ground (arith, session_exchanges xs ts)

-- Once the server has said hello, the program shows the hello and each answer, and sends the part of
-- each line that the socket takes, until the first empty line, when it quits as the client, or until
-- the server closes, when it quits as told, with that turn's line sent; nothing behind is looked at.
pub main_exchanges :
    (hello : Text) (xs : List Exchange) (w : WriteResult) (r : ReadResult) (x : Exchange)
    (ts : List Turn)
    → (main (arrived hello) (map turn_of xs ++ record { line = []; write = w; read = r } ∷ ts)
        ≡ record {
          end = quits_client;
          sent = map said xs ++ [];
          shown = take read_size hello ∷ (map heard xs ++ []);
        })
      × (main (arrived hello) (map turn_of xs ++ record (turn_of x) { read = eof } ∷ ts) ≡ record {
        end = quits_server;
        sent = map said xs ++ said x ∷ [];
        shown = take read_size hello ∷ (map heard xs ++ []);
      })
unfolding main session talk_to_server read_from_server
main_exchanges hello xs w r x ts = (
  ground (arith, session_exchanges xs (record { line = []; write = w; read = r } ∷ ts)),
  ground (arith, session_exchanges xs (record (turn_of x) { read = eof } ∷ ts)),
)

session-never_asserts : (ts : List Turn) → (session ts no_error).end ≢ asserts
unfolding session talk_to_server read_from_server
session-never_asserts [] = ground arith
session-never_asserts (t ∷ ts) = ground (arith, session-never_asserts ts)

-- The program fails an assertion exactly when the server closes before it says hello.
pub main_asserts :
    (hello : ReadResult) (ts : List Turn) → ((main hello ts).end ≡ asserts) ↔ (hello ≡ eof)
unfolding main read_from_server
main_asserts hello ts = ground (arith, session-never_asserts ts)
