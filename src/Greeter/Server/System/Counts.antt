-- ===== src/Greeter/Server/System/Counts.antt =====
-- How often the tags of GreeterServer are posted (grpcdemo/server_async.cc).
use cpp_demo.Prelude.{ℕ, ◌+◌, ◌≡◌, ◌++◌, List, [], ◌∷◌, arith, if◌then◌else◌, ◌==◌}
use cpp_demo.Greeter.Tag.{SessionEvent, connected, read_done, write_done, finished, detagify}
use cpp_demo.Greeter.Session.{read, write}
use cpp_demo.Greeter.Server.{
  Call, request_say_hello3, on_stream, try_cancel, shutdown_server, shutdown_cq_conn,
  shutdown_cq_readwrite,
}
use cpp_demo.Greeter.Server.System.{System, post_all, post}

-- One if the tag is that of this session's event.
abbrev pub same : SessionEvent → SessionEvent → ℕ
same connected connected = 1
same read_done read_done = 1
same write_done write_done = 1
same finished finished = 1
same _ _ = 0

abbrev pub is_for : ℕ → SessionEvent → ℕ → ℕ
is_for i e tag = let (j, f) = detagify tag in if j == i then same f e else 0

-- How often it is posted.
abbrev pub count : ℕ → SessionEvent → List ℕ → ℕ
count i e [] = 0
count i e (u ∷ us) = is_for i e u + count i e us

abbrev pub conn_count : ℕ → SessionEvent → List Call → ℕ
conn_count i e [] = 0
conn_count i e (request_say_hello3 u ∷ cs) = is_for i e u + conn_count i e cs
conn_count i e (_ ∷ cs) = conn_count i e cs

abbrev pub stream_count : ℕ → SessionEvent → List Call → ℕ
stream_count i e [] = 0
stream_count i e (on_stream k (read u) ∷ cs) = is_for i e u + stream_count i e cs
stream_count i e (on_stream k (write message u) ∷ cs) = is_for i e u + stream_count i e cs
stream_count i e (_ ∷ cs) = stream_count i e cs

module _ (i : ℕ) (e : SessionEvent) where
  pub post_all-conn :
      (y : System) (cs : List Call)
      → count i e (post_all y cs).conn_tags ≡ count i e y.conn_tags + conn_count i e cs
  post_all-conn y [] = omega arith
  post_all-conn y (request_say_hello3 u ∷ cs) =
      omega (arith, post_all-conn (post y (request_say_hello3 u)) cs)
  post_all-conn y (on_stream k (read u) ∷ cs) = post_all-conn (post y (on_stream k (read u))) cs
  post_all-conn y (on_stream k (write message u) ∷ cs) =
      post_all-conn (post y (on_stream k (write message u))) cs
  post_all-conn y (try_cancel k ∷ cs) = post_all-conn y cs
  post_all-conn y (shutdown_server ∷ cs) = post_all-conn y cs
  post_all-conn y (shutdown_cq_conn ∷ cs) = post_all-conn y cs
  post_all-conn y (shutdown_cq_readwrite ∷ cs) = post_all-conn y cs

  pub post_all-stream :
      (y : System) (cs : List Call)
      → count i e (post_all y cs).stream_tags ≡ count i e y.stream_tags + stream_count i e cs
  post_all-stream y [] = omega arith
  post_all-stream y (request_say_hello3 u ∷ cs) = post_all-stream (post y (request_say_hello3 u)) cs
  post_all-stream y (on_stream k (read u) ∷ cs) =
      omega (arith, post_all-stream (post y (on_stream k (read u))) cs)
  post_all-stream y (on_stream k (write message u) ∷ cs) =
      omega (arith, post_all-stream (post y (on_stream k (write message u))) cs)
  post_all-stream y (try_cancel k ∷ cs) = post_all-stream y cs
  post_all-stream y (shutdown_server ∷ cs) = post_all-stream y cs
  post_all-stream y (shutdown_cq_conn ∷ cs) = post_all-stream y cs
  post_all-stream y (shutdown_cq_readwrite ∷ cs) = post_all-stream y cs

  pub stream_count-append :
      (cs ds : List Call) → stream_count i e (cs ++ ds) ≡ stream_count i e cs + stream_count i e ds
  stream_count-append [] ds = omega arith
  stream_count-append (request_say_hello3 u ∷ cs) ds = stream_count-append cs ds
  stream_count-append (on_stream k (read u) ∷ cs) ds = omega (arith, stream_count-append cs ds)
  stream_count-append (on_stream k (write message u) ∷ cs) ds =
      omega (arith, stream_count-append cs ds)
  stream_count-append (try_cancel k ∷ cs) ds = stream_count-append cs ds
  stream_count-append (shutdown_server ∷ cs) ds = stream_count-append cs ds
  stream_count-append (shutdown_cq_conn ∷ cs) ds = stream_count-append cs ds
  stream_count-append (shutdown_cq_readwrite ∷ cs) ds = stream_count-append cs ds
