-- ===== src/Greeter/Server/System/Settled.antt =====
-- What holds between two events of GreeterServer where each call completes at most once
-- (grpcdemo/server_async.cc).
use cpp_demo.Greeter.Server.System.Counts.{
  count, conn_count, stream_count, post_all-conn, post_all-stream,
}
use cpp_demo.Prelude.{ℕ, ◌+◌, ◌≡◌, refl, sym, subst, List, some, [], ◌∷◌}
use cpp_demo.Greeter.Tag.{connected, read_done, write_done}
use cpp_demo.Greeter.Server.{
  Server, Call, Outcome, done, assert_failed, request_say_hello3, on_stream, try_cancel,
  shutdown_server, shutdown_cq_conn, shutdown_cq_readwrite,
}
use cpp_demo.Greeter.Session.{read, write}
use cpp_demo.Greeter.Server.System.{System, settle, post_all, outcome, Inv}
use cpp_demo.Greeter.Server.System.Pending.{DueAt}
use cpp_demo.Greeter.Server.System.Completions.{Shares, DueAt-cong}
use cpp_demo.Greeter.Server.System.Operations.{Shared}

post_all-server : (y : System) (cs : List Call) → (post_all y cs).server ≡ y.server
post_all-server y [] = refl
post_all-server y (request_say_hello3 tag ∷ cs) = post_all-server _ cs
post_all-server y (on_stream i (read tag) ∷ cs) = post_all-server _ cs
post_all-server y (on_stream i (write message tag) ∷ cs) = post_all-server _ cs
post_all-server y (try_cancel i ∷ cs) = post_all-server y cs
post_all-server y (shutdown_server ∷ cs) = post_all-server y cs
post_all-server y (shutdown_cq_conn ∷ cs) = post_all-server y cs
post_all-server y (shutdown_cq_readwrite ∷ cs) = post_all-server y cs

-- Between two events: the invariant of the tags, and each identifier's share is what is posted.
pub record Pending (y : System) : Type 0 where
  pub inv : Inv y
  pub due :
      (i : ℕ)
      → DueAt y.server i
          (count i connected y.conn_tags)
          (count i read_done y.stream_tags)
          (count i write_done y.stream_tags)

pub settle-due :
    (y z : System) (p : Server × List Call) (i : ℕ)
    → settle y p ≡ z
    → Shared p i
        (count i connected y.conn_tags)
        (count i read_done y.stream_tags)
        (count i write_done y.stream_tags)
    → DueAt z.server i
        (count i connected z.conn_tags)
        (count i read_done z.stream_tags)
        (count i write_done z.stream_tags)
settle-due y z (sv, calls) i same h =
    let y' : System = record y { server = sv } in
    let w = post_all y' calls in
    let kept = post_all-server y' calls in
    let there : DueAt w.server i (count i connected w.conn_tags) (count i read_done w.stream_tags)
        (count i write_done w.stream_tags) =
      DueAt-cong w.server i (count i connected w.conn_tags)
        (count i connected y.conn_tags + conn_count i connected calls)
        (count i read_done w.stream_tags)
        (count i read_done y.stream_tags + stream_count i read_done calls)
        (count i write_done w.stream_tags)
        (count i write_done y.stream_tags + stream_count i write_done calls)
        (post_all-conn i connected y' calls) (post_all-stream i read_done y' calls)
        (post_all-stream i write_done y' calls)
        (subst
          (λ s.
            DueAt s i (count i connected y.conn_tags + conn_count i connected calls)
              (count i read_done y.stream_tags + stream_count i read_done calls)
              (count i write_done y.stream_tags + stream_count i write_done calls))
          (sym kept) h) in
    subst
      (λ (x : System).
        DueAt x.server i (count i connected x.conn_tags) (count i read_done x.stream_tags)
          (count i write_done x.stream_tags))
      same there

pub outcome-due :
    (y z : System) (o : Outcome) (i : ℕ)
    → outcome y o ≡ some z
    → Shares o i
        (count i connected y.conn_tags)
        (count i read_done y.stream_tags)
        (count i write_done y.stream_tags)
    → DueAt z.server i
        (count i connected z.conn_tags)
        (count i read_done z.stream_tags)
        (count i write_done z.stream_tags)
outcome-due y z (done sv calls) i e h =
    let same : settle y (sv, calls) ≡ z = cc in settle-due y z (sv, calls) i same (h sv calls refl)
outcome-due y z assert_failed i e h = cc
