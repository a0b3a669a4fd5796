-- ===== src/Echo/Sharing.antt =====
-- How long the texts of asio/buffer/reference_counted_buffer.cpp live.
use cpp_demo.Prelude.{
  ℕ, ◌≡◌, refl, true, false, List, [], ◌∷◌, Text, length, Option, none, some, arith,
}
use cpp_demo.Echo.{
  Pending, writing, reading, closed, response, received, do_write_shared, do_read, on_written,
  on_read,
}
use cpp_demo.Echo.Handlers.{Completion, wrote_part, written, received_some}
use cpp_demo.Echo.Placement.{Reportable}
use cpp_demo.Echo.SharedBuffers.{
  Vector, Vectors, shared_const_buffer, copy_buffer, end_buffer, Talk, begin_write, start_talk,
  talk,
}

-- The live vectors are those that the pending operation needs.
abbrev pub Needed : Pending → Option ℕ → List Vector → Type 0
Needed (writing text) (some a) live =
    live ≡ record { address = a; contents = text; owners = 1 } ∷ []
Needed (writing text) none live = ⊥
Needed reading none live = live ≡ []
Needed reading (some a) live = ⊥
Needed closed none live = live ≡ []
Needed closed (some a) live = ⊥

abbrev pub Alive : Talk → Type 0
Alive t = Needed t.connection.pending t.sending t.vectors.live

ended :
    (a : ℕ) (text : Text) (v : Vectors)
    → v.live ≡ record { address = a; contents = text; owners = 1 } ∷ []
    → (end_buffer a v).live ≡ []
unfolding end_buffer
ended a text v e = rw e (ground arith)

begun :
    (text : Text) (v : Vectors)
    → v.live ≡ []
    → let (a, w) = shared_const_buffer text v in
      (end_buffer a (copy_buffer a w)).live
      ≡ record { address = a; contents = text; owners = 1 } ∷ []
unfolding shared_const_buffer copy_buffer end_buffer
begun text v e = rw e (ground arith)

pub data History (t : Talk) : Talk → Type 0 where
  opening : History t t
  further :
      {u : Talk}
      → History t u
      → (e : Completion) → Reportable e u.connection.pending
      → History t (talk e u)

step_Alive :
    (buffer : Text) (q : Pending) (v : Vectors) (o : Option ℕ) (e : Completion)
    → Reportable e q
    → Needed q o v.live
    → Alive (
        talk e (record {
          connection = record { buffer = buffer; pending = q };
          vectors = v;
          sending = o;
        }))
unfolding talk on_written on_read do_read do_write_shared
step_Alive buffer (writing t) v (some a) wrote_part r h = h
step_Alive buffer (writing t) v (some a) (written true) r h = ended a t v h
step_Alive buffer (writing t) v (some a) (written false) r h = ended a t v h
step_Alive buffer reading v none (received_some true bytes daytime) r h = h
step_Alive buffer reading v none (received_some false bytes daytime) r h =
    begun (response (received bytes buffer) (length bytes) daytime) v h
step_Alive buffer (writing t) v none e r h = absurd h
step_Alive buffer (writing t) v (some a) (received_some failed bytes daytime) r h = absurd r
step_Alive buffer reading v none wrote_part r h = absurd r
step_Alive buffer reading v none (written failed) r h = absurd r
step_Alive buffer reading v (some a) e r h = absurd h
step_Alive buffer closed v o wrote_part r h = absurd r
step_Alive buffer closed v o (written failed) r h = absurd r
step_Alive buffer closed v o (received_some failed bytes daytime) r h = absurd r

start_talk-Alive : (buffer daytime : Text) → Alive (start_talk buffer daytime)
unfolding start_talk do_write_shared begin_write shared_const_buffer copy_buffer end_buffer
start_talk-Alive buffer daytime = refl

History_Alive : {t u : Talk} → Alive t → History t u → Alive u
History_Alive a opening = a
History_Alive a (further {u = u} r e p) =
    step_Alive u.connection.buffer u.connection.pending u.vectors u.sending e p (History_Alive a r)

-- From the start of a connection on, whatever succeeds and fails: while a write is pending, the one
-- vector that lives has its whole text and one owner, the operation's buffer; while a read is
-- pending, and when the connection has ended, no vector lives.
pub text_lives :
    (buffer daytime : Text) (t : Talk) → History (start_talk buffer daytime) t → Alive t
text_lives buffer daytime t r = History_Alive (start_talk-Alive buffer daytime) r
