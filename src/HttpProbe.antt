-- ===== src/HttpProbe.antt =====
-- http/tcp_reuse.cpp: a request over a new connection, and the same in tls/tls_session_ticket.cpp,
-- where SSL_write and SSL_read stand for write and read. base::http's ResponseParser is a parameter;
-- the results of the system's calls are arguments. Printing is left out.
pub mod Passes
pub mod Program
mod Tests
use cpp_demo.Prelude.{
  ℕ, ◌≡◌, refl, sym, ap, ◌∙◌, Bool, true, false, ◌&&◌, not, Option, none, some, List, [], ◌∷◌, ◌++◌,
  map, append-nil, Text, length, ◌==◌, if◌then◌else◌, arith, ltb, ◌<◌,
}

pub data Status : Type 0 where
  good bad indeterminate : Status

-- ResponseParser, whose state is an `S`: it reads a text in pieces.
pub record ResponseParser (S : Type 0) : Type 0 where
  pub initial : S
  pub parse : Text → S → S × Status

-- `nr` is the length of the text, or is not positive.
pub data ReadResult : Type 0 where
  got : Text → ReadResult
  stopped : ReadResult

-- Why the function returns.
pub data End : Type 0 where
  write_short read_stopped complete invalid_response : End

module _ {S : Type 0} (p : ResponseParser S) where
  -- Behind the parse of a piece; `rest` is the rest of the loop.
  after_parse : S × Status → (S → End) → End
  after_parse (s, good) rest = complete
  after_parse (s, bad) rest = invalid_response
  after_parse (s, indeterminate) rest = rest s

  -- The `do` loop. Each read returns; behind those of the list, one that brings no bytes.
  unfoldable pub read_loop : List ReadResult → S → End
  unfolding after_parse
  read_loop [] s = read_stopped
  read_loop (stopped ∷ rs) s = read_stopped
  read_loop (got t ∷ rs) s = after_parse (p.parse t s) (read_loop rs)

  -- do_http, with the formatted request, the bytes that were written, and the reads.
  unfoldable pub do_http : Text → ℕ → List ReadResult → End
  do_http request nw rs = if nw == length request then read_loop rs p.initial else write_short

-- create_tcp_conn, on the descriptors that are open: whether the name resolves, the descriptor or -1,
-- and whether the connection is made. The first result is `none` where `assert(fd > 0)` fails, and
-- else the pointer that is returned.
unfoldable pub create_tcp_conn : Bool → Option ℕ → Bool → List ℕ → Option (Option ℕ) × List ℕ
create_tcp_conn resolved none connected fds = (some none, fds)
create_tcp_conn resolved (some fd) connected fds =
    if resolved
    then (if connected then (if ltb 0 fd then some (some fd) else none) else some none, fd ∷ fds)
    else (some none, fds)

-- What follows a call of create_tcp_conn.
abbrev pub after_assert : {P : Type 0} → Option (Option ℕ) → (Option ℕ → Option P) → Option P
after_assert none rest = none
after_assert (some conn) rest = rest conn

pub after_assert-some :
    {P : Type 0} (conn : Option (Option ℕ)) (rest : Option ℕ → Option P) (e : P)
    → after_assert conn rest ≡ some e
    → (o : Option ℕ) × (conn ≡ some o) × (rest o ≡ some e)
after_assert-some none rest e h = cc
after_assert-some (some o) rest e h = (o, refl, h)

-- The socket is made, and its descriptor is not 0.
abbrev pub opened : Option ℕ → Bool
opened none = false
opened (some fd) = ltb 0 fd

close : ℕ → List ℕ → List ℕ
close fd [] = []
close fd (x ∷ xs) = if x == fd then xs else x ∷ close fd xs

-- The deleter of the shared pointer, which has nothing to do for a null one.
unfoldable pub release : Option ℕ → List ℕ → List ℕ
unfolding close
release none fds = fds
release (some fd) fds = close fd fds

-- A connection that is made stands first among the open descriptors, and its release takes it away.
pub create_tcp_conn-some :
    (resolved : Bool) (socket : Option ℕ) (connected : Bool) (fds : List ℕ) (fd : ℕ)
    (after : List ℕ)
    → create_tcp_conn resolved socket connected fds ≡ (some (some fd), after)
    → after ≡ fd ∷ fds
unfolding create_tcp_conn
create_tcp_conn-some resolved none connected fds fd after e = cc
create_tcp_conn-some resolved (some k) connected fds fd after e = ground arith

pub release_head : (fd : ℕ) (fds : List ℕ) → release (some fd) (fd ∷ fds) ≡ fds
unfolding release
release_head fd fds = ground arith

-- With a descriptor above 0: a connection that is made and let go leaves the open descriptors as they
-- were, and so does a name that does not resolve; where connect fails, the socket stays open.
pub release-create_tcp_conn :
    (resolved connected : Bool) (fd : ℕ) (fds : List ℕ)
    → 0 < fd
    → let (conn, after) = create_tcp_conn resolved (some fd) connected fds in
      after_assert conn (λ o. some (release o after))
      ≡ some (if resolved && not connected then fd ∷ fds else fds)
unfolding create_tcp_conn release
release-create_tcp_conn true true fd fds h = ground arith
release-create_tcp_conn true false fd fds h = refl
release-create_tcp_conn false connected fd fds h = refl
