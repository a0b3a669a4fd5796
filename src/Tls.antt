-- ===== src/Tls.antt =====
-- The TLS probes tls/tls_session_ticket.cpp and tls/tls_false_start.cpp: what they share. OpenSSL is
-- the results of its calls, which are arguments; each call of it that makes, uses or frees an object
-- is logged, newest first. An SSL and an SSL_SESSION are the numbers of their addresses.
mod Balance
mod Offers
mod Passes
mod Examples
pub mod Ticket
pub mod FalseStart
use cpp_demo.Prelude.{
  ℕ, zero, suc, ◌+◌, Bool, true, false, Option, none, some, List, [], ◌∷◌, Text, ◌==◌,
  if◌then◌else◌,
}
use cpp_demo.HttpProbe.{End, ReadResult, ResponseParser, do_http, release}

-- `connect` has the context's mode, which SSL_new copies.
pub data Call : Type 0 where
  ssl_new : ℕ → Call
  ssl_new_failed : Call
  set_host_name : ℕ → Text → Call
  set_fd : ℕ → ℕ → Call
  set_session : ℕ → ℕ → Call
  connect : ℕ → Bool → Call
  get1_session : ℕ → Call
  session_free : ℕ → Call
  shutdown : Option ℕ → Call
  ssl_free : Option ℕ → Call

-- The results that OpenSSL gives for one connection: SSL_new, null or an SSL; whether the host name,
-- the session and the handshake are accepted; the session that SSL_get1_session gives, if any; and
-- what the first SSL_shutdown returns.
pub record Handshake : Type 0 where
  pub ssl : Option ℕ
  pub host_ok : Bool
  pub session_ok : Bool
  pub connected : Bool
  pub ticket : Option ℕ
  pub shutdown_ret : ℕ

-- One request: the bytes that SSL_write takes, and the results of SSL_read, behind which a read fails.
pub record Try : Type 0 where
  pub written : ℕ
  pub reads : List ReadResult

-- What one pass of the inner loop meets.
pub record Visit : Type 0 where
  pub resolved : Bool
  pub socket : Option ℕ
  pub tcp_connected : Bool
  pub handshake : Handshake
  pub tries : ℕ → Try

-- The program's state: the shared pointer `session`, SSL_MODE_ENABLE_FALSE_START of the context, the
-- open descriptors, the ends of the requests so far, and the log.
pub record Probe : Type 0 where
  pub session : Option ℕ
  pub false_start : Bool
  pub fds : List ℕ
  pub ends : List End
  pub calls : List Call

abbrev pub log : Call → Probe → Probe
log x c = record c { calls = x ∷ c.calls }

-- The deleter of the shared pointer to the SSL, which runs on a null pointer too. What
-- SSL_shutdown does on null is not defined by OpenSSL; the log then has `shutdown none`.
unfoldable pub delete_ssl : Option ℕ → ℕ → Probe → Probe
delete_ssl ssl ret c =
    let once = log (shutdown ssl) c in
    log (ssl_free ssl) (if ret == 0 then log (shutdown ssl) once else once)

-- The deleter of the shared pointer to the session.
unfoldable pub delete_session : Option ℕ → Probe → Probe
delete_session none c = c
delete_session (some i) c = log (session_free i) c

-- `session.reset(SSL_get1_session(...))` where that is not null.
unfoldable pub keep_session : Option ℕ → Probe → Probe
unfolding delete_session
keep_session none c = c
keep_session (some i) c = record (delete_session c.session (log (get1_session i) c)) {
  session = some i;
}

-- The end of main: the shared pointer to the session goes.
unfoldable pub end_main : Probe → Probe
unfolding delete_session
end_main c = record (delete_session c.session c) { session = none }

-- Behind the two assertions' scope: the SSL goes first, then the descriptor.
unfoldable pub leave_scope : Handshake → Option ℕ → Probe → Probe
leave_scope h fd c =
    let d = delete_ssl h.ssl h.shutdown_ret c in record d { fds = release fd d.fds }

-- N_TRY
abbrev pub n_try : ℕ
n_try = 3

module _ {S : Type 0} (p : ResponseParser S) where
  -- One call of do_http_over_ssl.
  unfoldable pub do_try : Text → Try → Probe → Probe
  do_try request t c = record c { ends = do_http p request t.written t.reads ∷ c.ends }
