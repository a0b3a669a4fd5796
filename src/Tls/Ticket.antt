-- ===== src/Tls/Ticket.antt =====
-- tls/tls_session_ticket.cpp: a session that a connection has got is offered by the next one.
mod Connect
pub mod Errors
pub mod Info
pub mod Printed
mod Visits
pub mod Resumption
pub mod Program
mod Tests
use cpp_demo.Prelude.{
  ℕ, zero, suc, ◌+◌, Bool, true, false, Option, none, some, List, [], ◌∷◌, Text, if◌then◌else◌,
}
use cpp_demo.HttpProbe.{ResponseParser, create_tcp_conn, after_assert}
use cpp_demo.Tls.{
  Call, ssl_new, ssl_new_failed, set_host_name, set_fd, set_session, connect, Handshake, Visit,
  Probe, log, delete_ssl, delete_session, keep_session, leave_scope, n_try, do_try,
}

-- SSL_connect, and the session that is taken from the connection.
handshake : ℕ → Handshake → Probe → Bool × Probe
handshake s h c =
    let d = log (connect s c.false_start) c in
    if h.connected
    then (true, keep_session h.ticket d)
    else (false, delete_ssl h.ssl h.shutdown_ret d)

offer : Option ℕ → ℕ → Handshake → Probe → Bool × Probe
unfolding handshake
offer none s h c = handshake s h c
offer (some i) s h c =
    let d = log (set_session s i) c in
    if h.session_ok then handshake s h d else (false, delete_ssl h.ssl h.shutdown_ret d)

named : Text → ℕ → ℕ → Handshake → Probe → Bool × Probe
unfolding offer
named sni fd s h c =
    let d = log (set_host_name s sni) c in
    if h.host_ok
    then offer c.session s h (log (set_fd s fd) d)
    else (false, delete_ssl h.ssl h.shutdown_ret d)

on_ssl : Text → ℕ → Option ℕ → Handshake → Probe → Bool × Probe
unfolding named
on_ssl sni fd none h c = (false, delete_ssl h.ssl h.shutdown_ret (log ssl_new_failed c))
on_ssl sni fd (some s) h c = named sni fd s h (log (ssl_new s) c)

-- The result says whether the pointer that is returned is not null.
unfoldable pub create_ssl_conn : Text → ℕ → Handshake → Probe → Bool × Probe
unfolding on_ssl
create_ssl_conn sni fd h c = on_ssl sni fd h.ssl h c

module _ {S : Type 0} (p : ResponseParser S) where
  run_tries : ℕ → ℕ → Text → Visit → Probe → Probe
  run_tries zero j request v c = c
  run_tries (suc n) j request v c = run_tries n (j + 1) request v (do_try p request (v.tries j) c)

  pub on_tcp : Text → Text → Visit → Option ℕ → Probe → Option Probe
  unfolding run_tries
  on_tcp sni request v none c = none
  on_tcp sni request v (some fd) c =
      let (ok, d) = create_ssl_conn sni fd v.handshake c in
      if ok then some (leave_scope v.handshake (some fd) (run_tries n_try 0 request v d)) else none

  -- The body of the loop over the targets. `none` where an assertion fails.
  unfoldable pub visit : Text → Text → Visit → Probe → Option Probe
  unfolding on_tcp
  visit sni request v c =
      let (conn, fds) = create_tcp_conn v.resolved v.socket v.tcp_connected c.fds in
      after_assert conn (λ o. on_tcp sni request v o (record c { fds = fds }))

  -- The two loops of main, whose passes are one list.
  unfoldable pub visit_all : Text → Text → List Visit → Probe → Option Probe
  visit_all sni request [] c = some c
  visit_all sni request (v ∷ vs) c = elim (visit sni request v c) [
    | none ↦ none
    | some d ↦ visit_all sni request vs d
  ]
