-- ===== src/Tls/FalseStart.antt =====
-- tls/tls_false_start.cpp: like the session probe, but the order of the calls differs, the session is
-- taken behind the first request, and the flag `optimize_level` says whether sessions are reused (from
-- 1 on) and whether false start is on until the first session is got (from 2 on); a level below 0 is as 0.
mod Connect
mod Visits
pub mod Mode
pub mod Program
mod Tests
use cpp_demo.Prelude.{
  ℕ, zero, suc, ◌+◌, ◌&&◌, Bool, true, false, Option, none, some, List, [], ◌∷◌, Text,
  if◌then◌else◌, leb, ◌==◌,
}
use cpp_demo.HttpProbe.{ResponseParser, create_tcp_conn, after_assert}
use cpp_demo.Tls.{
  Call, ssl_new, ssl_new_failed, set_host_name, set_fd, set_session, connect, Handshake, Visit,
  Probe, log, delete_ssl, keep_session, leave_scope, n_try, do_try,
}

handshake : ℕ → Handshake → Probe → Bool × Probe
handshake s h c =
    let d = log (connect s c.false_start) c in
    if h.connected then (true, d) else (false, delete_ssl h.ssl h.shutdown_ret d)

-- `optimize_level >= 1 && session`
usable : ℕ → Option ℕ → Option ℕ
usable level session = if leb 1 level then session else none

offer : Option ℕ → ℕ → Handshake → Probe → Bool × Probe
unfolding handshake
offer none s h c = handshake s h c
offer (some i) s h c =
    let d = log (set_session s i) c in
    if h.session_ok then handshake s h d else (false, delete_ssl h.ssl h.shutdown_ret d)

named : ℕ → Text → ℕ → ℕ → Handshake → Probe → Bool × Probe
unfolding offer usable
named level sni fd s h c =
    let d = log (set_host_name s sni) (log (set_fd s fd) c) in
    if h.host_ok
    then offer (usable level c.session) s h d
    else (false, delete_ssl h.ssl h.shutdown_ret d)

on_ssl : ℕ → Text → ℕ → Option ℕ → Handshake → Probe → Bool × Probe
unfolding named
on_ssl level sni fd none h c = (false, delete_ssl h.ssl h.shutdown_ret (log ssl_new_failed c))
on_ssl level sni fd (some s) h c = named level sni fd s h (log (ssl_new s) c)

unfoldable pub create_ssl_conn : ℕ → Text → ℕ → Handshake → Probe → Bool × Probe
unfolding on_ssl
create_ssl_conn level sni fd h c = on_ssl level sni fd h.ssl h c

-- SSL_CTX_clear_mode, from level 2 on.
clear_mode : ℕ → Probe → Probe
clear_mode level c = if leb 2 level then record c { false_start = false } else c

-- Behind the first request: the session is kept if there is one, and then false start is put off.
unfoldable pub take_session : ℕ → Option ℕ → Probe → Probe
unfolding clear_mode
take_session level none c = c
take_session level (some i) c = clear_mode level (keep_session (some i) c)

module _ {S : Type 0} (p : ResponseParser S) where
  -- The loop over the tries; `if (j) continue;`
  run_tries : ℕ → ℕ → ℕ → Text → Visit → Probe → Probe
  run_tries zero j level request v c = c
  run_tries (suc n) j level request v c =
      let d = do_try p request (v.tries j) c in
      run_tries n (j + 1) level request v
        (if j == 0 then take_session level v.handshake.ticket d else d)

  on_tcp : ℕ → Text → Text → Visit → Option ℕ → Probe → Option Probe
  unfolding run_tries
  on_tcp level sni request v none c = none
  on_tcp level sni request v (some fd) c =
      let (ok, d) = create_ssl_conn level sni fd v.handshake c in
      if ok
      then some (leave_scope v.handshake (some fd) (run_tries n_try 0 level request v d))
      else none

  -- The body of the loop over the targets. `none` where an assertion fails.
  unfoldable pub visit : ℕ → Text → Text → Visit → Probe → Option Probe
  unfolding on_tcp
  visit level sni request v c =
      let (conn, fds) = create_tcp_conn v.resolved v.socket v.tcp_connected c.fds in
      after_assert conn (λ o. on_tcp level sni request v o (record c { fds = fds }))

  -- The two loops of main, whose passes are one list.
  unfoldable pub visit_all : ℕ → Text → Text → List Visit → Probe → Option Probe
  visit_all level sni request [] c = some c
  visit_all level sni request (v ∷ vs) c = elim (visit level sni request v c) [
    | none ↦ none
    | some d ↦ visit_all level sni request vs d
  ]

-- main before its loops, with the descriptors that are open.
unfoldable pub begin_main : ℕ → List ℕ → Probe
begin_main level fds = record {
  session = none;
  false_start = leb 2 level;
  fds = fds;
  ends = [];
  calls = [];
}
