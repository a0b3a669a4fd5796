-- ===== src/Tls/Ticket/Errors.antt =====
-- create_ssl_conn of tls/tls_session_ticket.cpp where a call of OpenSSL fails.
use cpp_demo.Prelude.{ℕ, ◌+◌, ◌≡◌, Bool, true, false, ◌&&◌, Option, none, some, Text, arith}
use cpp_demo.HttpProbe.{ResponseParser}
use cpp_demo.Tls.{Handshake, Visit, Probe, delete_ssl}
use cpp_demo.Tls.Balance.{made, freed, got, given_back}
use cpp_demo.Tls.Ticket.{create_ssl_conn, on_ssl, named, offer, handshake, on_tcp}

abbrev pub present : Option ℕ → Bool
present none = false
present (some s) = true

-- Each call that is made succeeds: no session is set where none is kept.
abbrev pub accepted : Option ℕ → Handshake → Bool
accepted none h = present h.ssl && (h.host_ok && h.connected)
accepted (some i) h = present h.ssl && (h.host_ok && (h.session_ok && h.connected))

-- The verdict is that of the calls.
create_ssl_conn-accepted :
    (sni : Text) (fd : ℕ) (h : Handshake) (c : Probe)
    → (create_ssl_conn sni fd h c).0 ≡ accepted c.session h
unfolding create_ssl_conn on_ssl named offer handshake
create_ssl_conn-accepted sni fd h c = ground arith

-- What a call that returns no connection leaves of the program's state `c`.
pub record Refused (c d : Probe) : Type 0 where
  pub same_session : d.session ≡ c.session
  pub same_fds : d.fds ≡ c.fds
  pub same_ends : d.ends ≡ c.ends
  pub all_freed : (s : ℕ) → made s d.calls + freed s c.calls ≡ made s c.calls + freed s d.calls
  pub none_got : (i : ℕ) → got i d.calls ≡ got i c.calls
  pub none_given : (i : ℕ) → given_back i d.calls ≡ given_back i c.calls

-- Where SSL_new gives an SSL, and a later call that is made for the connection fails, whichever it is:
-- no connection is returned; the session that was kept, the descriptors and the ends of the earlier
-- requests stay; every SSL that was made for it has been freed; no session was got or given back;
-- and the assertion behind the call ends main.
pub create_ssl_conn-Refused :
    {S : Type 0} (p : ResponseParser S) (sni request : Text) (v : Visit) (fd : ℕ) (c : Probe)
    → present v.handshake.ssl ≡ true
    → accepted c.session v.handshake ≡ false
    → let (ok, d) = create_ssl_conn sni fd v.handshake c in
      (ok ≡ false) × Refused c d × (on_tcp p sni request v (some fd) c ≡ none)
unfolding create_ssl_conn on_ssl named offer handshake delete_ssl on_tcp
create_ssl_conn-Refused p sni request v fd c m r =
    let state : Refused c (create_ssl_conn sni fd v.handshake c).1 = record {
      same_session = ground arith;
      same_fds = ground arith;
      same_ends = ground arith;
      all_freed = λ s. ground arith;
      none_got = λ i. ground arith;
      none_given = λ i. ground arith;
    } in
    (ground arith, state, ground arith)
