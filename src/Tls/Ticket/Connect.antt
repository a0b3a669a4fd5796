-- ===== src/Tls/Ticket/Connect.antt =====
-- create_ssl_conn of tls/tls_session_ticket.cpp: what it makes, offers and frees.
use cpp_demo.Prelude.{ℕ, ◌≡◌, refl, sym, subst, true, Option, none, some, Text, arith}
use cpp_demo.Tls.{
  ssl_new, ssl_new_failed, set_host_name, set_fd, set_session, connect, Handshake, Probe, log,
  delete_ssl, delete_session, keep_session,
}
use cpp_demo.Tls.Balance.{Balanced, keep_session-Balanced, Settled, refused, either}
use cpp_demo.Tls.Offers.{offered, offer_too, newer}
use cpp_demo.Tls.Ticket.{handshake, offer, named, on_ssl, create_ssl_conn}

module _ (h : Handshake) where
  handshake-Settled : (s : ℕ) (c : Probe) → Balanced h.ssl c → Settled h (handshake s h c)
  unfolding handshake
  handshake-Settled s c v =
      let w : Balanced h.ssl (log (connect s c.false_start) c) = record {
        ssls = v.ssls;
        sessions = v.sessions;
      } in
      either h h.connected _ _ (keep_session-Balanced h.ssl h.ticket _ w) (refused h _ w)

  offer-Settled : (o : Option ℕ) (s : ℕ) (c : Probe) → Balanced h.ssl c → Settled h (offer o s h c)
  unfolding offer
  offer-Settled none s c v = handshake-Settled s c v
  offer-Settled (some i) s c v =
      let w : Balanced h.ssl (log (set_session s i) c) = record {
        ssls = v.ssls;
        sessions = v.sessions;
      } in
      either h h.session_ok _ _ (handshake-Settled s _ w) (refused h _ w)

  named-Settled :
      (sni : Text) (fd s : ℕ) (c : Probe) → Balanced h.ssl c → Settled h (named sni fd s h c)
  unfolding named
  named-Settled sni fd s c v =
      let w : Balanced h.ssl (log (set_host_name s sni) c) = record {
        ssls = v.ssls;
        sessions = v.sessions;
      } in
      let x : Balanced h.ssl (log (set_fd s fd) (log (set_host_name s sni) c)) = record {
        ssls = v.ssls;
        sessions = v.sessions;
      } in
      either h h.host_ok _ _ (offer-Settled c.session s _ x) (refused h _ w)

  on_ssl-Settled :
      (sni : Text) (fd : ℕ) (o : Option ℕ) (c : Probe)
      → h.ssl ≡ o
      → Balanced none c
      → Settled h (on_ssl sni fd o h c)
  unfolding on_ssl
  on_ssl-Settled sni fd none c e v = refused h _ (
      subst (λ o. Balanced o (log ssl_new_failed c)) (sym e)
        (record { ssls = v.ssls; sessions = v.sessions }))
  on_ssl-Settled sni fd (some s) c e v = named-Settled sni fd s _ (
      subst (λ o. Balanced o (log (ssl_new s) c)) (sym e)
        (record { ssls = λ t. ground (arith, v.ssls t); sessions = v.sessions }))

  pub create_ssl_conn-Settled :
      (sni : Text) (fd : ℕ) (c : Probe) → Balanced none c → Settled h (create_ssl_conn sni fd h c)
  unfolding create_ssl_conn
  create_ssl_conn-Settled sni fd c v = on_ssl-Settled sni fd h.ssl c refl v

-- What a connection that is made changes.
pub record Connected (h : Handshake) (c d : Probe) : Type 0 where
  pub offers : offered d.calls ≡ offer_too c.session (offered c.calls)
  pub keeps : d.session ≡ newer h.ticket c.session
  pub same_fds : d.fds ≡ c.fds
  pub same_ends : d.ends ≡ c.ends

pub create_ssl_conn-Connected :
    (sni : Text) (fd : ℕ) (h : Handshake) (c d : Probe)
    → create_ssl_conn sni fd h c ≡ (true, d)
    → Connected h c d
unfolding create_ssl_conn on_ssl named offer handshake keep_session delete_session delete_ssl
create_ssl_conn-Connected sni fd h c d e = record {
  offers = ground arith;
  keeps = ground arith;
  same_fds = ground arith;
  same_ends = ground arith;
}
