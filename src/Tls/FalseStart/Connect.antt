-- ===== src/Tls/FalseStart/Connect.antt =====
-- create_ssl_conn of tls/tls_false_start.cpp: what it makes, offers and frees.
use cpp_demo.Prelude.{
  ℕ, ◌≡◌, refl, sym, subst, Bool, true, Option, none, some, List, [], ◌∷◌, Text, if◌then◌else◌, leb,
  arith,
}
use cpp_demo.Tls.{
  Call, ssl_new, ssl_new_failed, set_host_name, set_fd, set_session, connect, Handshake, Probe, log,
  delete_ssl,
}
use cpp_demo.Tls.Balance.{Balanced, Settled, refused, either}
use cpp_demo.Tls.Offers.{offered, offer_too}
use cpp_demo.Tls.FalseStart.{handshake, usable, offer, named, on_ssl, create_ssl_conn}

module _ (h : Handshake) where
  handshake-Settled : (s : ℕ) (c : Probe) → Balanced h.ssl c → Settled h (handshake s h c)
  unfolding handshake
  handshake-Settled s c v =
      let w : Balanced h.ssl (log (connect s c.false_start) c) = record {
        ssls = v.ssls;
        sessions = v.sessions;
      } in
      either h h.connected _ _ w (refused h _ w)

  offer-Settled : (o : Option ℕ) (s : ℕ) (c : Probe) → Balanced h.ssl c → Settled h (offer o s h c)
  unfolding offer
  offer-Settled none s c v = handshake-Settled s c v
  offer-Settled (some i) s c v =
      let w : Balanced h.ssl (log (set_session s i) c) = record {
        ssls = v.ssls;
        sessions = v.sessions;
      } in
      either h h.session_ok _ _ (handshake-Settled s _ w) (refused h _ w)

module _ (level : ℕ) (h : Handshake) where
  named-Settled :
      (sni : Text) (fd s : ℕ) (c : Probe) → Balanced h.ssl c → Settled h (named level sni fd s h c)
  unfolding named
  named-Settled sni fd s c v =
      let w : Balanced h.ssl (log (set_host_name s sni) (log (set_fd s fd) c)) = record {
        ssls = v.ssls;
        sessions = v.sessions;
      } in
      either h h.host_ok _ _ (offer-Settled h (usable level c.session) s _ w) (refused h _ w)

  on_ssl-Settled :
      (sni : Text) (fd : ℕ) (o : Option ℕ) (c : Probe)
      → h.ssl ≡ o
      → Balanced none c
      → Settled h (on_ssl level sni fd o h c)
  unfolding on_ssl
  on_ssl-Settled sni fd none c e v = refused h _ (
      subst (λ o. Balanced o (log ssl_new_failed c)) (sym e)
        (record { ssls = v.ssls; sessions = v.sessions }))
  on_ssl-Settled sni fd (some s) c e v = named-Settled sni fd s _ (
      subst (λ o. Balanced o (log (ssl_new s) c)) (sym e)
        (record { ssls = λ t. ground (arith, v.ssls t); sessions = v.sessions }))

  pub create_ssl_conn-Settled :
      (sni : Text) (fd : ℕ) (c : Probe)
      → Balanced none c
      → Settled h (create_ssl_conn level sni fd h c)
  unfolding create_ssl_conn
  create_ssl_conn-Settled sni fd c v = on_ssl-Settled sni fd h.ssl c refl v

-- The modes of the handshakes, newest first.
abbrev pub modes : List Call → List Bool
modes [] = []
modes (connect s b ∷ cs) = b ∷ modes cs
modes (_ ∷ cs) = modes cs

-- What a connection that is made changes.
pub record Connected (level : ℕ) (c d : Probe) : Type 0 where
  pub offers :
      offered d.calls ≡ offer_too (if leb 1 level then c.session else none) (offered c.calls)
  pub starts : modes d.calls ≡ c.false_start ∷ modes c.calls
  pub same_session : d.session ≡ c.session
  pub same_mode : d.false_start ≡ c.false_start
  pub same_fds : d.fds ≡ c.fds
  pub same_ends : d.ends ≡ c.ends

pub create_ssl_conn-Connected :
    (level : ℕ) (sni : Text) (fd : ℕ) (h : Handshake) (c d : Probe)
    → create_ssl_conn level sni fd h c ≡ (true, d)
    → Connected level c d
unfolding create_ssl_conn on_ssl named usable offer handshake delete_ssl
create_ssl_conn-Connected level sni fd h c d e = record {
  offers = ground arith;
  starts = ground arith;
  same_session = ground arith;
  same_mode = ground arith;
  same_fds = ground arith;
  same_ends = ground arith;
}
