-- ===== src/Tls/Ticket/Resumption.antt =====
-- What tls/tls_session_ticket.cpp does over a run: its objects, and the sessions it offers.
use cpp_demo.Prelude.{
  present, ℕ, ◌+◌, ◌*◌, All, ◌≡◌, refl, ◌∙◌, true, none, some, List, [], ◌∷◌, Text, arith,
  Option-cases, inl, inr, length,
}
use cpp_demo.HttpProbe.{ResponseParser, create_tcp_conn}
use cpp_demo.Tls.{end_main, Handshake, Visit, Probe, delete_session, leave_scope, n_try}
use cpp_demo.Tls.Balance.{end_main-Balanced, Balanced}
use cpp_demo.Tls.Offers.{offered, offers_of, succeeds}
use cpp_demo.Tls.Ticket.{
  handshake, offer, named, on_ssl, create_ssl_conn, run_tries, on_tcp, visit, visit_all,
}
use cpp_demo.Tls.Ticket.Visits.{Visited, visit-Visited}

-- What a run leaves.
pub record RunOf (vs : List Visit) (c e : Probe) : Type 0 where
  pub balanced : Balanced none e
  pub no_session : e.session ≡ none
  pub offers : offered e.calls ≡ offers_of c.session (offered c.calls) vs
  pub same_fds : e.fds ≡ c.fds
  pub tried : length e.ends ≡ n_try * length vs + length c.ends

module _ {S : Type 0} (p : ResponseParser S) (sni request : Text) where
  create_ssl_conn-succeeds :
      (fd : ℕ) (h : Handshake) (c : Probe)
      → present h.ssl ≡ true
      → h.host_ok ≡ true
      → h.session_ok ≡ true
      → h.connected ≡ true
      → (create_ssl_conn sni fd h c).0 ≡ true
  unfolding create_ssl_conn on_ssl named offer handshake
  create_ssl_conn-succeeds fd h c s o i k = ground arith

  on_tcp-succeeds :
      (v : Visit) (fd : ℕ) (c : Probe)
      → (create_ssl_conn sni fd v.handshake c).0 ≡ true
      → (e : Probe) × (on_tcp p sni request v (some fd) c ≡ some e)
  unfolding on_tcp
  on_tcp-succeeds v fd c k = (
    leave_scope v.handshake (some fd)
        (run_tries p n_try 0 request v (create_ssl_conn sni fd v.handshake c).1),
    ground arith,
  )

  visit-succeeds :
      (v : Visit) (c : Probe) → succeeds v ≡ true → (e : Probe) × (visit p sni request v c ≡ some e)
  unfolding visit create_tcp_conn
  visit-succeeds v c h = elim (Option-cases v.socket) [
    | inl none' ↦ absurd (ground arith)
    | inr (fd, some') ↦
        let d : Probe = record c { fds = fd ∷ c.fds } in
        let ok =
          create_ssl_conn-succeeds fd v.handshake d (ground arith) (ground arith) (ground arith)
            (ground arith) in
        let (e, done) = on_tcp-succeeds v fd d ok in (e, ground (arith, done))
  ]

  end_main-RunOf : (c : Probe) → Balanced none c → RunOf [] c (end_main c)
  unfolding end_main delete_session
  end_main-RunOf c b = record {
    balanced = end_main-Balanced none c b;
    no_session = refl;
    offers = ground arith;
    same_fds = ground arith;
    tried = ground arith;
  }

  more-RunOf :
      (v : Visit) (vs : List Visit) (c d e : Probe)
      → Visited c.fds v c d
      → RunOf vs d e
      → RunOf (v ∷ vs) c e
  more-RunOf v vs c d e w r = record {
    balanced = r.balanced;
    no_session = r.no_session;
    offers = ground (arith, w.offers, w.keeps, r.offers);
    same_fds = r.same_fds ∙ w.same_fds;
    tried = ground (arith, r.tried, w.tried);
  }

  -- Where every call of every visit succeeds, no assertion fails; each SSL that was made is freed, and
  -- each session that was got is given back, as often; the open descriptors are as before; each
  -- connection has offered the last session that was got before it, if any; and each visit has tried
  -- its three requests.
  pub visit_all-RunOf :
      (vs : List Visit) (c : Probe)
      → Balanced none c
      → All (λ v. succeeds v ≡ true) vs
      → (e : Probe) × (visit_all p sni request vs c ≡ some e) × RunOf vs c (end_main e)
  unfolding visit_all
  visit_all-RunOf [] c b h = (c, refl, end_main-RunOf c b)
  visit_all-RunOf (v ∷ vs) c b h =
      let (d, done) = visit-succeeds v c h.0 in
      let w = visit-Visited p sni request v c d b done in
      let (e, rest, r) = visit_all-RunOf vs d w.balanced h.1 in
      (e, ground (arith, done, rest), more-RunOf v vs c d (end_main e) w r)
