-- ===== src/Tls/Ticket/Visits.antt =====
-- One pass of the loops of tls/tls_session_ticket.cpp.
use cpp_demo.Prelude.{
  ◌∙◌, ℕ, zero, suc, ◌+◌, ◌≡◌, refl, ap, subst, Bool, true, false, Option, none, some, List, ◌∷◌,
  Text, if◌then◌else◌, arith, length,
}
use cpp_demo.HttpProbe.{
  ResponseParser, create_tcp_conn, create_tcp_conn-some, after_assert-some, release_head,
}
use cpp_demo.Tls.{Visit, Probe, delete_ssl, leave_scope, n_try, do_try}
use cpp_demo.Tls.Balance.{Balanced, delete_ssl-Balanced, Settled}
use cpp_demo.Tls.Offers.{offered, offer_too, newer}
use cpp_demo.Tls.Ticket.{create_ssl_conn, run_tries, on_tcp, visit}
use cpp_demo.Tls.Ticket.Connect.{create_ssl_conn-Settled, Connected, create_ssl_conn-Connected}

-- What one pass of the loop changes, if no assertion fails.
pub record Visited (fds : List ℕ) (v : Visit) (c e : Probe) : Type 0 where
  pub balanced : Balanced none e
  pub offers : offered e.calls ≡ offer_too c.session (offered c.calls)
  pub keeps : e.session ≡ newer v.handshake.ticket c.session
  pub same_fds : e.fds ≡ fds
  pub tried : length e.ends ≡ n_try + length c.ends

module _ {S : Type 0} (p : ResponseParser S) (sni request : Text) (v : Visit) where
  run_tries_same :
      (n j : ℕ) (c : Probe)
      → let d = run_tries p n j request v c in
        (d.calls ≡ c.calls)
        × (d.session ≡ c.session)
        × (d.fds ≡ c.fds)
        × (length d.ends ≡ n + length c.ends)
  unfolding run_tries do_try
  run_tries_same zero j c = (refl, refl, refl, omega arith)
  run_tries_same (suc n) j c =
      ground (arith, run_tries_same n (j + 1) (do_try p request (v.tries j) c))

  leave_scope-Visited :
      (fd : ℕ) (fds : List ℕ) (c d : Probe)
      → c.fds ≡ fd ∷ fds
      → Connected v.handshake c d
      → Balanced v.handshake.ssl d
      → Visited fds v c (leave_scope v.handshake (some fd) (run_tries p n_try 0 request v d))
  unfolding leave_scope delete_ssl
  leave_scope-Visited fd fds c d f m b =
      let same = run_tries_same n_try 0 d in
      let r = run_tries p n_try 0 request v d in
      let kept : Balanced v.handshake.ssl r = record {
        ssls = λ s. ground (arith, same, b.ssls s);
        sessions = λ i. ground (arith, same, b.sessions i);
      } in
      let over = delete_ssl-Balanced v.handshake.ssl v.handshake.shutdown_ret r kept in
      record {
        balanced = record { ssls = over.ssls; sessions = over.sessions };
        offers = ground (arith, same, m.offers);
        keeps = ground (arith, same, m.keeps);
        same_fds = ground (arith, same, m.same_fds, release_head fd fds);
        tried = ground (arith, same, m.same_ends);
      }

  on_ssl-Visited :
      (fd : ℕ) (fds : List ℕ) (c e : Probe) (ok : Bool) (d : Probe)
      → create_ssl_conn sni fd v.handshake c ≡ (ok, d)
      → c.fds ≡ fd ∷ fds
      → Settled v.handshake (ok, d)
      → (if ok
          then some (leave_scope v.handshake (some fd) (run_tries p n_try 0 request v d))
          else none)
        ≡ some e
      → Visited fds v c e
  on_ssl-Visited fd fds c e false d r f b h = cc
  on_ssl-Visited fd fds c e true d r f b h =
      let w =
        leave_scope-Visited fd fds c d f (create_ssl_conn-Connected sni fd v.handshake c d r) b in
      let same : leave_scope v.handshake (some fd) (run_tries p n_try 0 request v d) ≡ e = cc in
      subst (Visited fds v c) same w

  on_tcp-Visited :
      (conn : Option ℕ) (fds : List ℕ) (c e : Probe)
      → ((fd : ℕ) → conn ≡ some fd → c.fds ≡ fd ∷ fds)
      → Balanced none c
      → on_tcp p sni request v conn c ≡ some e
      → Visited fds v c e
  unfolding on_tcp
  on_tcp-Visited none fds c e f b h = cc
  on_tcp-Visited (some fd) fds c e f b h =
      on_ssl-Visited fd fds c e (create_ssl_conn sni fd v.handshake c).0
        (create_ssl_conn sni fd v.handshake c).1 refl (f fd refl)
        (create_ssl_conn-Settled v.handshake sni fd c b) h

  pub visit-Visited :
      (c e : Probe) → Balanced none c → visit p sni request v c ≡ some e → Visited c.fds v c e
  unfolding visit
  visit-Visited c e b h =
      let (conn, after) = create_tcp_conn v.resolved v.socket v.tcp_connected c.fds in
      let (o, made, rest) =
        after_assert-some conn (λ o. on_tcp p sni request v o (record c { fds = after })) e h in
      let w =
        on_tcp-Visited o c.fds (record c { fds = after }) e
          (λ fd q.
            create_tcp_conn-some v.resolved v.socket v.tcp_connected c.fds fd after
              (ap (λ u. (u, after)) (made ∙ ap some q)))
          (record { ssls = b.ssls; sessions = b.sessions }) rest in
      record {
        balanced = w.balanced;
        offers = w.offers;
        keeps = w.keeps;
        same_fds = w.same_fds;
        tried = w.tried;
      }
