-- ===== src/Tls/FalseStart/Visits.antt =====
-- One pass of the loops of tls/tls_false_start.cpp.
use cpp_demo.Prelude.{
  ◌∙◌, present, ℕ, ◌+◌, ◌&&◌, ◌≡◌, refl, ap, subst, Bool, true, false, Option, none, some, List,
  ◌∷◌, Text, if◌then◌else◌, leb, arith, Option-cases, inl, inr, length,
}
use cpp_demo.HttpProbe.{
  ResponseParser, create_tcp_conn, create_tcp_conn-some, after_assert-some, release_head,
}
use cpp_demo.Tls.{
  Handshake, Visit, Probe, delete_ssl, delete_session, keep_session, leave_scope, n_try, do_try,
}
use cpp_demo.Tls.Balance.{Balanced, delete_ssl-Balanced, Settled}
use cpp_demo.Tls.Offers.{offered, offer_too, newer, succeeds}
use cpp_demo.Tls.FalseStart.{
  handshake, offer, named, on_ssl, create_ssl_conn, clear_mode, take_session, run_tries, on_tcp,
  visit,
}
use cpp_demo.Tls.FalseStart.Connect.{
  create_ssl_conn-Settled, modes, Connected, create_ssl_conn-Connected,
}

-- What the tries change.
record Tried (level : ℕ) (v : Visit) (c d : Probe) : Type 0 where
  pub balanced : Balanced v.handshake.ssl d
  pub offers : offered d.calls ≡ offered c.calls
  pub starts : modes d.calls ≡ modes c.calls
  pub keeps : d.session ≡ newer v.handshake.ticket c.session
  pub mode :
      d.false_start ≡ (if leb 2 level && present v.handshake.ticket then false else c.false_start)
  pub same_fds : d.fds ≡ c.fds
  pub tried : length d.ends ≡ n_try + length c.ends

module _ {S : Type 0} (p : ResponseParser S) (level : ℕ) (request : Text) (v : Visit) where
  run_tries-Tried :
      (c : Probe)
      → Balanced v.handshake.ssl c
      → Tried level v c (run_tries p n_try 0 level request v c)
  unfolding run_tries do_try take_session clear_mode keep_session delete_session
  run_tries-Tried c b = record {
    balanced = record {
      ssls = λ s. ground (arith, b.ssls s);
      sessions = λ i. ground (arith, b.sessions i);
    };
    offers = ground arith;
    starts = ground arith;
    keeps = ground arith;
    mode = ground arith;
    same_fds = ground arith;
    tried = ground arith;
  }

-- What one pass of the loop changes, if no assertion fails.
pub record Visited (level : ℕ) (fds : List ℕ) (v : Visit) (c e : Probe) : Type 0 where
  pub balanced : Balanced none e
  pub offers :
      offered e.calls ≡ offer_too (if leb 1 level then c.session else none) (offered c.calls)
  pub starts : modes e.calls ≡ c.false_start ∷ modes c.calls
  pub keeps : e.session ≡ newer v.handshake.ticket c.session
  pub mode :
      e.false_start ≡ (if leb 2 level && present v.handshake.ticket then false else c.false_start)
  pub same_fds : e.fds ≡ fds
  pub tried : length e.ends ≡ n_try + length c.ends

module _ (level : ℕ) (v : Visit) where
  leave_scope-Visited :
      (fd : ℕ) (fds : List ℕ) (c d r : Probe)
      → c.fds ≡ fd ∷ fds
      → Connected level c d
      → Tried level v d r
      → Visited level fds v c (leave_scope v.handshake (some fd) r)
  unfolding leave_scope delete_ssl
  leave_scope-Visited fd fds c d r f m t =
      let over = delete_ssl-Balanced v.handshake.ssl v.handshake.shutdown_ret r t.balanced in
      record {
        balanced = record { ssls = over.ssls; sessions = over.sessions };
        offers = ground (arith, t.offers, m.offers);
        starts = ground (arith, t.starts, m.starts);
        keeps = ground (arith, t.keeps, m.same_session);
        mode = ground (arith, t.mode, m.same_mode);
        same_fds = ground (arith, t.same_fds, m.same_fds, release_head fd fds);
        tried = ground (arith, t.tried, m.same_ends);
      }

module _ {S : Type 0} (p : ResponseParser S) (level : ℕ) (sni request : Text) where
  on_ssl-Visited :
      (v : Visit) (fd : ℕ) (fds : List ℕ) (c e : Probe) (ok : Bool) (d : Probe)
      → create_ssl_conn level sni fd v.handshake c ≡ (ok, d)
      → c.fds ≡ fd ∷ fds
      → Settled v.handshake (ok, d)
      → (if ok
          then some (leave_scope v.handshake (some fd) (run_tries p n_try 0 level request v d))
          else none)
        ≡ some e
      → Visited level fds v c e
  on_ssl-Visited v fd fds c e false d r f b h = cc
  on_ssl-Visited v fd fds c e true d r f b h =
      let w =
        leave_scope-Visited level v fd fds c d _ f
          (create_ssl_conn-Connected level sni fd v.handshake c d r)
          (run_tries-Tried p level request v d b) in
      let same : leave_scope v.handshake (some fd) (run_tries p n_try 0 level request v d) ≡ e =
        cc in
      subst (Visited level fds v c) same w

  on_tcp-Visited :
      (v : Visit) (conn : Option ℕ) (fds : List ℕ) (c e : Probe)
      → ((fd : ℕ) → conn ≡ some fd → c.fds ≡ fd ∷ fds)
      → Balanced none c
      → on_tcp p level sni request v conn c ≡ some e
      → Visited level fds v c e
  unfolding on_tcp
  on_tcp-Visited v none fds c e f b h = cc
  on_tcp-Visited v (some fd) fds c e f b h =
      let r = create_ssl_conn level sni fd v.handshake c in
      on_ssl-Visited v fd fds c e r.0 r.1 refl (f fd refl)
        (create_ssl_conn-Settled level v.handshake sni fd c b) h

  pub visit-Visited :
      (v : Visit) (c e : Probe)
      → Balanced none c
      → visit p level sni request v c ≡ some e
      → Visited level c.fds v c e
  unfolding visit
  visit-Visited v c e b h =
      let (conn, after) = create_tcp_conn v.resolved v.socket v.tcp_connected c.fds in
      let (o, made, rest) =
        after_assert-some conn (λ o. on_tcp p level sni request v o (record c { fds = after })) e
          h in
      let w =
        on_tcp-Visited v o c.fds (record c { fds = after }) e
          (λ fd q.
            create_tcp_conn-some v.resolved v.socket v.tcp_connected c.fds fd after
              (ap (λ u. (u, after)) (made ∙ ap some q)))
          (record { ssls = b.ssls; sessions = b.sessions }) rest in
      record {
        balanced = w.balanced;
        offers = w.offers;
        starts = w.starts;
        keeps = w.keeps;
        mode = w.mode;
        same_fds = w.same_fds;
        tried = w.tried;
      }

  create_ssl_conn-succeeds :
      (fd : ℕ) (h : Handshake) (c : Probe)
      → present h.ssl ≡ true
      → h.host_ok ≡ true
      → h.session_ok ≡ true
      → h.connected ≡ true
      → (create_ssl_conn level sni fd h c).0 ≡ true
  unfolding create_ssl_conn on_ssl named offer handshake
  create_ssl_conn-succeeds fd h c s o i k = ground arith

  on_tcp-succeeds :
      (v : Visit) (fd : ℕ) (c : Probe)
      → (create_ssl_conn level sni fd v.handshake c).0 ≡ true
      → (e : Probe) × (on_tcp p level sni request v (some fd) c ≡ some e)
  unfolding on_tcp
  on_tcp-succeeds v fd c k = (
    leave_scope v.handshake (some fd)
        (run_tries p n_try 0 level request v (create_ssl_conn level sni fd v.handshake c).1),
    ground arith,
  )

  pub visit-succeeds :
      (v : Visit) (c : Probe)
      → succeeds v ≡ true
      → (e : Probe) × (visit p level sni request v c ≡ some e)
  unfolding visit create_tcp_conn
  visit-succeeds v c h = elim (Option-cases v.socket) [
    | inl none' ↦ absurd (ground arith)
    | inr (fd, some') ↦
        let d : Probe = record c { fds = fd ∷ c.fds } in
        let ok =
          create_ssl_conn-succeeds fd v.handshake d (ground arith) (ground arith) (ground arith)
            (ground arith) in
        let (e, done) = on_tcp-succeeds v fd d ok in (e, ground (arith, done))
  ]
