-- ===== src/Tls/FalseStart/Mode.antt =====
-- What tls/tls_false_start.cpp does over a run: its objects, the sessions it offers, and the handshakes
-- with false start.
use cpp_demo.Prelude.{
  present, ℕ, ◌+◌, ◌*◌, ◌&&◌, not, All, ◌≡◌, refl, ◌∙◌, Bool, true, Option, none, some, List, [],
  ◌∷◌, Text, if◌then◌else◌, leb, arith, length,
}
use cpp_demo.HttpProbe.{ResponseParser}
use cpp_demo.Tls.{Visit, Probe, n_try}
use cpp_demo.Tls.Balance.{Balanced}
use cpp_demo.Tls.Offers.{offered, offer_too, newer, succeeds}
use cpp_demo.Tls.FalseStart.{visit_all, begin_main}
use cpp_demo.Tls.FalseStart.Connect.{modes}
use cpp_demo.Tls.FalseStart.Visits.{Visited, visit-Visited, visit-succeeds}

-- False start at a level, where this session was got last: from level 2 on, until there is one.
abbrev pub starts_at : ℕ → Option ℕ → Bool
starts_at level last = leb 2 level && not (present last)

-- The sessions that the connections are to offer, and the modes of their handshakes, newest first.
abbrev pub offers_at : ℕ → Option ℕ → List ℕ → List Visit → List ℕ
offers_at level last is [] = is
offers_at level last is (v ∷ vs) =
    offers_at level (newer v.handshake.ticket last)
      (offer_too (if leb 1 level then last else none) is) vs

abbrev pub modes_at : ℕ → Option ℕ → List Bool → List Visit → List Bool
modes_at level last bs [] = bs
modes_at level last bs (v ∷ vs) =
    modes_at level (newer v.handshake.ticket last) (starts_at level last ∷ bs) vs

-- What a run leaves.
pub record RunOf (level : ℕ) (vs : List Visit) (c e : Probe) : Type 0 where
  pub balanced : Balanced none e
  pub offers : offered e.calls ≡ offers_at level c.session (offered c.calls) vs
  pub starts : modes e.calls ≡ modes_at level c.session (modes c.calls) vs
  pub off : e.false_start ≡ starts_at level e.session
  pub same_fds : e.fds ≡ c.fds
  pub tried : length e.ends ≡ n_try * length vs + length c.ends

module _ {S : Type 0} (p : ResponseParser S) (level : ℕ) (sni request : Text) where
  more-RunOf :
      (v : Visit) (vs : List Visit) (c d e : Probe)
      → c.false_start ≡ starts_at level c.session
      → Visited level c.fds v c d
      → RunOf level vs d e
      → RunOf level (v ∷ vs) c e
  more-RunOf v vs c d e m w r = record {
    balanced = r.balanced;
    offers = ground (arith, w.offers, w.keeps, r.offers);
    starts = ground (arith, w.starts, w.keeps, r.starts);
    off = r.off;
    same_fds = r.same_fds ∙ w.same_fds;
    tried = ground (arith, r.tried, w.tried);
  }

  mode-Visited :
      (v : Visit) (c d : Probe)
      → c.false_start ≡ starts_at level c.session
      → Visited level c.fds v c d
      → d.false_start ≡ starts_at level d.session
  mode-Visited v c d m w = ground (arith, w.mode, w.keeps)

  visits-RunOf :
      (vs : List Visit) (c : Probe)
      → Balanced none c
      → c.false_start ≡ starts_at level c.session
      → All (λ v. succeeds v ≡ true) vs
      → (e : Probe) × (visit_all p level sni request vs c ≡ some e) × RunOf level vs c e
  unfolding visit_all
  visits-RunOf [] c b m h = (
    c,
    refl,
    record {
      balanced = b;
      offers = refl;
      starts = refl;
      off = m;
      same_fds = refl;
      tried = omega arith;
    },
  )
  visits-RunOf (v ∷ vs) c b m h =
      let (d, done) = visit-succeeds p level sni request v c h.0 in
      let w = visit-Visited p level sni request v c d b done in
      let (e, rest, r) = visits-RunOf vs d w.balanced (mode-Visited v c d m w) h.1 in
      (e, ground (arith, done, rest), more-RunOf v vs c d e m w r)

  -- Where every call of every visit succeeds, main's loops end with no assertion failed; each SSL that
  -- was made is freed, and the sessions got are those given back and the one kept; a connection offers
  -- the last session that was got before it, from level 1 on, and none below; it makes its handshake
  -- with false start from level 2 on and until the first session is got; the open descriptors are as
  -- before; and each visit has tried its three requests.
  pub begin_main-RunOf :
      (fds : List ℕ) (vs : List Visit)
      → All (λ v. succeeds v ≡ true) vs
      → let c = begin_main level fds in
        (e : Probe) × (visit_all p level sni request vs c ≡ some e) × RunOf level vs c e
  unfolding begin_main
  begin_main-RunOf fds vs h =
      visits-RunOf vs (begin_main level fds) (record { ssls = λ s. refl; sessions = λ i. refl })
        (ground arith) h
