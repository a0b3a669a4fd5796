-- ===== src/Tls/Ticket/Program.antt =====
-- main of tls/tls_session_ticket.cpp.
use cpp_demo.Prelude.{
  ℕ, ◌*◌, ◌≡◌, refl, Bool, true, false, none, List, [], Text, length, arith, if◌then◌else◌,
}
use cpp_demo.HttpProbe.{ResponseParser}
use cpp_demo.IpPort.{IpPort}
use cpp_demo.Tls.{Visit, Probe, end_main}
use cpp_demo.Tls.Balance.{made, freed, got, given_back}
use cpp_demo.Tls.Offers.{succeeds}
use cpp_demo.HttpProbe.Passes.{is_empty, Result, exits, returns, passes, length-passes, passes-All}
use cpp_demo.Tls.Passes.{n_loop, ended}
use cpp_demo.Tls.Ticket.{visit_all}
use cpp_demo.Tls.Ticket.Resumption.{visit_all-RunOf}

-- main in front of its loops, with the descriptors that are open.
abbrev pub begin_main : List ℕ → Probe
begin_main fds = record { session = none; false_start = false; fds = fds; ends = []; calls = [] }

module _ {S : Type 0} (p : ResponseParser S) where
  -- The flags `sni` and `ip_ports`, whether SSL_CTX_new gives a context, and what the visits meet; the
  -- request's text depends on `sni` only.
  unfoldable pub main : Text → List IpPort → Bool → (ℕ → ℕ → Visit) → Text → List ℕ → Result Probe
  main sni ip_ports has_context meets request fds =
      if is_empty sni
      then exits
      else if is_empty ip_ports
      then exits
      else if has_context
      then ended (visit_all p sni request (passes meets n_loop 0 ip_ports) (begin_main fds))
      else exits

  -- With both flags given and every call accepted, main returns: it has tried nine requests for each
  -- target, has freed each SSL and given back each session, and left the open descriptors as they were.
  pub main-returns :
      (sni request : Text) (ip_ports : List IpPort) (meets : ℕ → ℕ → Visit) (fds : List ℕ)
      → is_empty sni ≡ false
      → is_empty ip_ports ≡ false
      → ((i k : ℕ) → succeeds (meets i k) ≡ true)
      → (e : Probe) × (main sni ip_ports true meets request fds ≡ returns e)
        × (length e.ends ≡ 9 * length ip_ports)
        × (e.fds ≡ fds)
        × ((s : ℕ) → made s e.calls ≡ freed s e.calls)
        × ((i : ℕ) → got i e.calls ≡ given_back i e.calls)
  unfolding main
  main-returns sni request ip_ports meets fds s t h =
      let vs = passes meets n_loop 0 ip_ports in
      let (e, done, r) =
        visit_all-RunOf p sni request vs (begin_main fds)
          (record { ssls = λ s. refl; sessions = λ i. refl })
          (passes-All meets (λ v. succeeds v ≡ true) h n_loop 0 ip_ports) in
      (
        end_main e,
        ground (arith, s, t, done),
        omega (arith, r.tried, length-passes meets n_loop 0 ip_ports),
        r.same_fds,
        λ x. omega (arith, r.balanced.ssls x),
        λ x. ground (arith, r.balanced.sessions x, r.no_session),
      )
