-- ===== src/Tls/FalseStart/Program.antt =====
-- main of tls/tls_false_start.cpp.
use cpp_demo.Prelude.{
  ℕ, ◌*◌, ◌≡◌, ◌∙◌, Bool, true, false, none, List, Text, length, arith, if◌then◌else◌,
}
use cpp_demo.HttpProbe.{ResponseParser}
use cpp_demo.IpPort.{IpPort}
use cpp_demo.Tls.{Visit, Probe, end_main}
use cpp_demo.Tls.Balance.{made, freed, got, given_back, end_main-Balanced, end_main_lem}
use cpp_demo.Tls.Offers.{succeeds}
use cpp_demo.HttpProbe.Passes.{is_empty, Result, exits, returns, passes, length-passes, passes-All}
use cpp_demo.Tls.Passes.{n_loop, ended}
use cpp_demo.Tls.FalseStart.{begin_main, visit_all}
use cpp_demo.Tls.FalseStart.Mode.{begin_main-RunOf}

module _ {S : Type 0} (p : ResponseParser S) where
  -- The flags `optimize_level`, `sni` and `ip_ports`, whether SSL_CTX_new gives a context, and what the visits meet; the
  -- request's text depends on `sni` only.
  unfoldable pub main :
      ℕ → Text → List IpPort → Bool → (ℕ → ℕ → Visit) → Text → List ℕ → Result Probe
  main level sni ip_ports has_context meets request fds =
      if is_empty sni
      then exits
      else if is_empty ip_ports
      then exits
      else if has_context
      then ended
          (visit_all p level sni request (passes meets n_loop 0 ip_ports) (begin_main level fds))
      else exits

  -- At each level, with the other flags given and every call accepted, main returns: it has tried nine requests for each
  -- target, has freed each SSL and given back each session, and left the open descriptors as they were.
  pub main_every_level :
      (level : ℕ) (sni request : Text) (ip_ports : List IpPort) (meets : ℕ → ℕ → Visit)
      (fds : List ℕ)
      → is_empty sni ≡ false
      → is_empty ip_ports ≡ false
      → ((i k : ℕ) → succeeds (meets i k) ≡ true)
      → (e : Probe) × (main level sni ip_ports true meets request fds ≡ returns e)
        × (length e.ends ≡ 9 * length ip_ports)
        × (e.fds ≡ fds)
        × ((s : ℕ) → made s e.calls ≡ freed s e.calls)
        × ((i : ℕ) → got i e.calls ≡ given_back i e.calls)
  unfolding main begin_main
  main_every_level level sni request ip_ports meets fds s t h =
      let vs = passes meets n_loop 0 ip_ports in
      let (e, done, r) =
        begin_main-RunOf p level sni request fds vs
          (passes-All meets (λ v. succeeds v ≡ true) h n_loop 0 ip_ports) in
      let b = end_main-Balanced none e r.balanced in
      let (gone, same_fds, same_ends) = end_main_lem e in
      (
        end_main e,
        ground (arith, s, t, done),
        grind (arith, same_ends, r.tried, length-passes meets n_loop 0 ip_ports),
        same_fds ∙ r.same_fds,
        λ x. omega (arith, b.ssls x),
        λ x. ground (arith, b.sessions x, gone),
      )
