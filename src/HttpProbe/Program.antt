-- ===== src/HttpProbe/Program.antt =====
-- main of http/tcp_reuse.cpp.
use cpp_demo.Prelude.{
  ℕ, zero, suc, ◌+◌, ◌*◌, ◌≡◌, refl, ◌∙◌, Bool, true, false, ◌&&◌, Option, none, some, List, [],
  ◌∷◌, Text, All, Option-cases, inl, inr, length, arith, if◌then◌else◌,
}
use cpp_demo.IpPort.{IpPort}
use cpp_demo.HttpProbe.{
  ReadResult, End, ResponseParser, do_http, create_tcp_conn, release, release_head, after_assert,
  opened,
}
use cpp_demo.HttpProbe.Passes.{
  is_empty, Result, exits, asserts, returns, passes, length-passes, passes-All,
}

-- N_LOOP and N_TRY
abbrev pub n_loop : ℕ
n_loop = 3

abbrev pub n_try : ℕ
n_try = 5

-- What one pass of the inner loop meets; a try has the bytes that are written, and the reads.
pub record Visit : Type 0 where
  pub resolved : Bool
  pub socket : Option ℕ
  pub connected : Bool
  pub tries : ℕ → ℕ × List ReadResult

-- The open descriptors, and the ends of the requests so far, newest first.
pub record Probe : Type 0 where
  pub fds : List ℕ
  pub ends : List End

abbrev pub reached : Option Probe → Result Probe
reached none = asserts
reached (some c) = returns c

module _ {S : Type 0} (p : ResponseParser S) where
  run_tries : ℕ → ℕ → Text → Visit → Probe → Probe
  run_tries zero j request v c = c
  run_tries (suc n) j request v c =
      let (nw, reads) = v.tries j in
      run_tries n (j + 1) request v (record c { ends = do_http p request nw reads ∷ c.ends })

  on_tcp : Text → Visit → Option ℕ → Probe → Option Probe
  unfolding run_tries
  on_tcp request v none c = none
  on_tcp request v (some fd) c =
      let d = run_tries n_try 0 request v c in some (record d { fds = release (some fd) d.fds })

  -- The body of the loop over the targets. `none` where an assertion fails.
  unfoldable pub visit : Text → Visit → Probe → Option Probe
  unfolding on_tcp
  visit request v c =
      let (conn, fds) = create_tcp_conn v.resolved v.socket v.connected c.fds in
      after_assert conn (λ o. on_tcp request v o (record c { fds = fds }))

  unfoldable pub visit_all : Text → List Visit → Probe → Option Probe
  visit_all request [] c = some c
  visit_all request (v ∷ vs) c = elim (visit request v c) [
    | none ↦ none
    | some d ↦ visit_all request vs d
  ]

  -- main, with what the visits meet and the descriptors that are open; the request's text depends on
  -- `sni` only.
  unfoldable pub main : Text → List IpPort → (ℕ → ℕ → Visit) → Text → List ℕ → Result Probe
  main sni ip_ports meets request fds =
      if is_empty sni
      then exits
      else if is_empty ip_ports
      then exits
      else reached
          (visit_all request (passes meets n_loop 0 ip_ports) (record { fds = fds; ends = [] }))

abbrev pub reaches : Visit → Bool
reaches v = v.resolved && opened v.socket && v.connected

-- What passes leave that fail no assertion: the descriptors as they were, and so many requests more.
record Leaves (tries : ℕ) (c d : Probe) : Type 0 where
  same_fds : d.fds ≡ c.fds
  more : length d.ends ≡ tries + length c.ends

module _ {S : Type 0} (p : ResponseParser S) (request : Text) where
  run_tries-Leaves : (n j : ℕ) (v : Visit) (c : Probe) → Leaves n c (run_tries p n j request v c)
  unfolding run_tries
  run_tries-Leaves zero j v c = record { same_fds = refl; more = omega arith }
  run_tries-Leaves (suc n) j v c =
      let (nw, reads) = v.tries j in
      let r =
        run_tries-Leaves n (j + 1) v (record c { ends = do_http p request nw reads ∷ c.ends }) in
      record { same_fds = r.same_fds; more = omega (arith, r.more) }

  on_tcp-Leaves :
      (v : Visit) (fd : ℕ) (fds : List ℕ) (c : Probe)
      → c.fds ≡ fd ∷ fds
      → (d : Probe) × (on_tcp p request v (some fd) c ≡ some d)
        × (d.fds ≡ fds)
        × (length d.ends ≡ n_try + length c.ends)
  unfolding on_tcp
  on_tcp-Leaves v fd fds c e =
      let d = run_tries p n_try 0 request v c in
      let r = run_tries-Leaves n_try 0 v c in
      (
        record d { fds = release (some fd) d.fds },
        refl,
        ground (arith, r.same_fds, release_head fd fds),
        r.more,
      )

  visit-Leaves :
      (v : Visit) (c : Probe)
      → reaches v ≡ true
      → (d : Probe) × (visit p request v c ≡ some d) × Leaves n_try c d
  unfolding visit create_tcp_conn
  visit-Leaves v c h = elim (Option-cases v.socket) [
    | inl none' ↦ absurd (ground arith)
    | inr (fd, some') ↦
        let (d, done, same, more) = on_tcp-Leaves v fd c.fds (record c { fds = fd ∷ c.fds }) refl in
        (d, ground (arith, done), record { same_fds = same; more = more })
  ]

  visit_all-Leaves :
      (vs : List Visit) (c : Probe)
      → All (λ v. reaches v ≡ true) vs
      → (d : Probe) × (visit_all p request vs c ≡ some d) × Leaves (n_try * length vs) c d
  unfolding visit_all
  visit_all-Leaves [] c h = (c, refl, record { same_fds = refl; more = omega arith })
  visit_all-Leaves (v ∷ vs) c h =
      let (d, done, w) = visit-Leaves v c h.0 in
      let (e, rest, r) = visit_all-Leaves vs d h.1 in
      (
        e,
        ground (arith, done, rest),
        record { same_fds = r.same_fds ∙ w.same_fds; more = omega (arith, r.more, w.more) },
      )

  -- With both flags given and every target reached, main fails no assertion, tries fifteen requests for
  -- each target, however they end, and leaves the open descriptors as they were.
  pub main-reached :
      (sni : Text) (ip_ports : List IpPort) (meets : ℕ → ℕ → Visit) (fds : List ℕ)
      → is_empty sni ≡ false
      → is_empty ip_ports ≡ false
      → ((i k : ℕ) → reaches (meets i k) ≡ true)
      → (e : Probe) × (main p sni ip_ports meets request fds ≡ returns e)
        × (length e.ends ≡ 15 * length ip_ports)
        × (e.fds ≡ fds)
  unfolding main
  main-reached sni ip_ports meets fds s t h =
      let vs = passes meets n_loop 0 ip_ports in
      let (e, done, r) =
        visit_all-Leaves vs (record { fds = fds; ends = [] })
          (passes-All meets (λ v. reaches v ≡ true) h n_loop 0 ip_ports) in
      (
        e,
        ground (arith, s, t, done),
        omega (arith, r.more, length-passes meets n_loop 0 ip_ports),
        r.same_fds,
      )
