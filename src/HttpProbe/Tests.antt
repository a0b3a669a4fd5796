-- ===== src/HttpProbe/Tests.antt =====
-- The theorems on http/tcp_reuse.cpp with a parser for which a response is good at its first byte 10.
use cpp_demo.Prelude.{
  arith, ℕ, List, ◌≡◌, refl, Bool, true, false, some, [], length, ◌*◌, ◌∷◌, Text, codes, ◌==◌,
  if◌then◌else◌,
}
use cpp_demo.HttpProbe.{Status, good, bad, indeterminate, ResponseParser, got}
use cpp_demo.IpPort.{IpPort}
use cpp_demo.HttpProbe.Program.{Visit, Probe, main, main-reached}
use cpp_demo.HttpProbe.{create_tcp_conn, release, after_assert, release-create_tcp_conn}
use cpp_demo.HttpProbe.Passes.{returns}

abbrev scan : Text → Status
scan [] = indeterminate
scan (c ∷ cs) = let rest = scan cs in if c == 10 then good else if c == 0 then bad else rest

abbrev line_parser : ResponseParser Bool
line_parser = record { initial = false; parse = λ t s. (s, scan t) }

abbrev two_targets : List IpPort
two_targets =
    record { ip = codes "1.2.3.4"; port = codes "80" }
    ∷ record { ip = codes "5.6.7.8"; port = codes "80" }
    ∷ []

-- Each try is answered in one read.
abbrev answered : ℕ → ℕ → Visit
answered i k = record {
  resolved = true;
  socket = some 4;
  connected = true;
  tries = λ j. (3, got (10 ∷ []) ∷ []);
}

main-reached_example :
    (e : Probe) × (main line_parser (codes "host") two_targets answered (codes "GET") (3 ∷ [])
      ≡ returns e)
    × (length e.ends ≡ 15 * 2)
    × (e.fds ≡ 3 ∷ [])
main-reached_example =
    main-reached line_parser (codes "GET") (codes "host") two_targets answered (3 ∷ []) refl refl
      (λ i k. refl)

release-create_tcp_conn_example :
    let (conn, after) = create_tcp_conn true (some 4) false (3 ∷ []) in
    after_assert conn (λ o. some (release o after)) ≡ some (4 ∷ 3 ∷ [])
release-create_tcp_conn_example = release-create_tcp_conn true false 4 (3 ∷ []) (omega arith)
