-- ===== src/Tls/Examples.antt =====
-- Visits for the tests of the TLS probes (tls/tls_session_ticket.cpp, tls/tls_false_start.cpp).
use cpp_demo.Prelude.{ℕ, Bool, true, false, Option, none, some, List, [], ◌∷◌, codes}
use cpp_demo.HttpProbe.{ResponseParser, good, got}
use cpp_demo.IpPort.{IpPort}
use cpp_demo.Tls.{Visit}

abbrev pub any_parser : ResponseParser Bool
any_parser = record { initial = false; parse = λ t s. (s, good) }

-- A visit in which every call succeeds, and that gets a session or none.
abbrev pub fine : ℕ → Option ℕ → Visit
fine s ticket = record {
  resolved = true;
  socket = some 5;
  tcp_connected = true;
  handshake = record {
    ssl = some s;
    host_ok = true;
    session_ok = true;
    connected = true;
    ticket = ticket;
    shutdown_ret = 0;
  };
  tries = λ j. record { written = 1; reads = got (codes "OK") ∷ [] };
}

abbrev pub two_visits : List Visit
two_visits = fine 100 (some 7) ∷ fine 200 none ∷ []

abbrev pub one_target : List IpPort
one_target = record { ip = codes "1.2.3.4"; port = codes "443" } ∷ []

-- Each pass gets a session of its own.
abbrev pub meets : ℕ → ℕ → Visit
meets i k = fine i (some i)
