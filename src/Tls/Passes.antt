-- ===== src/Tls/Passes.antt =====
-- What main of tls/tls_session_ticket.cpp and that of tls/tls_false_start.cpp have in common.
use cpp_demo.Prelude.{ℕ, Option, none, some}
use cpp_demo.HttpProbe.Passes.{Result, asserts, returns}
use cpp_demo.Tls.{Probe, n_try, end_main}

-- N_LOOP
abbrev pub n_loop : ℕ
n_loop = n_try

abbrev pub ended : Option Probe → Result Probe
ended none = asserts
ended (some c) = returns (end_main c)
