-- ===== src/Tls/FalseStart/Tests.antt =====
-- The theorem on tls/tls_false_start.cpp at level 2 and two visits, the first of which gets a session.
use cpp_demo.Prelude.{◌≡◌, refl, some, [], codes}
use cpp_demo.Tls.{Probe}
use cpp_demo.Tls.FalseStart.{visit_all, begin_main}
use cpp_demo.Tls.Examples.{any_parser, two_visits}
use cpp_demo.Tls.FalseStart.Mode.{RunOf, begin_main-RunOf}

begin_main-RunOf_example :
    (e : Probe) × (visit_all any_parser 2 (codes "host") (codes "G") two_visits (begin_main 2 [])
      ≡ some e)
    × RunOf 2 two_visits (begin_main 2 []) e
begin_main-RunOf_example =
    begin_main-RunOf any_parser 2 (codes "host") (codes "G") [] two_visits (refl, (refl, tt))
