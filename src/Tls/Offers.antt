-- ===== src/Tls/Offers.antt =====
-- The sessions that the connections of the TLS probes offer (tls/tls_session_ticket.cpp,
-- tls/tls_false_start.cpp), and the visits in which every call succeeds.
use cpp_demo.Prelude.{present, ℕ, Bool, ◌&&◌, Option, none, some, List, [], ◌∷◌}
use cpp_demo.HttpProbe.{opened}
use cpp_demo.Tls.{Call, set_session, Visit}

-- The sessions that were offered, newest first.
abbrev pub offered : List Call → List ℕ
offered [] = []
offered (set_session s i ∷ cs) = i ∷ offered cs
offered (_ ∷ cs) = offered cs

abbrev pub offer_too : Option ℕ → List ℕ → List ℕ
offer_too none is = is
offer_too (some i) is = i ∷ is

abbrev pub newer : Option ℕ → Option ℕ → Option ℕ
newer none old = old
newer (some i) old = some i

-- The sessions that the connections are to offer, newest first: each offers the last one that was got.
abbrev pub offers_of : Option ℕ → List ℕ → List Visit → List ℕ
offers_of last is [] = is
offers_of last is (v ∷ vs) = offers_of (newer v.handshake.ticket last) (offer_too last is) vs

-- Every call of a visit succeeds.
abbrev pub succeeds : Visit → Bool
succeeds v =
    v.resolved
    && opened v.socket
    && v.tcp_connected
    && present v.handshake.ssl
    && v.handshake.host_ok
    && v.handshake.session_ok
    && v.handshake.connected
