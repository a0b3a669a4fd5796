-- ===== src/Tls/Ticket/Tests.antt =====
-- The theorem on tls/tls_session_ticket.cpp at two visits, the first of which gets a session.
use cpp_demo.Tls.Ticket.Info.{
  Getter, SessionInfo, Format, info_lines, print_ssl_session_info, read_bytes, buffer_size,
}
use cpp_demo.Prelude.{
  ◌∷◌, ◌++◌, drop, Text, ◌≡◌, refl, false, none, some, [], codes, length, replicate,
}
use cpp_demo.Tls.{end_main, Probe}
use cpp_demo.Tls.Ticket.{visit_all, create_ssl_conn, on_tcp}
use cpp_demo.Tls.{Visit}
use cpp_demo.Tls.Examples.{fine}
use cpp_demo.Tls.Ticket.Errors.{Refused, create_ssl_conn-Refused}
use cpp_demo.Tls.Examples.{any_parser, two_visits}
use cpp_demo.Tls.Ticket.Resumption.{RunOf, visit_all-RunOf}

abbrev no_calls : Probe
no_calls = record { session = none; false_start = false; fds = []; ends = []; calls = [] }

visit_all-RunOf_example :
    (e : Probe) × (visit_all any_parser (codes "host") (codes "G") two_visits no_calls ≡ some e)
    × RunOf two_visits no_calls (end_main e)
visit_all-RunOf_example =
    visit_all-RunOf any_parser (codes "host") (codes "G") two_visits no_calls
      (record { ssls = λ s. refl; sessions = λ i. refl }) (refl, (refl, tt))

abbrev not_connected : Visit
not_connected = record (fine 100 none) {
  handshake = record ((fine 100 none).handshake) { connected = false };
}

abbrev has_session : Probe
has_session = record no_calls { session = some 7 }

create_ssl_conn-Refused_example :
    let (ok, d) = create_ssl_conn (codes "host") 5 not_connected.handshake has_session in
    (ok ≡ false)
    × Refused has_session d
    × (on_tcp any_parser (codes "host") (codes "G") not_connected (some 5) has_session ≡ none)
create_ssl_conn-Refused_example =
    create_ssl_conn-Refused any_parser (codes "host") (codes "G") not_connected 5 has_session refl
      refl

abbrev getter : Text → Getter
getter t = record {
  value = t;
  needed = length t;
  fill = λ b n. (length t, t ++ drop (length t) b);
  of_needed = refl;
  of_fill = λ b h. refl;
}

abbrev a_session : SessionInfo
a_session = record {
  version = codes "TLSv1.2";
  session_reused = 1;
  cipher = codes "AES";
  client_random = getter (1 ∷ 2 ∷ []);
  server_random = getter (3 ∷ []);
  session_id = 4 ∷ [];
  ticket = none;
  master_key = getter (5 ∷ 6 ∷ []);
}

abbrev plain : Format
plain = record { hex = λ t. t; decimal = λ n. n ∷ [] }

a_session_printed :
    print_ssl_session_info plain a_session (7 ∷ 8 ∷ []) (7 ∷ []) (7 ∷ 8 ∷ 9 ∷ [])
    ≡ some (info_lines plain a_session (1 ∷ 2 ∷ []) (3 ∷ []) (5 ∷ 6 ∷ []))
unfolding print_ssl_session_info read_bytes
a_session_printed = refl

abbrev zeros : Text
zeros = replicate buffer_size 0
