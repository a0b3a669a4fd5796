-- ===== src/Tls/Ticket/Printed.antt =====
-- What print_ssl_session_info of tls/tls_session_ticket.cpp prints.
use cpp_demo.Prelude.{Bool, length, leb}
use cpp_demo.Tls.Ticket.Info.{Getter, buffer_size}

abbrev pub fits : Getter → Bool
fits g = leb (length g.value) buffer_size
