-- ===== src/Tls/Ticket/Info.antt =====
-- print_ssl_session_info of tls/tls_session_ticket.cpp. What OpenSSL has of the connection and of the
-- session is an argument; so are the texts that absl makes of bytes and of numbers.
use cpp_demo.Prelude.{
  ◌>>=◌, ℕ, ◌≡◌, ◌≤◌, List, [], ◌∷◌, ◌++◌, Text, codes, Option, none, some, length, take, drop, leb,
  if◌then◌else◌,
}

-- A function such as SSL_get_client_random: with no buffer it returns the number of bytes; with a
-- buffer that has room for them all it writes them to its front and returns their number.
pub record Getter : Type 0 where
  pub value : Text
  pub needed : ℕ
  pub fill : Text → ℕ → ℕ × Text
  pub of_needed : needed ≡ length value
  pub of_fill :
      (buffer : Text)
      → length value ≤ length buffer
      → fill buffer (length value) ≡ (length value, value ++ drop (length value) buffer)

-- What the calls give: SSL_get_version, SSL_session_reused, SSL_CIPHER_get_name, the two randoms,
-- SSL_SESSION_get_id, the ticket if SSL_SESSION_has_ticket, and the master key.
pub record SessionInfo : Type 0 where
  pub version : Text
  pub session_reused : ℕ
  pub cipher : Text
  pub client_random : Getter
  pub server_random : Getter
  pub session_id : Text
  pub ticket : Option Text
  pub master_key : Getter

-- absl::BytesToHexString, and `%d`.
pub record Format : Type 0 where
  pub hex : Text → Text
  pub decimal : ℕ → Text

-- `std::array<unsigned char, 1024>`
abbrev pub buffer_size : ℕ
buffer_size = 1024

-- One of the lambdas with a buffer: `none` where the bytes do not fit in it. `buffer` is what is in
-- the array, which is not initialised.
unfoldable pub read_bytes : Getter → Text → Option Text
read_bytes g buffer =
    if leb g.needed buffer_size then some (take g.needed (g.fill buffer g.needed).1) else none

line : Text → Text → Text
line name value = name ++ (value ++ codes "\n")

-- The two lines on the ticket, or the one that there is none.
ticket_lines : Format → Option Text → List Text
unfolding line
ticket_lines f none = line (codes "has ticket: ") (f.decimal 0) ∷ []
ticket_lines f (some t) =
    line (codes "has ticket: ") (f.decimal 1) ∷ line (codes "session ticket: ") (f.hex t) ∷ []

-- What is printed, a text for each call of absl::PrintF.
unfoldable pub info_lines : Format → SessionInfo → Text → Text → Text → List Text
unfolding line ticket_lines
info_lines f i client server key =
    codes "ssl session info begin---\n"
    ∷ line (codes "version: ") i.version
    ∷ line (codes "reused: ") (f.decimal i.session_reused)
    ∷ line (codes "cipher: ") i.cipher
    ∷ line (codes "client random: ") (f.hex client)
    ∷ line (codes "server random: ") (f.hex server)
    ∷ line (codes "session id: ") (f.hex i.session_id)
    ∷ (ticket_lines f i.ticket
        ++ (line (codes "master key: ") (f.hex key) ∷ codes "---ssl session info end\n" ∷ []))

-- The whole function, with the contents of its three arrays before they are written.
unfoldable pub print_ssl_session_info :
    Format → SessionInfo → Text → Text → Text → Option (List Text)
print_ssl_session_info f i a b c = do
  client ← read_bytes i.client_random a
  server ← read_bytes i.server_random b
  key ← read_bytes i.master_key c
  some (info_lines f i client server key)
