-- ===== src/IpPort.antt =====
-- common/abseil_flag_ipport.hpp and common/abseil_flag_ipport.cpp: the command line flag that holds
-- pairs of an address and a port. What it calls of absl is a parameter, with the laws that absl
-- documents.
pub mod RoundTrip
pub mod Ports
mod Tests
use cpp_demo.Prelude.{
  ℕ, suc, ◌+◌, ◌<◌, ◌≤◌, ◌⊎◌, inl, inr, ◌≡◌, ◌≢◌, refl, sym, ap, ◌∙◌, Bool, true, false, ◌&&◌, List,
  [], ◌∷◌, ◌++◌, map, append_assoc, Text, codes, length, length-append, All, ltb, ◌||◌, ◌==◌,
  if◌then◌else◌, arith, Option, none, some, append-nil,
}

abbrev pub comma : ℕ
comma = 44

abbrev pub colon : ℕ
colon = 58

abbrev pub Without : ℕ → Text → Type 0
Without c t = All (λ d. d ≢ c) t

-- absl::ParseFlag of an `int`: its sign, true for minus, and magnitude; or the error's text.
pub data Parsed : Type 0 where
  parsed : Bool → ℕ → Parsed
  unparsed : Text → Parsed

-- absl::StrSplit by one character, and absl::ParseFlag<int>. A text without the delimiter is one
-- piece; else the first piece ends at the first delimiter.
pub record Absl : Type 0 where
  pub str_split : Text → ℕ → List Text
  pub parse_int : Text → Parsed
  pub split_none : (t : Text) (c : ℕ) → Without c t → str_split t c ≡ t ∷ []
  pub split_first :
      (t u : Text) (c : ℕ) → Without c t → str_split (t ++ c ∷ u) c ≡ t ∷ str_split u c

pub record IpPort : Type 0 where
  pub ip : Text
  pub port : Text

-- The conversion to a string: absl::StrCat(ip, ":", port).
unfoldable pub to_string : IpPort → Text
to_string p = p.ip ++ colon ∷ p.port

-- absl::StrJoin with ",".
unfoldable pub absl_unparse_flag : List IpPort → Text
unfolding to_string
absl_unparse_flag [] = []
absl_unparse_flag (p ∷ []) = to_string p
absl_unparse_flag (p ∷ q ∷ ps) = to_string p ++ comma ∷ absl_unparse_flag (q ∷ ps)

-- What AbslParseFlag leaves: its result, `*ip_ports` and `*error`.
pub record Flag : Type 0 where
  pub result : Bool
  pub ip_ports : List IpPort
  pub error : Text

-- `port < 0 || port > 32767`
abbrev pub out_of_range : Bool → ℕ → Bool
out_of_range minus n = (if minus then ltb 0 n else false) || ltb 32767 n

pub in_range :
    (minus : Bool) (n : ℕ)
    → out_of_range minus n ≡ false
    → (n ≤ 32767) × ((minus ≡ false) ⊎ (n ≡ 0))
in_range true n h = (ground arith, inr (ground arith))
in_range false n h = (ground arith, inl refl)

pub out_of_range-false :
    (minus : Bool) (n : ℕ) → n ≤ 32767 → (minus ≡ false) ⊎ (n ≡ 0) → out_of_range minus n ≡ false
out_of_range-false minus n h (inl e) = ground arith
out_of_range-false minus n h (inr e) = ground arith

abbrev range_of : Parsed → Bool
range_of (unparsed why) = true
range_of (parsed minus n) = out_of_range minus n

module _ (a : Absl) where
  -- A pair's port, once it is parsed; `rest` is the rest of the loop.
  check_port : Text → Text → Parsed → List IpPort → Text → (List IpPort → Flag) → Flag
  check_port ip port (unparsed why) acc error rest = record {
    result = false;
    ip_ports = acc;
    error = why;
  }
  check_port ip port (parsed minus n) acc error rest =
      if out_of_range minus n
      then record { result = false; ip_ports = acc; error = codes "invalid port: " ++ port }
      else rest (acc ++ record { ip = ip; port = port } ∷ [])

  -- A piece, split at its colons.
  check_pair : Text → List Text → List IpPort → Text → (List IpPort → Flag) → Flag
  unfolding check_port
  check_pair p (ip ∷ port ∷ []) acc error rest =
      check_port ip port (a.parse_int port) acc error rest
  check_pair p _ acc error rest = record {
    result = false;
    ip_ports = acc;
    error = codes "invalid ipport: " ++ p;
  }

  -- The loop over the pieces.
  parse_pieces : List Text → List IpPort → Text → Flag
  unfolding check_pair
  parse_pieces [] acc error = record { result = true; ip_ports = acc; error = error }
  parse_pieces (p ∷ ps) acc error =
      check_pair p (a.str_split p colon) acc error (λ acc'. parse_pieces ps acc' error)

  unfoldable pub absl_parse_flag : Text → List IpPort → Text → Flag
  unfolding parse_pieces
  absl_parse_flag text ip_ports error =
      if length text == 0
      then record { result = true; ip_ports = ip_ports; error = error }
      else parse_pieces (a.str_split text comma) ip_ports error

module _ (a : Absl) where
  -- The port is the text of a number from 0 to 32767.
  abbrev pub PortOk : Text → Type 0
  PortOk port =
      (minus : Bool) × (n : ℕ) × (a.parse_int port ≡ parsed minus n)
      × (n ≤ 32767)
      × ((minus ≡ false) ⊎ (n ≡ 0))

  -- Neither part holds a delimiter, and the port is in the range.
  abbrev pub Proper : IpPort → Type 0
  Proper p =
      Without colon p.ip
      × Without comma p.ip
      × Without colon p.port
      × Without comma p.port
      × PortOk p.port
