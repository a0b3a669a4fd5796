-- ===== src/HttpParser.antt =====
-- misc/fsmlite_test.cpp: the HTTP request parser, its checkers and its actions. The classes Request
-- and HeaderList, the text functions of base and absl, and the state machine library fsmlite are not
-- part of the repository: `HttpBase` and `Table.FsmLite` stand for them.
pub mod Table
pub mod Main
pub mod RequestLine
pub mod Headers
pub mod Body
pub mod Invariant
mod Tests
use cpp_demo.Prelude.{
  ℕ, suc, ◌+◌, ◌-◌, ◌*◌, ◌%◌, ◌^◌, Bool, true, false, ◌&&◌, ◌||◌, not, Option, none, some, List, [],
  ◌∷◌, ◌++◌, Text, codes, text_eq, length, ltb, leb, ◌==◌, if◌then◌else◌,
}

-- What the parser calls of base and absl. `R` holds the headers and the body of a request;
-- `split_colon` is absl::StrSplit with MaxSplits(":", 1), the first piece and the second, if any.
pub record HttpBase (R : Type 0) : Type 0 where
  pub add_header : Text → Text → R → R
  pub get_header : Text → R → Option Text
  pub content_length : R → Text
  pub set_body : Text → Text → R → R
  pub post : Text
  pub to_lower_case : Text → Text
  pub trim : Text → Text
  pub split_colon : Text → Text × Option Text

pub record Request (R : Type 0) : Type 0 where
  pub method : Text
  pub uri : Text
  pub http_version_major : ℕ
  pub http_version_minor : ℕ
  pub rest : R

pub data ParseState : Type 0 where
  error start method uri http major minor : ParseState
  expecting_newline_1 header_line_start header_line expecting_newline_2 : ParseState
  expecting_newline_3 expecting_body finish : ParseState

-- Where `buffer_` points.
pub data Buffer : Type 0 where
  method_buffer uri_buffer temp_buffer : Buffer

pub record Parser (R : Type 0) : Type 0 where
  pub state : ParseState
  pub request : Request R
  pub temp : Text
  pub buffer : Buffer

-- <cctype> in the "C" locale.
unfoldable pub is_alpha : ℕ → Bool
is_alpha c = (leb b'A' c && leb c b'Z') || (leb b'a' c && leb c b'z')

unfoldable pub is_digit : ℕ → Bool
is_digit c = leb b'0' c && leb c b'9'

unfoldable pub is_punct : ℕ → Bool
is_punct c =
    (leb 33 c && leb c 47)
    || (leb 58 c && leb c 64)
    || (leb 91 c && leb c 96)
    || (leb 123 c && leb c 126)

is_white : ℕ → Bool
is_white c = c == 32 || (leb 9 c && leb c 13)

-- `atoi`: white space, a sign, digits. The result is the sign (true for minus) and the magnitude. A
-- value that no `int` holds is left as it is.
digits_value : ℕ → Text → ℕ
digits_value acc [] = acc
digits_value acc (c ∷ cs) =
    let rest = digits_value (acc * 10 + (c - b'0')) cs in if is_digit c then rest else acc

signed : Text → Bool × ℕ
signed [] = (false, 0)
signed (c ∷ cs) =
    if c == b'-'
    then (true, digits_value 0 cs)
    else if c == b'+'
    then (false, digits_value 0 cs)
    else (false, digits_value 0 (c ∷ cs))

unfoldable pub atoi : Text → Bool × ℕ
unfolding signed digits_value is_white
atoi [] = (false, 0)
atoi (c ∷ cs) = let rest = atoi cs in if is_white c then rest else signed (c ∷ cs)

-- `bodySize > 0`
abbrev pub positive : Bool × ℕ → Bool
positive (minus, n) = not minus && ltb 0 n

-- An `int` where it meets a `size_t`.
abbrev pub as_size : Bool × ℕ → ℕ
as_size (true, n) = (2 ^ 64 - n) % 2 ^ 64
as_size (false, n) = n

module _ {R : Type 0} where
  abbrev pub text_in : Buffer → Parser R → Text
  text_in method_buffer p = p.request.method
  text_in uri_buffer p = p.request.uri
  text_in temp_buffer p = p.temp

  -- `*buffer_`
  abbrev pub buffer_text : Parser R → Text
  buffer_text p = text_in p.buffer p

  abbrev pub store_in : Buffer → Text → Parser R → Parser R
  store_in method_buffer t p = record p { request = record (p.request) { method = t } }
  store_in uri_buffer t p = record p { request = record (p.request) { uri = t } }
  store_in temp_buffer t p = record p { temp = t }

  abbrev pub store : Text → Parser R → Parser R
  store t p = store_in p.buffer t p

  -- The actions.
  abbrev pub no_action : Parser R → ℕ → Parser R
  no_action p c = p

  abbrev pub error_action : Parser R → ℕ → Parser R
  error_action p c = p

  unfoldable pub append_to_buffer : Parser R → ℕ → Parser R
  append_to_buffer p c = store (buffer_text p ++ c ∷ []) p

  unfoldable pub on_method_finish : Parser R → ℕ → Parser R
  on_method_finish p c = record p { buffer = uri_buffer }

  -- What these six actions do alike.
  unfoldable pub clear_temp : Parser R → ℕ → Parser R
  clear_temp p c = record p { temp = []; buffer = temp_buffer }

  abbrev pub on_uri_finish : Parser R → ℕ → Parser R
  on_uri_finish p c = clear_temp p c

  abbrev pub on_http_finish : Parser R → ℕ → Parser R
  on_http_finish p c = clear_temp p c

  abbrev pub on_major_finish : Parser R → ℕ → Parser R
  on_major_finish p c = clear_temp p c

  abbrev pub on_minor_finish : Parser R → ℕ → Parser R
  on_minor_finish p c = clear_temp p c

  abbrev pub on_header_line_start : Parser R → ℕ → Parser R
  on_header_line_start p c = clear_temp p c

  abbrev pub on_body_start : Parser R → ℕ → Parser R
  on_body_start p c = clear_temp p c

  -- The checkers.
  abbrev pub is_space : Parser R → ℕ → Bool
  is_space p c = c == 32

  abbrev pub is_carry_return : Parser R → ℕ → Bool
  is_carry_return p c = c == 13

  abbrev pub is_new_line : Parser R → ℕ → Bool
  is_new_line p c = c == 10

  abbrev pub alpha : Parser R → ℕ → Bool
  alpha p c = is_alpha c

  abbrev pub digit : Parser R → ℕ → Bool
  digit p c = is_digit c

  abbrev pub always : Parser R → ℕ → Bool
  always p c = true

  unfoldable pub is_valid_method : Parser R → ℕ → Bool
  is_valid_method p c =
      c == 32 && (text_eq p.request.method (codes "GET") || text_eq p.request.method (codes "POST"))

  unfoldable pub is_valid_uri_char : Parser R → ℕ → Bool
  is_valid_uri_char p c = is_alpha c || is_digit c || is_punct c

  -- These two parse the number in `temp_` into a copy of the request, which is then dropped.
  unfoldable pub is_valid_major : Parser R → ℕ → Bool
  is_valid_major p c =
      let req = record (p.request) { http_version_major = as_size (atoi (buffer_text p)) } in
      c == b'.'

  unfoldable pub is_valid_minor : Parser R → ℕ → Bool
  is_valid_minor p c =
      let req = record (p.request) { http_version_minor = as_size (atoi (buffer_text p)) } in
      c == 13

abbrev pub or_empty : Option Text → Text
or_empty none = []
or_empty (some v) = v

abbrev pub or_plain : Option Text → Text
or_plain none = codes "text/plain"
or_plain (some v) = v

module _ {R : Type 0} (b : HttpBase R) where
  unfoldable pub is_valid_http : Parser R → ℕ → Bool
  is_valid_http p c = c == b'/' && text_eq (b.to_lower_case p.temp) (codes "http")

  add_line : Text → Text → R → R
  add_line name value r = if ltb 0 (length name) then b.add_header name (b.trim value) r else r

  -- The header that a line's text makes.
  unfoldable pub add_header_line : Text → R → R
  unfolding add_line
  add_header_line line r =
      let (first, second) = b.split_colon line in add_line (b.trim first) (or_empty second) r

  unfoldable pub on_header_line_finish : Parser R → ℕ → Parser R
  on_header_line_finish p c = record p {
    request = record (p.request) { rest = add_header_line (buffer_text p) p.request.rest };
  }

  unfoldable pub body_size : Parser R → Bool × ℕ
  body_size p = atoi (b.content_length p.request.rest)

  unfoldable pub is_need_body : Parser R → ℕ → Bool
  is_need_body p c = c == 10 && text_eq p.request.method b.post && positive (body_size p)

  unfoldable pub need_more_body : Parser R → ℕ → Bool
  need_more_body p c = ltb (length (buffer_text p) + 1) (as_size (body_size p))

  set_request_body : Text → Parser R → Parser R
  set_request_body body p = record p {
    request = record (p.request) {
      rest =
          b.set_body body (or_plain (b.get_header (codes "Content-Type") p.request.rest))
            p.request.rest;
    };
  }

  unfoldable pub on_body_finish : Parser R → ℕ → Parser R
  unfolding append_to_buffer set_request_body
  on_body_finish p c = let q = append_to_buffer p c in store [] (set_request_body (buffer_text q) q)

-- A parser before its first character.
unfoldable pub new_parser : {R : Type 0} → Request R → Parser R
new_parser r = record { state = start; request = r; temp = []; buffer = method_buffer }
