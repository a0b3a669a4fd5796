-- ===== src/HttpParser/Tests.antt =====
-- The theorems on misc/fsmlite_test.cpp at concrete messages, with concrete headers and with a state
-- machine library that tries the rows in turn.
use cpp_demo.Prelude.{
  ℕ, ◌+◌, ◌≡◌, ◌↔◌, length, refl, ap, inl, inr, Bool, true, false, ◌&&◌, Option, none, some, List,
  [], ◌∷◌, map, Text, codes, text_eq, All, arith, leb, if◌then◌else◌, ◌==◌,
}
use cpp_demo.HttpParser.{
  HttpBase, Parser, Request, temp_buffer, header_line_start, finish, expecting_body, is_alpha,
  is_digit, is_punct, is_valid_uri_char, is_valid_http, is_valid_major, is_valid_minor,
  on_header_line_finish, is_need_body, need_more_body, body_size, as_size, add_header_line, atoi,
  new_parser, is_valid_method, on_method_finish, append_to_buffer, clear_temp,
}
use cpp_demo.HttpParser.Table.{FsmLite, Row, fits, fire, step}
use cpp_demo.HttpParser.Main.{main_loop, feed, at}
use cpp_demo.HttpParser.RequestLine.{request_line}
use cpp_demo.HttpParser.Headers.{IsLine, line_char, header_text, second_header_misnamed}
use cpp_demo.HttpParser.Body.{
  message, IsRequestLine, announced, with_line, with_body, main_loop_no_body, main_loop_body,
}
use cpp_demo.HttpParser.Invariant.{body_exact}

-- Headers and body as a list of names and values.
abbrev Fields : Type 0
Fields = List (Text × Text)

abbrev field : Text → Fields → Option Text
field n [] = none
field n ((m, v) ∷ fs) = if text_eq m n then some v else field n fs

abbrev value_or : Option Text → Text
value_or none = []
value_or (some v) = v

abbrev lower : ℕ → ℕ
lower c = if leb b'A' c && leb c b'Z' then c + 32 else c

abbrev trim : Text → Text
trim [] = []
trim (c ∷ cs) = if c == 32 then cs else c ∷ cs

abbrev put : ℕ → Text × Option Text → Text × Option Text
put c (n, v) = (c ∷ n, v)

abbrev split : Text → Text × Option Text
split [] = ([], none)
split (c ∷ cs) = let rest = put c (split cs) in if c == b':' then ([], some cs) else rest

abbrev fields_base : HttpBase Fields
fields_base = record {
  add_header = λ n v fs. (n, v) ∷ fs;
  get_header = field;
  content_length = λ fs. value_or (field (codes "Content-Length") fs);
  set_body = λ t k fs. (codes "body", t) ∷ (codes "type", k) ∷ fs;
  post = codes "POST";
  to_lower_case = map lower;
  trim = trim;
  split_colon = split;
}

abbrev try_rows : List (Row Fields) → Parser Fields → ℕ → Parser Fields
try_rows [] p c = p
try_rows (r ∷ rows) p c = if fits r p c then fire r p c else try_rows rows p c

rows_fire :
    (r : Row Fields) (rows : List (Row Fields)) (p : Parser Fields) (c : ℕ)
    → fits r p c ≡ true
    → try_rows (r ∷ rows) p c ≡ fire r p c
rows_fire r rows p c h = rw h

rows_skip :
    (r : Row Fields) (rows : List (Row Fields)) (p : Parser Fields) (c : ℕ)
    → fits r p c ≡ false
    → try_rows (r ∷ rows) p c ≡ try_rows rows p c
rows_skip r rows p c h = rw h

abbrev rows_fsm : FsmLite Fields
rows_fsm = record { process_event = try_rows; fires = rows_fire; skips = rows_skip }

abbrev blank : Request Fields
blank = record { method = []; uri = []; http_version_major = 0; http_version_minor = 0; rest = [] }

get_line :
    IsRequestLine fields_base blank
      (codes "GET")
      (codes "/a")
      (codes "HTTP")
      (codes "1")
      (codes "1")
unfolding is_alpha is_digit is_punct
get_line = record {
  method_letters = (refl, (refl, (refl, tt)));
  method_some = λ e. cc;
  method_known = inl refl;
  target = (refl, (refl, tt));
  name_letters = (refl, (refl, (refl, (refl, tt))));
  name_http = refl;
  major_digits = (refl, tt);
  minor_digits = (refl, tt);
}

post_line :
    IsRequestLine fields_base blank
      (codes "POST")
      (codes "/a")
      (codes "HTTP")
      (codes "1")
      (codes "1")
unfolding is_alpha is_digit is_punct
post_line = record {
  method_letters = (refl, (refl, (refl, (refl, tt))));
  method_some = λ e. cc;
  method_known = inr refl;
  target = (refl, (refl, tt));
  name_letters = (refl, (refl, (refl, (refl, tt))));
  name_http = refl;
  major_digits = (refl, tt);
  minor_digits = (refl, tt);
}

-- A test over a text, and what it shows.
abbrev all_of : (ℕ → Bool) → Text → Bool
all_of f [] = true
all_of f (c ∷ cs) = f c && all_of f cs

All-all_of : (f : ℕ → Bool) (cs : Text) → all_of f cs ≡ true → All (λ c. f c ≡ true) cs
All-all_of f [] h = tt
All-all_of f (c ∷ cs) h = ground (arith, All-all_of f cs)

abbrev host_line : Text
host_line = codes "Host: a"

abbrev close_line : Text
close_line = codes "Connection: close"

abbrev size_line : Text
size_line = codes "Content-Length: 2"

host_IsLine : IsLine host_line
unfolding is_alpha
host_IsLine = (refl, All-all_of line_char (codes "ost: a") refl)

close_IsLine : IsLine close_line
unfolding is_alpha
close_IsLine = (refl, All-all_of line_char (codes "onnection: close") refl)

size_IsLine : IsLine size_line
unfolding is_alpha
size_IsLine = (refl, All-all_of line_char (codes "ontent-Length: 2") refl)

second_header_misnamed_example :
    feed fields_base
      (at header_line_start blank [] temp_buffer)
      (header_text (host_line ∷ close_line ∷ []))
    ≡ at header_line_start
        (record blank {
          rest = (codes "Host", codes "aConnection: close") ∷ (codes "Host", codes "a") ∷ [];
        })
        (codes "Host: aConnection: close")
        temp_buffer
second_header_misnamed_example =
    second_header_misnamed fields_base blank host_line close_line (codes "Host") (codes " a")
      host_IsLine close_IsLine refl refl (omega arith)

main_loop_no_body_example :
    (main_loop fields_base rows_fsm (new_parser blank) (
      message
        (request_line (codes "GET") (codes "/a") (codes "HTTP") (codes "1") (codes "1"))
        (host_line ∷ [])
        [])).1
    ≡ false
main_loop_no_body_example =
    ap (λ r. r.1)
      (main_loop_no_body fields_base rows_fsm blank (codes "GET") (codes "/a") (codes "HTTP")
        (codes "1") (codes "1") (host_line ∷ []) get_line (host_IsLine, tt) refl)

abbrev size_header : List (Text × Text)
size_header = (codes "Content-Length", codes "2") ∷ []

announced_two : announced fields_base size_header ≡ (false, 2)
unfolding atoi is_digit
announced_two = refl

main_loop_body_example :
    main_loop fields_base rows_fsm (new_parser blank) (
      message
        (request_line (codes "POST") (codes "/a") (codes "HTTP") (codes "1") (codes "1"))
        (size_line ∷ [])
        (codes "hi"))
    ≡ (
      at finish
          (with_body fields_base
            (codes "hi")
            (record (with_line fields_base (codes "POST") (codes "/a") blank) {
              rest = size_header;
            }))
          []
          temp_buffer,
      false,
    )
main_loop_body_example =
    main_loop_body fields_base rows_fsm blank (codes "POST") (codes "/a") (codes "HTTP") (codes "1")
      (codes "1") size_line (codes "Content-Length") (codes " 2") b'h' (codes "i") post_line
      size_IsLine refl (omega arith) refl announced_two

-- A message up to the first byte of its body.
abbrev half_read : Text
half_read =
    message (request_line (codes "POST") (codes "/a") (codes "HTTP") (codes "1") (codes "1"))
      (size_line ∷ []) (codes "h")

half_read_reads : (feed fields_base (new_parser blank) half_read).state ≡ expecting_body
unfolding feed step new_parser is_alpha is_digit is_punct is_valid_method on_method_finish
    append_to_buffer clear_temp is_valid_uri_char is_valid_http is_valid_major is_valid_minor
    on_header_line_finish add_header_line is_need_body need_more_body body_size atoi
half_read_reads = refl

body_exact_example :
    let p = feed fields_base (new_parser blank) half_read in
    ((step fields_base p b'i').state ≡ finish)
    ↔ (length p.temp + 1 ≡ as_size (body_size fields_base p))
body_exact_example = body_exact fields_base blank half_read b'i' half_read_reads
