-- ===== src/HttpParser/RequestLine.antt =====
-- misc/fsmlite_test.cpp: what the parser makes of a request line.
use cpp_demo.Prelude.{
  ℕ, Bool, true, ◌≡◌, refl, ap, ◌∙◌, ◌⊎◌, [], ◌∷◌, ◌++◌, Text, codes, text_eq_refl, All,
  append_assoc, arith, ◌||◌,
}
use cpp_demo.HttpParser.{
  HttpBase, Parser, Request, method_buffer, uri_buffer, temp_buffer, method, uri, http, major,
  minor, header_line_start, is_alpha, is_digit, is_punct, is_valid_method, is_valid_uri_char,
  is_valid_major, is_valid_minor, is_valid_http, append_to_buffer, on_method_finish, clear_temp,
  new_parser,
}
use cpp_demo.HttpParser.Table.{react, step, go}
use cpp_demo.HttpParser.Main.{feed, feed_cons, feed_then, feed-append, feed_appends, at}

abbrev pub IsAlpha : Text → Type 0
IsAlpha cs = All (λ c. is_alpha c ≡ true) cs

abbrev pub IsDigits : Text → Type 0
IsDigits cs = All (λ c. is_digit c ≡ true) cs

abbrev pub uri_char : ℕ → Bool
uri_char c = is_alpha c || is_digit c || is_punct c

abbrev pub IsUri : Text → Type 0
IsUri cs = All (λ c. uri_char c ≡ true) cs

-- The methods that the parser knows.
abbrev pub IsMethod : Text → Type 0
IsMethod m = (m ≡ codes "GET") ⊎ (m ≡ codes "POST")

-- The characters that each part's loop accepts, and the one that ends the part.
module _ {R : Type 0} (b : HttpBase R) where
  method_loops :
      (q : Parser R) (c : ℕ)
      → is_alpha c ≡ true
      → react b method q c ≡ go method (append_to_buffer q c)
  method_loops q c h = ground arith

  uri_loops :
      (q : Parser R) (c : ℕ) → uri_char c ≡ true → react b uri q c ≡ go uri (append_to_buffer q c)
  unfolding is_valid_uri_char
  uri_loops q c h = ground arith

  http_loops :
      (q : Parser R) (c : ℕ) → is_alpha c ≡ true → react b http q c ≡ go http (append_to_buffer q c)
  http_loops q c h = ground arith

  major_loops :
      (q : Parser R) (c : ℕ)
      → is_digit c ≡ true
      → react b major q c ≡ go major (append_to_buffer q c)
  major_loops q c h = ground arith

  minor_loops :
      (q : Parser R) (c : ℕ)
      → is_digit c ≡ true
      → react b minor q c ≡ go minor (append_to_buffer q c)
  minor_loops q c h = ground arith

  method_begins :
      (r : Request R) (c : ℕ)
      → is_alpha c ≡ true
      → step b (new_parser r) c
        ≡ at method (record r { method = r.method ++ c ∷ [] }) [] method_buffer
  unfolding step new_parser append_to_buffer
  method_begins r c h = rw h

  method_ends :
      (r : Request R)
      → IsMethod r.method
      → feed b (at method r [] method_buffer) (32 ∷ []) ≡ at uri r [] uri_buffer
  unfolding feed step is_valid_method on_method_finish is_alpha
  method_ends r m = ground (arith, text_eq_refl (codes "GET"), text_eq_refl (codes "POST"))

  uri_ends : (r : Request R) → feed b (at uri r [] uri_buffer) (32 ∷ []) ≡ at http r [] temp_buffer
  unfolding feed step is_valid_uri_char is_alpha is_digit is_punct clear_temp
  uri_ends r = refl

  http_ends :
      (r : Request R) (t : Text)
      → b.to_lower_case t ≡ codes "http"
      → feed b (at http r t temp_buffer) (47 ∷ []) ≡ at major r [] temp_buffer
  unfolding feed step is_valid_http is_alpha clear_temp
  http_ends r t h = rw h

  major_ends :
      (r : Request R) (t : Text)
      → feed b (at major r t temp_buffer) (46 ∷ []) ≡ at minor r [] temp_buffer
  unfolding feed step is_valid_major is_digit clear_temp
  major_ends r t = refl

  minor_ends :
      (r : Request R) (t : Text)
      → feed b (at minor r t temp_buffer) (13 ∷ 10 ∷ []) ≡ at header_line_start r [] temp_buffer
  unfolding feed step is_valid_minor is_digit clear_temp
  minor_ends r t = refl

-- A request line, METHOD URI NAME/MAJOR.MINOR and a line end, as bytes.
abbrev pub request_line : Text → Text → Text → Text → Text → Text
request_line m u h major_digits minor_digits =
    (m ++ 32 ∷ [])
    ++ ((u ++ 32 ∷ [])
        ++ ((h ++ 47 ∷ []) ++ ((major_digits ++ 46 ∷ []) ++ (minor_digits ++ 13 ∷ 10 ∷ []))))

module _ {R : Type 0} (b : HttpBase R) where
  method_part :
      (r : Request R) (c : ℕ) (cs : Text)
      → IsAlpha (c ∷ cs)
      → IsMethod (r.method ++ c ∷ cs)
      → feed b (new_parser r) (c ∷ cs ++ 32 ∷ [])
        ≡ at uri (record r { method = r.method ++ c ∷ cs }) [] uri_buffer
  method_part r c cs a m =
      let r' : Request R = record r { method = r.method ++ c ∷ [] } in
      let whole : (r.method ++ c ∷ []) ++ cs ≡ r.method ++ c ∷ cs = rw append_assoc in
      feed_cons b (new_parser r) c (cs ++ 32 ∷ [])
      ∙ ap (λ p. feed b p (cs ++ 32 ∷ [])) (method_begins b r c a.0)
      ∙ feed-append b (at method r' [] method_buffer) cs (32 ∷ [])
      ∙ ap (λ p. feed b p (32 ∷ []))
          (feed_appends b method is_alpha (method_loops b) method_buffer r' [] cs a.1)
      ∙ ap (λ t. feed b (at method (record r { method = t }) [] method_buffer) (32 ∷ [])) whole
      ∙ method_ends b (record r { method = r.method ++ c ∷ cs }) m

  uri_part :
      (r : Request R) (cs : Text)
      → IsUri cs
      → feed b (at uri r [] uri_buffer) (cs ++ 32 ∷ [])
        ≡ at http (record r { uri = r.uri ++ cs }) [] temp_buffer
  uri_part r cs a =
      feed-append b (at uri r [] uri_buffer) cs (32 ∷ [])
      ∙ ap (λ p. feed b p (32 ∷ []))
          (feed_appends b uri uri_char (uri_loops b) uri_buffer r [] cs a)
      ∙ uri_ends b (record r { uri = r.uri ++ cs })

  http_part :
      (r : Request R) (cs : Text)
      → IsAlpha cs
      → b.to_lower_case cs ≡ codes "http"
      → feed b (at http r [] temp_buffer) (cs ++ 47 ∷ []) ≡ at major r [] temp_buffer
  http_part r cs a h =
      feed-append b (at http r [] temp_buffer) cs (47 ∷ [])
      ∙ ap (λ p. feed b p (47 ∷ []))
          (feed_appends b http is_alpha (http_loops b) temp_buffer r [] cs a)
      ∙ http_ends b r cs h

  major_part :
      (r : Request R) (cs : Text)
      → IsDigits cs
      → feed b (at major r [] temp_buffer) (cs ++ 46 ∷ []) ≡ at minor r [] temp_buffer
  major_part r cs a =
      feed-append b (at major r [] temp_buffer) cs (46 ∷ [])
      ∙ ap (λ p. feed b p (46 ∷ []))
          (feed_appends b major is_digit (major_loops b) temp_buffer r [] cs a)
      ∙ major_ends b r cs

  minor_part :
      (r : Request R) (cs : Text)
      → IsDigits cs
      → feed b (at minor r [] temp_buffer) (cs ++ 13 ∷ 10 ∷ [])
        ≡ at header_line_start r [] temp_buffer
  minor_part r cs a =
      feed-append b (at minor r [] temp_buffer) cs (13 ∷ 10 ∷ [])
      ∙ ap (λ p. feed b p (13 ∷ 10 ∷ []))
          (feed_appends b minor is_digit (minor_loops b) temp_buffer r [] cs a)
      ∙ minor_ends b r cs

  -- A request line whose method, after what the request's own method holds, is GET or POST, whose
  -- name is http in any case, and whose other parts are made of the characters allowed there, takes
  -- a new parser to the first header line, with the method and the target stored. The version's
  -- digits are lost: both version fields are as they were.
  pub feed-request_line :
      (r : Request R) (c : ℕ) (cs u h major_digits minor_digits : Text)
      → IsAlpha (c ∷ cs)
      → IsMethod (r.method ++ c ∷ cs)
      → IsUri u
      → IsAlpha h
      → b.to_lower_case h ≡ codes "http"
      → IsDigits major_digits
      → IsDigits minor_digits
      → feed b (new_parser r) (request_line (c ∷ cs) u h major_digits minor_digits)
        ≡ at header_line_start
            (record r { method = r.method ++ c ∷ cs; uri = r.uri ++ u })
            []
            temp_buffer
  feed-request_line r c cs u h x y a m v g l d e =
      let r1 : Request R = record r { method = r.method ++ c ∷ cs } in
      let r2 : Request R = record r { method = r.method ++ c ∷ cs; uri = r.uri ++ u } in
      feed_then b _ _ _ _ (method_part r c cs a m)
      ∙ feed_then b _ _ _ _ (uri_part r1 u v)
      ∙ feed_then b _ _ _ _ (http_part r2 h g l)
      ∙ feed_then b _ _ _ _ (major_part r2 x d)
      ∙ minor_part r2 y e
