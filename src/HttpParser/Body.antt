-- ===== src/HttpParser/Body.antt =====
-- misc/fsmlite_test.cpp: the end of the headers, the body, and whole messages.
use cpp_demo.Prelude.{
  ℕ, ◌+◌, ◌≡◌, ◌≢◌, ◌<◌, refl, ap, sym, ◌∙◌, Bool, true, false, ◌&&◌, List, [], ◌∷◌, ◌++◌, Text,
  text_eq, All, append_assoc, arith, length, lt→ltb, length-append, codes, some,
}
use cpp_demo.HttpParser.{
  HttpBase, Request, temp_buffer, header_line_start, expecting_body, finish, append_to_buffer,
  clear_temp, is_need_body, need_more_body, body_size, positive, on_body_finish, or_plain, atoi,
  new_parser,
}
use cpp_demo.HttpParser.Table.{FsmLite, step, is_final}
use cpp_demo.HttpParser.Main.{is_error, main_loop, main_loop-feed, feed, feed_then, at}
use cpp_demo.HttpParser.RequestLine.{
  IsAlpha, IsMethod, IsUri, IsDigits, request_line, feed-request_line,
}
use cpp_demo.HttpParser.Headers.{
  IsLine, header_text, add_lines, joined, line_end, feed-headers, add_header_line_found,
}

module _ {R : Type 0} (b : HttpBase R) where
  -- The size that the headers announce.
  abbrev pub announced : R → Bool × ℕ
  announced rest = atoi (b.content_length rest)

  -- The request once its body is set.
  abbrev pub with_body : Text → Request R → Request R
  with_body body r = record r {
    rest = b.set_body body (or_plain (b.get_header (codes "Content-Type") r.rest)) r.rest;
  }

  no_body :
      (r : Request R) (t : Text)
      → text_eq r.method b.post && positive (announced r.rest) ≡ false
      → feed b (at header_line_start r t temp_buffer) line_end ≡ at finish r t temp_buffer
  unfolding feed step is_need_body body_size
  no_body r t h = ground arith

  body_begins :
      (r : Request R) (t : Text)
      → text_eq r.method b.post && positive (announced r.rest) ≡ true
      → feed b (at header_line_start r t temp_buffer) line_end ≡ at expecting_body r [] temp_buffer
  unfolding feed step is_need_body body_size clear_temp
  body_begins r t h = ground arith

  body_more :
      (r : Request R) (t : Text) (c n : ℕ)
      → announced r.rest ≡ (false, n)
      → length t + 1 < n
      → step b (at expecting_body r t temp_buffer) c ≡ at expecting_body r (t ++ c ∷ []) temp_buffer
  unfolding step need_more_body body_size append_to_buffer
  body_more r t c n e h = rw e (rw (lt→ltb _ _ h))

  body_last :
      (r : Request R) (t : Text) (c : ℕ)
      → announced r.rest ≡ (false, length t + 1)
      → step b (at expecting_body r t temp_buffer) c
        ≡ at finish (with_body (t ++ c ∷ []) r) [] temp_buffer
  unfolding step need_more_body body_size on_body_finish
  body_last r t c e = rw e (ground arith)

  -- The bytes up to the announced size are the body.
  feed-body :
      (cs : Text) (c : ℕ) (r : Request R) (t : Text)
      → announced r.rest ≡ (false, length t + length (c ∷ cs))
      → feed b (at expecting_body r t temp_buffer) (c ∷ cs)
        ≡ at finish (with_body (t ++ c ∷ cs) r) [] temp_buffer
  unfolding feed
  feed-body [] c r t e = body_last r t c e
  feed-body (d ∷ cs) c r t e =
      let whole : (t ++ c ∷ []) ++ d ∷ cs ≡ t ++ c ∷ d ∷ cs = append_assoc t (c ∷ []) (d ∷ cs) in
      let size : length (t ++ c ∷ []) + length (d ∷ cs) ≡ length t + length (c ∷ d ∷ cs) =
        omega (arith, length-append t (c ∷ [])) in
      ap (λ p. feed b p (d ∷ cs)) (body_more r t c _ e (omega arith))
      ∙ feed-body cs d r (t ++ c ∷ []) (e ∙ ap (λ n. (false, n)) (sym size))
      ∙ ap (λ u. at finish (with_body u r) [] temp_buffer) whole

-- A whole message, as main feeds it: request line, header lines, empty line, body.
abbrev pub message : Text → List Text → Text → Text
message line ls body = line ++ (header_text ls ++ (line_end ++ body))

-- What the theorems on whole messages ask of a message's first line.
pub record IsRequestLine {R : Type 0} (b : HttpBase R) (r : Request R) (m u h x y : Text)
    : Type 0 where
  pub method_letters : IsAlpha m
  pub method_some : m ≢ []
  pub method_known : IsMethod (r.method ++ m)
  pub target : IsUri u
  pub name_letters : IsAlpha h
  pub name_http : b.to_lower_case h ≡ codes "http"
  pub major_digits : IsDigits x
  pub minor_digits : IsDigits y

module _ {R : Type 0} (b : HttpBase R) where
  line_read :
      (r : Request R) (m u h x y : Text)
      → IsRequestLine b r m u h x y
      → feed b (new_parser r) (request_line m u h x y)
        ≡ at header_line_start
            (record r { method = r.method ++ m; uri = r.uri ++ u })
            []
            temp_buffer
  line_read r [] u h x y l = absurd (l.method_some refl)
  line_read r (c ∷ cs) u h x y l =
      feed-request_line b r c cs u h x y l.method_letters l.method_known l.target l.name_letters
        l.name_http l.major_digits l.minor_digits

  -- The request behind the header lines.
  abbrev pub with_headers : List Text → Request R → Request R
  with_headers ls r = record r { rest = add_lines b [] ls r.rest }

  -- The request behind the request line.
  abbrev pub with_line : Text → Text → Request R → Request R
  with_line m u r = record r { method = r.method ++ m; uri = r.uri ++ u }

  head_read :
      (r : Request R) (m u h x y : Text) (ls : List Text) (rest : Text)
      → IsRequestLine b r m u h x y
      → All IsLine ls
      → feed b (new_parser r) (message (request_line m u h x y) ls rest)
        ≡ feed b
            (at header_line_start (with_headers ls (with_line m u r)) (joined ls) temp_buffer)
            (line_end ++ rest)
  head_read r m u h x y ls rest l k =
      feed_then b (new_parser r) _ (request_line m u h x y) (header_text ls ++ (line_end ++ rest))
        (line_read r m u h x y l)
      ∙ feed_then b (at header_line_start (with_line m u r) [] temp_buffer) _ (header_text ls)
          (line_end ++ rest) (feed-headers b ls (with_line m u r) [] k)

module _ {R : Type 0} (b : HttpBase R) (fsm : FsmLite R) where
  new_parser_runs : (r : Request R) → is_final (new_parser r).state ≡ false
  unfolding new_parser
  new_parser_runs r = refl

  -- A message that needs no body (its method is not POST, or the headers, as the parser reads them,
  -- announce no positive size) is accepted by main's loop at its empty line, with no error.
  pub main_loop_no_body :
      (r : Request R) (m u h x y : Text) (ls : List Text)
      → IsRequestLine b r m u h x y
      → All IsLine ls
      → let q = with_headers b ls (with_line b m u r) in
        text_eq q.method b.post && positive (announced b q.rest) ≡ false
        → main_loop b fsm (new_parser r) (message (request_line m u h x y) ls [])
          ≡ (at finish q (joined ls) temp_buffer, false)
  main_loop_no_body r m u h x y ls l k n =
      let q = with_headers b ls (with_line b m u r) in
      main_loop-feed b fsm (new_parser r) (message (request_line m u h x y) ls [])
        (new_parser_runs r)
      ∙ ap (λ p. (p, is_error p.state))
          (head_read b r m u h x y ls [] l k ∙ no_body b q (joined ls) n)

  -- The same for a message with a body of the size that is found in the headers as the parser makes
  -- them, each from all the lines so far.
  main_loop-with_body :
      (r : Request R) (m u h x y : Text) (ls : List Text) (c : ℕ) (cs : Text)
      → IsRequestLine b r m u h x y
      → All IsLine ls
      → let q = with_headers b ls (with_line b m u r) in
        text_eq q.method b.post ≡ true
        → announced b q.rest ≡ (false, length (c ∷ cs))
        → main_loop b fsm (new_parser r) (message (request_line m u h x y) ls (c ∷ cs))
          ≡ (at finish (with_body b (c ∷ cs) q) [] temp_buffer, false)
  main_loop-with_body r m u h x y ls c cs l k p n =
      let size : length (c ∷ cs) ≡ 0 + length (c ∷ cs) = omega arith in
      let q = with_headers b ls (with_line b m u r) in
      main_loop-feed b fsm (new_parser r) (message (request_line m u h x y) ls (c ∷ cs))
        (new_parser_runs r)
      ∙ ap (λ p. (p, is_error p.state))
          (head_read b r m u h x y ls (c ∷ cs) l k
            ∙ feed_then b (at header_line_start q (joined ls) temp_buffer) _ line_end (c ∷ cs)
                (body_begins b q (joined ls) (rw (p, n) (ground arith)))
            ∙ feed-body b cs c q [] (n ∙ ap (λ k. (false, k)) size))

  -- A POST message whose one header line, a name and a value around its first colon, announces the size
  -- of the body, and that has a body of exactly this size, not empty, is accepted by main's loop with
  -- no error; the header is added under its name, and the body is set to those bytes.
  pub main_loop_body :
      (r : Request R) (m u h x y l name value : Text) (c : ℕ) (cs : Text)
      → IsRequestLine b r m u h x y
      → IsLine l
      → b.split_colon l ≡ (name, some value)
      → 0 < length (b.trim name)
      → let q = with_line b m u r in
        let headers = b.add_header (b.trim name) (b.trim value) q.rest in
        text_eq q.method b.post ≡ true
        → announced b headers ≡ (false, length (c ∷ cs))
        → main_loop b fsm (new_parser r) (message (request_line m u h x y) (l ∷ []) (c ∷ cs))
          ≡ (at finish (with_body b (c ∷ cs) (record q { rest = headers })) [] temp_buffer, false)
  main_loop_body r m u h x y l name value c cs line k split some_name p n =
      let q = with_line b m u r in
      let added = add_header_line_found b l name value q.rest split some_name in
      main_loop-with_body r m u h x y (l ∷ []) c cs line (k, tt) p (ap (announced b) added ∙ n)
      ∙ ap (λ t. (at finish (with_body b (c ∷ cs) (record q { rest = t })) [] temp_buffer, false))
          added
