-- ===== src/HttpParser/Invariant.antt =====
-- misc/fsmlite_test.cpp: what holds of the parser after any text.
use cpp_demo.Prelude.{
  ℕ, ◌+◌, ◌≡◌, ◌≢◌, ◌↔◌, ◌<◌, refl, Bool, true, false, [], ◌∷◌, Text, text_eq_sound, codes, arith,
  length, length-append,
}
use cpp_demo.HttpParser.{
  HttpBase, Parser, ParseState, Request, Buffer, method_buffer, uri_buffer, temp_buffer, error,
  start, method, uri, expecting_body, finish, append_to_buffer, clear_temp, on_method_finish,
  is_valid_method, on_header_line_finish, body_size, as_size, is_need_body, need_more_body,
  on_body_finish, new_parser,
}
use cpp_demo.HttpParser.Table.{react, step}
use cpp_demo.HttpParser.Main.{feed}
use cpp_demo.HttpParser.RequestLine.{IsMethod}

-- Where `buffer_` points in each state.
abbrev pub buffer_in : ParseState → Buffer
buffer_in start = method_buffer
buffer_in method = method_buffer
buffer_in uri = uri_buffer
buffer_in _ = temp_buffer

abbrev pub in_line : ParseState → Bool
in_line start = true
in_line method = true
in_line error = true
in_line _ = false

module _ {R : Type 0} (b : HttpBase R) where
  pub record Inv (p : Parser R) : Type 0 where
    pub points : p.state ≢ error → p.buffer ≡ buffer_in p.state
    pub known : in_line p.state ≡ false → IsMethod p.request.method
    pub room : p.state ≡ expecting_body → length p.temp < as_size (body_size b p)

  react-Inv : (s : ParseState) (p : Parser R) (c : ℕ) → p.state ≡ s → Inv p → Inv (react b s p c)
  unfolding append_to_buffer clear_temp on_method_finish is_valid_method on_header_line_finish
      is_need_body need_more_body on_body_finish body_size
  react-Inv error p c e v = v
  react-Inv finish p c e v = v
  react-Inv method p c e v = ground (
    arith,
    text_eq_sound p.request.method (codes "GET"),
    text_eq_sound p.request.method (codes "POST"),
  )
  react-Inv expecting_body p c e v = ground (arith, length-append p.temp (c ∷ []))
  react-Inv _ p c e v = ground arith

  pub step-Inv : (p : Parser R) (c : ℕ) → Inv p → Inv (step b p c)
  unfolding step
  step-Inv p c v = react-Inv p.state p c refl v

  pub feed-Inv : (p : Parser R) (cs : Text) → Inv p → Inv (feed b p cs)
  unfolding feed
  feed-Inv p [] v = v
  feed-Inv p (c ∷ cs) v = feed-Inv (step b p c) cs (step-Inv p c v)

  new_parser-Inv : (r : Request R) → Inv (new_parser r)
  unfolding new_parser
  new_parser-Inv r = ground arith

  body_exact_of :
      (p : Parser R) (c : ℕ)
      → Inv p
      → p.state ≡ expecting_body
      → ((step b p c).state ≡ finish) ↔ (length p.temp + 1 ≡ as_size (body_size b p))
  unfolding step need_more_body
  body_exact_of p c v e = (λ h. ground arith, λ h. ground arith)

  -- A text that takes a new parser past the request's method has named GET or POST.
  pub feed_past_method :
      (r : Request R) (cs : Text)
      → let p = feed b (new_parser r) cs in in_line p.state ≡ false → IsMethod p.request.method
  feed_past_method r cs = (feed-Inv (new_parser r) cs (new_parser-Inv r)).known

  -- However the parser came to read a body: the character that ends the body is the one that makes
  -- it as long as the announced size.
  pub body_exact :
      (r : Request R) (cs : Text) (c : ℕ)
      → let p = feed b (new_parser r) cs in
        p.state ≡ expecting_body
        → ((step b p c).state ≡ finish) ↔ (length p.temp + 1 ≡ as_size (body_size b p))
  body_exact r cs c =
      body_exact_of (feed b (new_parser r) cs) c (feed-Inv (new_parser r) cs (new_parser-Inv r))
