-- ===== src/HttpParser/Headers.antt =====
-- misc/fsmlite_test.cpp: what the parser makes of the header lines.
use cpp_demo.Prelude.{
  ℕ, ◌<◌, Bool, true, ◌≡◌, refl, ap, ap₂, ◌∙◌, List, [], ◌∷◌, ◌++◌, Text, All, append_assoc,
  append-nil, some, arith, ◌&&◌, not, ◌==◌, length, lt→ltb,
}
use cpp_demo.HttpParser.{
  HttpBase, Parser, Request, temp_buffer, header_line_start, header_line, is_alpha,
  append_to_buffer, add_header_line, on_header_line_finish,
}
use cpp_demo.HttpParser.Table.{react, step, go}
use cpp_demo.HttpParser.Main.{feed, feed_cons, feed_then, feed-append, feed_appends, at}

abbrev pub line_char : ℕ → Bool
line_char c = not (c == 13) && not (c == 10)

-- A header line without its end: a letter, then no line end.
abbrev pub IsLine : Text → Type 0
IsLine [] = ⊥
IsLine (c ∷ cs) = (is_alpha c ≡ true) × All (λ d. line_char d ≡ true) cs

abbrev pub line_end : Text
line_end = 13 ∷ 10 ∷ []

-- The lines, each with its end.
abbrev pub header_text : List Text → Text
header_text [] = []
header_text (l ∷ ls) = (l ++ line_end) ++ header_text ls

-- The lines run together.
abbrev pub joined : List Text → Text
joined [] = []
joined (l ∷ ls) = l ++ joined ls

module _ {R : Type 0} (b : HttpBase R) where
  -- The headers that the lines make behind the text `t`: each line is added to the text of all those
  -- before it, and that text is the header line.
  abbrev pub add_lines : Text → List Text → R → R
  add_lines t [] rest = rest
  add_lines t (l ∷ ls) rest = add_lines (t ++ l) ls (add_header_line b (t ++ l) rest)

  line_loops :
      (q : Parser R) (c : ℕ)
      → line_char c ≡ true
      → react b header_line q c ≡ go header_line (append_to_buffer q c)
  line_loops q c h = ground arith

  line_begins :
      (r : Request R) (t : Text) (c : ℕ)
      → is_alpha c ≡ true
      → step b (at header_line_start r t temp_buffer) c ≡ at header_line r (t ++ c ∷ []) temp_buffer
  unfolding step append_to_buffer is_alpha
  line_begins r t c h = ground arith

  line_ends :
      (r : Request R) (t : Text)
      → feed b (at header_line r t temp_buffer) line_end
        ≡ at header_line_start (record r { rest = add_header_line b t r.rest }) t temp_buffer
  unfolding feed step on_header_line_finish
  line_ends r t = refl

  line_part :
      (r : Request R) (t l : Text)
      → IsLine l
      → feed b (at header_line_start r t temp_buffer) (l ++ line_end)
        ≡ at header_line_start
            (record r { rest = add_header_line b (t ++ l) r.rest })
            (t ++ l)
            temp_buffer
  line_part r t [] h = absurd h
  line_part r t (c ∷ cs) (a, h) =
      let whole : (t ++ c ∷ []) ++ cs ≡ t ++ c ∷ cs = append_assoc t (c ∷ []) cs in
      feed_cons b (at header_line_start r t temp_buffer) c (cs ++ line_end)
      ∙ ap (λ p. feed b p (cs ++ line_end)) (line_begins r t c a)
      ∙ feed-append b (at header_line r (t ++ c ∷ []) temp_buffer) cs line_end
      ∙ ap (λ p. feed b p line_end)
          (feed_appends b header_line line_char line_loops temp_buffer r (t ++ c ∷ []) cs h)
      ∙ ap (λ u. feed b (at header_line r u temp_buffer) line_end) whole
      ∙ line_ends r (t ++ c ∷ cs)

  -- Header lines leave the parser before the next one, with the headers that `add_lines` says: the
  -- text of a line is never cleared, so each header is read from all the lines so far, run together.
  pub feed-headers :
      (ls : List Text) (r : Request R) (t : Text)
      → All IsLine ls
      → feed b (at header_line_start r t temp_buffer) (header_text ls)
        ≡ at header_line_start
            (record r { rest = add_lines t ls r.rest })
            (t ++ joined ls)
            temp_buffer
  unfolding feed
  feed-headers [] r t h = rw append-nil
  feed-headers (l ∷ ls) r t h =
      feed_then b (at header_line_start r t temp_buffer) _ (l ++ line_end) (header_text ls)
        (line_part r t l h.0)
      ∙ feed-headers ls (record r { rest = add_header_line b (t ++ l) r.rest }) (t ++ l) h.1
      ∙ ap
          (λ u.
            at header_line_start (record r { rest = add_lines t (l ∷ ls) r.rest }) u temp_buffer)
          (append_assoc t l (joined ls))

  pub add_header_line_found :
      (t name value : Text) (rest : R)
      → b.split_colon t ≡ (name, some value)
      → 0 < length (b.trim name)
      → add_header_line b t rest ≡ b.add_header (b.trim name) (b.trim value) rest
  unfolding add_header_line
  add_header_line_found t name value rest e n = rw (e, add_header_line) (rw (lt→ltb _ _ n))

  -- So a second header never has its own name: where the first line has a colon (and StrSplit cuts a
  -- text at its first colon), the first header's name is added again, and its value is the first
  -- line's value with the whole second line behind it.
  pub second_header_misnamed :
      (r : Request R) (l m name value : Text)
      → IsLine l
      → IsLine m
      → b.split_colon l ≡ (name, some value)
      → b.split_colon (l ++ m) ≡ (name, some (value ++ m))
      → 0 < length (b.trim name)
      → feed b (at header_line_start r [] temp_buffer) (header_text (l ∷ m ∷ []))
        ≡ at header_line_start
            (record r {
              rest =
                  b.add_header
                    (b.trim name)
                    (b.trim (value ++ m))
                    (b.add_header (b.trim name) (b.trim value) r.rest);
            })
            (l ++ m)
            temp_buffer
  second_header_misnamed r l m name value h k s s2 n =
      let first = add_header_line_found l name value r.rest s n in
      let second =
        add_header_line_found (l ++ m) name (value ++ m) (add_header_line b l r.rest) s2 n in
      feed-headers (l ∷ m ∷ []) r [] (h, (k, tt))
      ∙ ap₂ (λ x u. at header_line_start (record r { rest = x }) (l ++ u) temp_buffer)
          (second ∙ ap (b.add_header (b.trim name) (b.trim (value ++ m))) first) (append-nil m)
