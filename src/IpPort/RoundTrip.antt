-- ===== src/IpPort/RoundTrip.antt =====
-- What AbslParseFlag makes of the text of AbslUnparseFlag (common/abseil_flag_ipport.cpp).
use cpp_demo.Prelude.{
  ℕ, ◌≡◌, sym, ap, ◌∙◌, true, false, List, [], ◌∷◌, ◌++◌, map, append_assoc, Text, length,
  length-append, All, ◌==◌, arith, append-nil,
}
use cpp_demo.IpPort.{
  Absl, IpPort, Without, comma, colon, to_string, absl_unparse_flag, parse_pieces, absl_parse_flag,
  Proper, out_of_range-false,
}

module _ (a : Absl) where
  Without-append : (c : ℕ) (xs ys : Text) → Without c xs → Without c ys → Without c (xs ++ ys)
  Without-append c [] ys h k = k
  Without-append c (x ∷ xs) ys h k = (h.0, Without-append c xs ys h.1 k)

  split_pair : (p : IpPort) → Proper a p → a.str_split (to_string p) colon ≡ p.ip ∷ p.port ∷ []
  unfolding to_string
  split_pair p (ic, im, pc, pm, ok) =
      a.split_first p.ip p.port colon ic ∙ ap (◌∷◌ p.ip) (a.split_none p.port colon pc)

  to_string-Without : (p : IpPort) → Proper a p → Without comma (to_string p)
  unfolding to_string
  to_string-Without p (ic, im, pc, pm, ok) =
      Without-append comma p.ip (colon ∷ p.port) im ((λ e. omega (arith, e)), pm)

  pieces_lem :
      (p : IpPort) (ps : List IpPort)
      → Proper a p
      → All (Proper a) ps
      → a.str_split (absl_unparse_flag (p ∷ ps)) comma ≡ map to_string (p ∷ ps)
  unfolding absl_unparse_flag
  pieces_lem p [] h hs = a.split_none (to_string p) comma (to_string-Without p h)
  pieces_lem p (q ∷ qs) h hs =
      a.split_first (to_string p) (absl_unparse_flag (q ∷ qs)) comma (to_string-Without p h)
      ∙ ap (◌∷◌ (to_string p)) (pieces_lem q qs hs.0 hs.1)

  parse_pieces-map :
      (ps acc : List IpPort) (error : Text)
      → All (Proper a) ps
      → parse_pieces a (map to_string ps) acc error
        ≡ record { result = true; ip_ports = acc ++ ps; error = error }
  unfolding parse_pieces
  parse_pieces-map [] acc error h =
      ap (λ qs. record { result = true; ip_ports = qs; error = error }) (sym (append-nil acc))
  parse_pieces-map (p ∷ ps) acc error (h, hs) =
      let (minus, n, number, most, sign) = h.4 in
      ground (
        arith,
        split_pair p h,
        number,
        out_of_range-false minus n most sign,
        parse_pieces-map ps (acc ++ p ∷ []) error hs,
        append_assoc acc (p ∷ []) ps,
      )

  some_text : (p : IpPort) (ps : List IpPort) → (length (absl_unparse_flag (p ∷ ps)) == 0) ≡ false
  unfolding absl_unparse_flag to_string
  some_text p [] = ground (arith, length-append p.ip (colon ∷ p.port))
  some_text p (q ∷ qs) =
      ground (arith, length-append (p.ip ++ colon ∷ p.port) (comma ∷ absl_unparse_flag (q ∷ qs)))

  -- A list of pairs whose parts hold no delimiter and whose ports are numbers in the range is parsed
  -- from its printed form: it is appended to what the flag held, and no error is set.
  pub parse-unparse :
      (ps acc : List IpPort) (error : Text)
      → All (Proper a) ps
      → absl_parse_flag a (absl_unparse_flag ps) acc error
        ≡ record { result = true; ip_ports = acc ++ ps; error = error }
  unfolding absl_parse_flag absl_unparse_flag
  parse-unparse [] acc error h =
      ap (λ qs. record { result = true; ip_ports = qs; error = error }) (sym (append-nil acc))
  parse-unparse (p ∷ ps) acc error h =
      rw (some_text p ps, pieces_lem p ps h.0 h.1) (parse_pieces-map (p ∷ ps) acc error h)
