-- ===== src/IpPort/Ports.antt =====
-- What AbslParseFlag appends to the flag (common/abseil_flag_ipport.cpp).
use cpp_demo.Prelude.{
  ℕ, suc, ◌+◌, ◌≡◌, refl, sym, ap, ◌∙◌, Bool, true, false, List, [], ◌∷◌, ◌++◌, append_assoc, Text,
  codes, length, length-append, All, arith, append-nil,
}
use cpp_demo.IpPort.{
  Absl, IpPort, Flag, Parsed, parsed, unparsed, comma, colon, range_of, check_port, check_pair,
  parse_pieces, absl_parse_flag, PortOk, in_range,
}

module _ (a : Absl) where
  -- What the loop appends.
  abbrev pub Appended : Flag → List Text → List IpPort → Type 0
  Appended f pieces acc =
      (qs : List IpPort) × (f.ip_ports ≡ acc ++ qs)
      × All (λ q. PortOk a q.port) qs
      × (f.result ≡ true → length qs ≡ length pieces)

  nothing_more :
      (error : Text) (pieces : List Text) (acc : List IpPort)
      → Appended (record { result = false; ip_ports = acc; error = error }) pieces acc
  nothing_more error pieces acc = ([], sym (append-nil acc), tt, λ h. ground arith)

  check_port-Appended :
      (ip port : Text) (r : Parsed) (acc : List IpPort) (error p : Text) (ps : List Text)
      (rest : List IpPort → Flag)
      → a.parse_int port ≡ r
      → ((acc' : List IpPort) → Appended (rest acc') ps acc')
      → (b : Bool) → range_of r ≡ b
      → Appended (check_port a ip port r acc error rest) (p ∷ ps) acc
  unfolding check_port
  check_port-Appended ip port (unparsed why) acc error p ps rest e ih b c =
      nothing_more why (p ∷ ps) acc
  check_port-Appended ip port (parsed minus n) acc error p ps rest e ih true c =
      rw c (nothing_more (codes "invalid port: " ++ port) (p ∷ ps) acc)
  check_port-Appended ip port (parsed minus n) acc error p ps rest e ih false c =
      let q : IpPort = record { ip = ip; port = port } in
      let (qs, added, fine, all) = ih (acc ++ q ∷ []) in
      let (most, sign) = in_range minus n c in
      rw c (
        q ∷ qs,
        added ∙ append_assoc acc (q ∷ []) qs,
        ((minus, n, e, most, sign), fine),
        λ h. ap suc (all h),
      )

  check_pair-Appended :
      (p : Text) (pair : List Text) (acc : List IpPort) (error : Text) (ps : List Text)
      (rest : List IpPort → Flag)
      → ((acc' : List IpPort) → Appended (rest acc') ps acc')
      → Appended (check_pair a p pair acc error rest) (p ∷ ps) acc
  unfolding check_pair
  check_pair-Appended p [] acc error ps rest ih =
      nothing_more (codes "invalid ipport: " ++ p) (p ∷ ps) acc
  check_pair-Appended p (x ∷ []) acc error ps rest ih =
      nothing_more (codes "invalid ipport: " ++ p) (p ∷ ps) acc
  check_pair-Appended p (x ∷ y ∷ []) acc error ps rest ih =
      check_port-Appended x y (a.parse_int y) acc error p ps rest refl ih (range_of (a.parse_int y))
        refl
  check_pair-Appended p (x ∷ y ∷ z ∷ zs) acc error ps rest ih =
      nothing_more (codes "invalid ipport: " ++ p) (p ∷ ps) acc

  parse_pieces-Appended :
      (pieces : List Text) (acc : List IpPort) (error : Text)
      → Appended (parse_pieces a pieces acc error) pieces acc
  unfolding parse_pieces
  parse_pieces-Appended [] acc error = ([], sym (append-nil acc), tt, λ h. refl)
  parse_pieces-Appended (p ∷ ps) acc error =
      check_pair-Appended p (a.str_split p colon) acc error ps
        (λ acc'. parse_pieces a ps acc' error) (λ acc'. parse_pieces-Appended ps acc' error)

  parse_flag_lem :
      (c : ℕ) (cs : Text) (acc : List IpPort) (error : Text)
      → absl_parse_flag a (c ∷ cs) acc error ≡ parse_pieces a (a.str_split (c ∷ cs) comma) acc error
  unfolding absl_parse_flag
  parse_flag_lem c cs acc error = ground arith

  -- Whatever the text, and whether it is accepted or not: pairs are only appended to those that the flag
  -- held, each of them with a port that is a number from 0 to 32767.
  pub absl_parse_flag-appends :
      (text : Text) (acc : List IpPort) (error : Text)
      → let f = absl_parse_flag a text acc error in
        (qs : List IpPort) × (f.ip_ports ≡ acc ++ qs) × All (λ q. PortOk a q.port) qs
  unfolding absl_parse_flag
  absl_parse_flag-appends [] acc error = ([], sym (append-nil acc), tt)
  absl_parse_flag-appends (c ∷ cs) acc error =
      let (qs, added, fine, all) = parse_pieces-Appended (a.str_split (c ∷ cs) comma) acc error in
      (qs, ap (λ f. f.ip_ports) (parse_flag_lem c cs acc error) ∙ added, fine)

  -- A text that is not empty and is accepted gives one pair for each of its pieces.
  pub absl_parse_flag-counts :
      (c : ℕ) (cs : Text) (acc : List IpPort) (error : Text)
      → let f = absl_parse_flag a (c ∷ cs) acc error in
        f.result ≡ true → length f.ip_ports ≡ length acc + length (a.str_split (c ∷ cs) comma)
  absl_parse_flag-counts c cs acc error h =
      let (qs, added, fine, all) = parse_pieces-Appended (a.str_split (c ∷ cs) comma) acc error in
      let same = parse_flag_lem c cs acc error in
      ap (λ f. length f.ip_ports) same
      ∙ ap length added
      ∙ length-append acc qs
      ∙ ap (λ n. length acc + n) (all (sym (ap (λ f. f.result) same) ∙ h))
