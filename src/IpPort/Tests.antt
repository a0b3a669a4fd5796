-- ===== src/IpPort/Tests.antt =====
-- The theorems on common/abseil_flag_ipport.cpp at one pair, with a split and a parse of numbers that
-- obey absl's documentation.
use cpp_demo.Prelude.{
  ℕ, ◌+◌, ◌*◌, ◌-◌, ◌≡◌, refl, true, false, List, [], ◌∷◌, ◌++◌, Text, codes, All, ◌&&◌, leb, ◌==◌,
  if◌then◌else◌, arith, inl,
}
use cpp_demo.IpPort.RoundTrip.{parse-unparse}
use cpp_demo.IpPort.Ports.{absl_parse_flag-appends}
use cpp_demo.IpPort.{
  Absl, IpPort, Without, Parsed, parsed, unparsed, PortOk, Proper, absl_parse_flag,
  absl_unparse_flag,
}

abbrev onto_first : ℕ → List Text → List Text
onto_first c [] = (c ∷ []) ∷ []
onto_first c (t ∷ ts) = (c ∷ t) ∷ ts

abbrev split : Text → ℕ → List Text
split [] c = [] ∷ []
split (x ∷ xs) c = let rest = split xs c in if x == c then [] ∷ rest else onto_first x rest

split_whole : (t : Text) (c : ℕ) → Without c t → split t c ≡ t ∷ []
split_whole [] c h = refl
split_whole (x ∷ xs) c h = ground (arith, split_whole xs c)

split_cut : (t u : Text) (c : ℕ) → Without c t → split (t ++ c ∷ u) c ≡ t ∷ split u c
split_cut [] u c h = ground arith
split_cut (x ∷ xs) u c h = ground (arith, split_cut xs u c)

abbrev number : ℕ → Text → Parsed
number n [] = parsed false n
number n (c ∷ cs) =
    let rest = number (n * 10 + (c - 48)) cs in
    if leb 48 c && leb c 57 then rest else unparsed (codes "no number")

abbrev decimal : Absl
decimal = record {
  str_split = split;
  parse_int = number 0;
  split_none = split_whole;
  split_first = split_cut;
}

abbrev home : IpPort
home = record { ip = codes "127.0.0.1"; port = codes "80" }

home-Proper : Proper decimal home
home-Proper = (
  ground arith,
  ground arith,
  ground arith,
  ground arith,
  (false, 80, refl, omega arith, inl refl),
)

parse-unparse_example :
    absl_parse_flag decimal (absl_unparse_flag (home ∷ home ∷ [])) (home ∷ []) []
    ≡ record { result = true; ip_ports = home ∷ home ∷ home ∷ []; error = [] }
parse-unparse_example =
    parse-unparse decimal (home ∷ home ∷ []) (home ∷ []) [] (home-Proper, (home-Proper, tt))

absl_parse_flag-appends_example :
    let f = absl_parse_flag decimal (codes "a:80,b") [] [] in
    (qs : List IpPort) × (f.ip_ports ≡ qs) × All (λ q. PortOk decimal q.port) qs
absl_parse_flag-appends_example = absl_parse_flag-appends decimal (codes "a:80,b") [] []
