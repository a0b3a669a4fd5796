-- ===== src/Hmac.antt =====
-- openssl/hmac.cpp: HMAC over SHA-256. OpenSSL's digest and absl::BytesToHexString are parameters;
-- bytes are numbers below 256.
mod Tests
use cpp_demo.Prelude.{
  ℕ, zero, suc, ◌-◌, ◌<◌, ◌≤◌, ◌≡◌, refl, ap, ap₂, sym, ◌∙◌, Bool, true, false, ◌&&◌, List, [], ◌∷◌,
  ◌++◌, map, Text, All, Option, none, some, text_eq, text_eq_refl, if◌then◌else◌, length, replicate,
  bit_xor, ◌==◌, ==_iff, all_below, all_below_sound, arith,
}

abbrev pub block_size : ℕ
block_size = 64

-- `std::array<char, block_size> buffer{}` with the key copied to its front; the key is no longer than
-- the buffer.
unfoldable pub padded : Text → Text
padded key = key ++ replicate (block_size - length key) 0

-- One loop over the buffer, `buffer[i] ^= v`.
unfoldable pub xor_all : ℕ → Text → Text
xor_all v [] = []
xor_all v (c ∷ cs) = bit_xor c v ∷ xor_all v cs

-- The second loop: two assignments to each byte.
unfoldable pub xor_twice : Text → Text
xor_twice [] = []
xor_twice (c ∷ cs) = bit_xor (bit_xor c 0x36) 0x5c ∷ xor_twice cs

module _ (do_sha256 : Text → Text) (to_hex : Text → Text) where
  unfoldable pub do_my_hmac : Text → Text → Text
  do_my_hmac key text =
      let buffer = xor_all 0x36 (padded key) in
      let inner_result = do_sha256 (buffer ++ text) in
      let buffer' = xor_twice buffer in to_hex (do_sha256 (buffer' ++ inner_result))

-- RFC 2104, as the file's comment gives it: H(K XOR opad, H(K XOR ipad, text)), where K is the key
-- padded with zeros to a block, ipad is 0x36 and opad is 0x5C in each byte.
abbrev pub rfc2104 : (Text → Text) → Text → Text → Text
rfc2104 do_sha256 key text =
    let k = key ++ replicate (block_size - length key) 0 in
    do_sha256 (map (λ c. bit_xor c 0x5c) k ++ do_sha256 (map (λ c. bit_xor c 0x36) k ++ text))

-- digest_size
abbrev pub digest_size : ℕ
digest_size = 32

-- OpenSSL's EVP_Digest and HMAC with SHA-256, and absl::BytesToHexString: a digest has 32 bytes, and
-- HMAC is what RFC 2104 says, for a key that is no longer than a block.
pub record Crypto : Type 0 where
  pub sha256 : Text → Text
  pub hmac : Text → Text → Text
  pub to_hex : Text → Text
  pub sha256_size : (t : Text) → length (sha256 t) ≡ digest_size
  pub hmac_size : (key text : Text) → length (hmac key text) ≡ digest_size
  pub hmac_rfc2104 :
      (key text : Text) → length key ≤ block_size → hmac key text ≡ rfc2104 sha256 key text

module _ (c : Crypto) where
  -- `none` where the assertion on the size fails.
  unfoldable pub do_openssl_hmac : Text → Text → Option Text
  do_openssl_hmac key text =
      let digest = c.hmac key text in
      if length digest == digest_size then some (c.to_hex digest) else none

  unfoldable pub do_sha256 : Text → Option Text
  do_sha256 input =
      let digest = c.sha256 input in if length digest == digest_size then some digest else none

  -- do_my_hmac with its assertions: the inner digest, then the outer one.
  outer_digest : Text → Option Text → Option Text
  unfolding do_sha256
  outer_digest buffer none = none
  outer_digest buffer (some inner_result) = do_sha256 (xor_twice buffer ++ inner_result)

  hex : Option Text → Option Text
  hex none = none
  hex (some digest) = some (c.to_hex digest)

  unfoldable pub do_checked_hmac : Text → Text → Option Text
  unfolding do_sha256 outer_digest hex
  do_checked_hmac key text =
      let buffer = xor_all 0x36 (padded key) in
      hex (outer_digest buffer (do_sha256 (buffer ++ text)))

  compare_results : Option Text → Option Text → Option Bool
  compare_results none mine = none
  compare_results (some openssl) none = none
  compare_results (some openssl) (some mine) = some (text_eq openssl mine)

  -- main: whether it says "ok".
  unfoldable pub main : Text → Text → Option Bool
  unfolding compare_results
  main key text = compare_results (do_openssl_hmac key text) (do_checked_hmac key text)

abbrev pub IsBytes : Text → Type 0
IsBytes cs = All (λ c. c < 256) cs

rollback_table : all_below 256 (λ x. bit_xor (bit_xor x 0x36) 0x36 == x) ≡ true
unfolding all_below
rollback_table = refl

-- The comment "rollback to original value".
rollback : (x : ℕ) → x < 256 → bit_xor (bit_xor x 0x36) 0x36 ≡ x
rollback x h = (==_iff _ x).0 (all_below_sound 256 _ x rollback_table h)

xor_all-map : (v : ℕ) (cs : Text) → xor_all v cs ≡ map (λ c. bit_xor c v) cs
unfolding xor_all
xor_all-map v [] = refl
xor_all-map v (c ∷ cs) = ap (◌∷◌ (bit_xor c v)) (xor_all-map v cs)

xor_twice-xor_all :
    (cs : Text) → IsBytes cs → xor_twice (xor_all 0x36 cs) ≡ map (λ c. bit_xor c 0x5c) cs
unfolding xor_twice xor_all
xor_twice-xor_all [] h = refl
xor_twice-xor_all (c ∷ cs) h =
    ap₂ (λ d ds. bit_xor d 0x5c ∷ ds) (rollback c h.0) (xor_twice-xor_all cs h.1)

padded-IsBytes : (key : Text) (n : ℕ) → IsBytes key → IsBytes (key ++ replicate n 0)
padded-IsBytes [] zero h = tt
padded-IsBytes [] (suc n) h = (omega arith, padded-IsBytes [] n tt)
padded-IsBytes (c ∷ cs) n h = (h.0, padded-IsBytes cs n h.1)

-- For a key of bytes and whatever the digest is, the hand-written HMAC is the formula of RFC 2104, in
-- hexadecimal.
pub do_my_hmac-rfc2104 :
    (do_sha256 to_hex : Text → Text) (key text : Text)
    → IsBytes key
    → length key ≤ block_size
    → do_my_hmac do_sha256 to_hex key text ≡ to_hex (rfc2104 do_sha256 key text)
unfolding do_my_hmac padded
do_my_hmac-rfc2104 do_sha256 to_hex key text h small =
    let k : Text = key ++ replicate (block_size - length key) 0 in
    ap₂ (λ outer inner. to_hex (do_sha256 (outer ++ do_sha256 (inner ++ text))))
      (xor_twice-xor_all k (padded-IsBytes key (block_size - length key) h)) (xor_all-map 0x36 k)

module _ (c : Crypto) (key text : Text) (bytes : IsBytes key)
    (small : length key ≤ block_size) where
  do_checked_hmac_lem : do_checked_hmac c key text ≡ some (do_my_hmac c.sha256 c.to_hex key text)
  unfolding do_checked_hmac do_my_hmac
  do_checked_hmac_lem =
      let buffer = xor_all 0x36 (padded key) in
      ground (
        arith,
        c.sha256_size (buffer ++ text),
        c.sha256_size (xor_twice buffer ++ c.sha256 (buffer ++ text)),
      )

  do_openssl_hmac_lem : do_openssl_hmac c key text ≡ some (c.to_hex (rfc2104 c.sha256 key text))
  unfolding do_openssl_hmac
  do_openssl_hmac_lem = ground (arith, c.hmac_size key text, c.hmac_rfc2104 key text small)

  -- For a key of bytes that is no longer than a block, no assertion fails, and main says "ok": the
  -- hand-written HMAC is OpenSSL's.
  pub main-ok : main c key text ≡ some true
  unfolding main
  main-ok =
      let same = do_my_hmac-rfc2104 c.sha256 c.to_hex key text bytes small in
      ground (
        arith,
        do_checked_hmac_lem,
        do_openssl_hmac_lem,
        same,
        text_eq_refl (c.to_hex (rfc2104 c.sha256 key text)),
      )
