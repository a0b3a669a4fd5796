-- ===== src/Hmac/Tests.antt =====
-- The theorem on openssl/hmac.cpp at its own key and data, with a toy digest.
use cpp_demo.Prelude.{
  ℕ, ◌≡◌, refl, true, some, Text, codes, arith, take, length, length-take, length-append,
  length-replicate, replicate, ◌++◌,
}
use cpp_demo.Hmac.{Crypto, digest_size, rfc2104, main, main-ok}

abbrev toy_digest : Text → Text
toy_digest t = take digest_size (t ++ replicate digest_size 0)

toy_digest-length : (t : Text) → length (toy_digest t) ≡ digest_size
toy_digest-length t = omega (
  arith,
  length-take digest_size (t ++ replicate digest_size 0),
  length-append t (replicate digest_size 0),
  length-replicate {A = ℕ} digest_size 0,
)

abbrev toy_crypto : Crypto
toy_crypto = record {
  sha256 = toy_digest;
  hmac = rfc2104 toy_digest;
  to_hex = λ t. t;
  sha256_size = toy_digest-length;
  hmac_size = λ key text. toy_digest-length _;
  hmac_rfc2104 = λ key text h. refl;
}

main-ok_example : main toy_crypto (codes "this is the key") (codes "this is the data") ≡ some true
main-ok_example =
    main-ok toy_crypto (codes "this is the key") (codes "this is the data") (omega arith)
      (omega arith)
