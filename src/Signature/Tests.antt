-- ===== src/Signature/Tests.antt =====
-- The theorems on openssl/signature_benchmark.cpp with keys that are numbers, and a signature that is
-- the text with its key.
use cpp_demo.Prelude.{
  ℕ, ◌≡◌, refl, Bool, true, ◌&&◌, some, List, [], ◌∷◌, Text, codes, All, text_eq, text_eq_refl,
  ◌==◌, arith,
}
use cpp_demo.Signature.{Curves, Ecdsa, sign, main}
use cpp_demo.Signature.Run.{Ready, Empty, new_workers, main-Empty}

abbrev toy_verify : Text → Text × ℕ → ℕ → Bool
toy_verify text (t, j) k = text_eq text t && j == k

toy_verifies :
    (text : Text) (k : ℕ) (s : Text × ℕ)
    → ◌≡◌ (some (text, k)) (some s)
    → toy_verify text s k ≡ true
toy_verifies text k (t, j) e = ground (arith, text_eq_refl text)

abbrev toy_curves : Curves
toy_curves = record {
  Key = ℕ;
  Group = ℕ;
  Signature = Text × ℕ;
  key_new = some 0;
  group_by_name = some;
  set_group = λ k g. some g;
  generate_key = λ k. some 7;
  do_sign = λ text k. some (text, k);
  do_verify = toy_verify;
  signed_verifies = toy_verifies;
}

toy_Ready : (text : Text) (id : ℕ) → Ready toy_curves text id
toy_Ready text id = record {
  key = 0;
  new_ok = refl;
  group = id;
  group_ok = refl;
  on_curve = id;
  set_ok = refl;
  generated = 7;
  generate_ok = refl;
  signature = (text, 7);
  sign_ok = refl;
}

main-Empty_example :
    (left : List (Ecdsa toy_curves)) × (main
        (new_workers toy_curves ((codes "a", 1) ∷ (codes "b", 2) ∷ []))
        (codes "0123")
      ≡ some left)
    × All (Empty toy_curves) left
main-Empty_example =
    main-Empty toy_curves (codes "0123") ((codes "a", 1) ∷ (codes "b", 2) ∷ [])
      (toy_Ready (codes "0123") 1, (toy_Ready (codes "0123") 2, tt))

abbrev signed_once : Ecdsa toy_curves
signed_once = record {
  pkey = some 7;
  curve = some 1;
  sig = some (codes "a", 7);
  keys = 1;
  groups = 1;
  signatures = 1;
}

abbrev signed_twice : Ecdsa toy_curves
signed_twice = record {
  pkey = some 7;
  curve = some 1;
  sig = some (codes "b", 7);
  keys = 1;
  groups = 1;
  signatures = 2;
}

signed_again : sign toy_curves (codes "b") signed_once ≡ some signed_twice
unfolding sign
signed_again = refl
