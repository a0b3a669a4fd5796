-- ===== src/Signature/Evp.antt =====
-- Worker_EVP of openssl/signature_benchmark.cpp, which is unfinished in the source, and the contexts
-- that it makes.
use cpp_demo.Prelude.{ℕ, ◌+◌, ◌≡◌, refl, Option, none, some, Text, codes, [], ◌∷◌}
use cpp_demo.Signature.{Worker, bench, delete_all}

-- `ctx_`, and how many contexts live.
pub record Evp (C : Type 0) : Type 0 where
  pub ctx : Option C
  pub contexts : ℕ

module _ {C : Type 0} where
  with_ctx : Evp C → Option C → Option (Evp C)
  with_ctx s none = none
  with_ctx s (some c) = some (record { ctx = some c; contexts = s.contexts + 1 })

  -- Worker_EVP, where EVP_MD_CTX_new gives `new_ctx`. The result of EVP_DigestSignInit is not read, no
  -- signature is made and none is verified; the class has no destructor.
  unfoldable pub worker_evp : Option C → Worker (Evp C)
  unfolding with_ctx
  worker_evp new_ctx = record {
    name = codes "EVP";
    prepare = λ s. with_ctx s new_ctx;
    sign = λ text s. some s;
    verify = λ text s. some s;
    destroy = λ s. s;
  }

  -- Each run of the worker leaves one context more than there were, also when the worker is deleted.
  pub contexts-bench :
      (c : C) (text : Text) (s : Evp C)
      → (t : Evp C) × (bench (worker_evp (some c)) text s ≡ some t)
        × (delete_all ((worker_evp (some c), t) ∷ []) ≡ t ∷ [])
        × (t.contexts ≡ s.contexts + 1)
  unfolding bench worker_evp delete_all
  contexts-bench c text s = (record { ctx = some c; contexts = s.contexts + 1 }, refl, refl, refl)
