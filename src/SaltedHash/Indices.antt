-- ===== src/SaltedHash/Indices.antt =====
-- The indices of misc/hash_with_salt.cpp.
use cpp_demo.Prelude.{ℕ, ◌+◌, ◌<◌, ◌≡◌, refl, List, [], ◌∷◌, length, All, arith, ap, suc}
use cpp_demo.SaltedHash.{get_index, indices}

-- However the addresses fall, each call gives an index below 193, so that it is an `int`.
pub indices_bounds :
    (addresses : List ℕ) (salt : ℕ)
    → All (λ i. i < 193) (indices salt addresses)
      × (length (indices salt addresses) ≡ length addresses)
unfolding indices get_index
indices_bounds [] salt = (tt, refl)
indices_bounds (a ∷ rest) salt =
    let (below, n) = indices_bounds rest (salt + 1) in ((omega arith, below), ap suc n)
