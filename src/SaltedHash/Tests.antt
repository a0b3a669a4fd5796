-- ===== src/SaltedHash/Tests.antt =====
-- Two calls of misc/hash_with_salt.cpp with objects at one address.
use cpp_demo.Prelude.{◌≡◌, refl, [], ◌∷◌}
use cpp_demo.SaltedHash.{get_index, indices}

same_address : indices 0 (4096 ∷ 4096 ∷ []) ≡ get_index 0 4096 ∷ get_index 1 4096 ∷ []
unfolding indices get_index
same_address = refl
