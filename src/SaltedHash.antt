-- ===== src/SaltedHash.antt =====
-- misc/hash_with_salt.cpp. The addresses of the objects that get_index makes are an argument;
-- `std::size_t` has 64 bits. Printing is left out.
pub mod Indices
mod Tests
use cpp_demo.Prelude.{ℕ, ◌+◌, ◌*◌, ◌/◌, ◌%◌, ◌^◌, bit_xor, List, [], ◌∷◌}

-- `mutex_index` behind the second assignment: the address, and the address shifted by 3.
mixed : ℕ → ℕ
mixed address = (address + address / 2 ^ 3) % 2 ^ 64

-- What is xored in: the sum of the salt, a constant, and two shifts of `mutex_index`.
stirred : ℕ → ℕ → ℕ
stirred salt index = (salt + 0x9e3779b9 + index * 2 ^ 6 % 2 ^ 64 + index / 2 ^ 2) % 2 ^ 64

-- get_index, of the salt before it is counted up.
unfoldable pub get_index : ℕ → ℕ → ℕ
unfolding mixed stirred
get_index salt address = let index = mixed address in bit_xor index (stirred salt index) % 193

-- The calls in turn, from a salt on.
unfoldable pub indices : ℕ → List ℕ → List ℕ
unfolding get_index
indices salt [] = []
indices salt (a ∷ rest) = get_index salt a ∷ indices (salt + 1) rest
