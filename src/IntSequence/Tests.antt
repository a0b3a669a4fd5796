-- ===== src/IntSequence/Tests.antt =====
-- The theorem on make_int_sequence at the type that main uses.
use cpp_demo.Prelude.{◌∷◌, ◌≡◌, refl, []}
use cpp_demo.IntSequence.{make_int_sequence, pack_of, items_of, main}
use cpp_demo.IntSequence.Packs.{make_int_sequence-range}
use cpp_demo.Prelude.{length}

main_prints : main ≡ 0 ∷ 1 ∷ 2 ∷ []
unfolding main
main_prints = refl

make_int_sequence-range_example :
    (pack_of (make_int_sequence 3 []) ≡ 0 ∷ 1 ∷ 2 ∷ [])
    × (length (items_of (make_int_sequence 3 [])) ≡ 3)
    × (items_of (make_int_sequence 3 []) ≡ 0 ∷ 1 ∷ 2 ∷ [])
make_int_sequence-range_example = make_int_sequence-range 3 (make_int_sequence 3 [])
