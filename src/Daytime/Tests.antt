-- ===== src/Daytime/Tests.antt =====
-- The programs of asio/daytime: a text in two pieces, and the theorem on accepts at three of them.
use cpp_demo.Prelude.{◌≡◌, refl, true, false, some, [], ◌∷◌, ◌++◌, map, codes, List, Text, Bool}
use cpp_demo.Daytime.{serve_sync, arrived, eof, ends, read_all}

sent_whole : serve_sync false (codes "Mon\n") ≡ some (codes "Mon\n")
unfolding serve_sync
sent_whole = refl

read_in_two :
    read_all (map arrived (codes "Mo" ∷ codes "n\n" ∷ []) ++ eof ∷ []) ≡ (codes "Mon\n", ends)
unfolding read_all
read_in_two = refl

abbrev three_accepts : List (Bool × Text)
three_accepts = (false, codes "Mon") ∷ (true, codes "Tue") ∷ (false, codes "Wed") ∷ []
