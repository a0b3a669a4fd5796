-- ===== src/Allocators/Tests.antt =====
-- Three students of memory/custom_new_delete.cpp at once, on a heap that is empty.
use cpp_demo.Prelude.{refl, ℕ, ◌≡◌, List, [], ◌∷◌, none}
use cpp_demo.HandlerMemory.ListHeap.{list_new}
use cpp_demo.Allocators.{Students, make_all, student_new}

abbrev start : Students (List ℕ)
start = record { m = none; rest = [] }

students_alias : (make_all list_new 40 3 start).0 ≡ 0 ∷ 0 ∷ 0 ∷ []
unfolding make_all student_new
students_alias = refl
