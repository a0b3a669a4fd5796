-- ===== src/Echo/Tests.antt =====
-- The theorems on the two asio servers at concrete rounds.
use cpp_demo.Prelude.{
  ℕ, ◌≡◌, List, [], ◌∷◌, Text, codes, length, replicate, length-replicate, none, arith, refl,
  Option, some, true, false,
}
use cpp_demo.Echo.{Connection, closed, data_size, do_write_in_place}
use cpp_demo.HandlerMemory.ListHeap.{list_new}
use cpp_demo.HandlerMemory.{allocate_objects, allocate, deallocate, handler_memory}
use cpp_demo.Echo.{do_write_shared, start, on_written, on_read}
use cpp_demo.Echo.Handlers.{
  Object, Sizes, written, received_some, start_object, complete, drop_self, initiate,
  initiate_pending, free_handler, upcall,
}
use cpp_demo.Echo.SharedBuffers.{Talk, start_talk, talk}
use cpp_demo.Echo.Sharing.{Alive, opening, further, text_lives}
use cpp_demo.Echo.Placement.{Inv, here, next, started_Reach-Inv}
use cpp_demo.Echo.Replies.{answers, Round, answers-in_place}

abbrev blank_data : Text
blank_data = replicate data_size 0

blank_size : length blank_data ≡ data_size
blank_size = length-replicate {A = ℕ} data_size 0

abbrev fresh : Connection
fresh = record { buffer = blank_data; pending = closed }

-- A short read, then one that fills `data_`.
abbrev rounds : List Round
rounds = (codes "hi", codes "now") ∷ (blank_data, codes "later") ∷ []

answers-in_place_example : answers do_write_in_place fresh rounds ≡ none
answers-in_place_example =
    answers-in_place rounds fresh (blank_size) (omega arith, (omega (arith, blank_size), tt))

-- A small handler for the write, a large one for the read.
abbrev sizes : Sizes
sizes = record { write_size = 200; read_size = 2000 }

abbrev object_of : Option (Object (List ℕ)) → Object (List ℕ) → Object (List ℕ)
object_of none x = x
object_of (some y) x = y

abbrev nothing_yet : Object (List ℕ)
nothing_yet = record {
  connection = fresh;
  memory = record { in_use = false; rest = [] };
  handler = none;
  owners = 0;
}

abbrev greeted_object : Object (List ℕ)
greeted_object =
    object_of (start_object list_new sizes do_write_shared [] [] (codes "now")) nothing_yet

abbrev reading_object : Object (List ℕ)
reading_object =
    object_of (complete list_new sizes do_write_shared (written false) greeted_object) nothing_yet

abbrev ended_object : Object (List ℕ)
ended_object =
    object_of (complete list_new sizes do_write_shared (received_some true [] []) reading_object)
      nothing_yet

-- The greeting is written, and the read that follows fails.
started_Reach-Inv_example : Inv list_new sizes [] ended_object
unfolding start_object complete upcall drop_self initiate_pending initiate free_handler
    allocate_objects allocate deallocate handler_memory start do_write_shared on_written on_read
started_Reach-Inv_example =
    started_Reach-Inv list_new sizes [] (omega arith, omega arith) do_write_shared [] (codes "now")
      greeted_object ended_object refl
      (next (next here (written false) tt refl) (received_some true [] []) tt refl)

abbrev writing_again : Talk
writing_again =
    talk (received_some false (codes "hi") (codes "later"))
      (talk (written false) (start_talk [] (codes "now")))

-- The greeting and one answer, which is under way.
text_lives_example : Alive writing_again
unfolding start_talk do_write_shared talk on_written
text_lives_example = text_lives [] (codes "now") writing_again (
    further (further opening (written false) tt) (received_some false (codes "hi") (codes "later"))
      tt)
