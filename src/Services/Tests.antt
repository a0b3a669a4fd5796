-- ===== src/Services/Tests.antt =====
-- asio/use_service.cpp with a list as the registry.
use cpp_demo.Prelude.{
  ◌≡◌, refl, true, false, List, [], ◌∷◌, Option, none, some, if◌then◌else◌, arith,
}
use cpp_demo.Services.{
  Key, service_a, service_b, service_c, has, Registry, Process, main, block_a, block_b, block_c,
  end_context, use_one,
}
use cpp_demo.Services.Lifetime.{transcript}

abbrev add_to : Key → List Key → Option (List Key)
add_to k s = if has k s then none else some (k ∷ s)

add_to_present : (k : Key) (s : List Key) → has k s ≡ true → add_to k s ≡ none
add_to_present k s h = ground arith

add_to_new :
    (k : Key) (s : List Key)
    → has k s ≡ false
    → (t : List Key) × (add_to k s ≡ some t) × (t ≡ k ∷ s)
add_to_new k s h = (k ∷ s, ground arith, refl)

abbrev list_registry : Registry (List Key)
list_registry = record {
  new_context = [];
  services = λ s. s;
  use_service = λ k s. (if has k s then false else true, if has k s then s else k ∷ s);
  add_service = add_to;
  destroyed = λ s. s;
  of_new = refl;
  of_use = λ k s. (refl, refl);
  of_add_present = add_to_present;
  of_add = add_to_new;
  of_destroyed = λ s. refl;
}

abbrev ended : Process (List Key)
ended = record {
  context = service_c ∷ service_b ∷ service_a ∷ [];
  owners = 1;
  service_value = false;
  out = transcript;
}

main_ends : main list_registry ≡ some ended
unfolding main block_a block_b block_c end_context use_one
main_ends = refl
