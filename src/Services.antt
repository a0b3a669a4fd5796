-- ===== src/Services.antt =====
-- asio/use_service.cpp. The io_context's registry of services is a parameter; a service is known by
-- its type, and its value is an object of ImplA or ImplB, or a shared pointer to one of ImplC.
pub mod Lifetime
mod Tests
use cpp_demo.Prelude.{
  ℕ, ◌+◌, ◌-◌, ◌>>=◌, ◌≡◌, Bool, true, false, List, [], ◌∷◌, ◌++◌, map, Text, codes, Option, none,
  some, if◌then◌else◌,
}

-- Service<ImplA>, Service<ImplB> and Service<std::shared_ptr<ImplC>>.
pub data Key : Type 0 where
  service_a service_b service_c : Key

abbrev pub same : Key → Key → Bool
same service_a service_a = true
same service_b service_b = true
same service_c service_c = true
same _ _ = false

abbrev pub has : Key → List Key → Bool
has k [] = false
has k (j ∷ js) = if same j k then true else has k js

-- `services` are those of the context, newest first. `use_service` also says whether it has made the
-- service; `add_service` throws where there is one of its type; the context's destructor destroys
-- the services in the order that `destroyed` gives.
pub record Registry (S : Type 0) : Type 0 where
  pub new_context : S
  pub services : S → List Key
  pub use_service : Key → S → Bool × S
  pub add_service : Key → S → Option S
  pub destroyed : S → List Key
  pub of_new : services new_context ≡ []
  pub of_use :
      (k : Key) (s : S)
      → (services (use_service k s).1 ≡ (if has k (services s) then services s else k ∷ services s))
        × ((use_service k s).0 ≡ (if has k (services s) then false else true))
  pub of_add_present : (k : Key) (s : S) → has k (services s) ≡ true → add_service k s ≡ none
  pub of_add :
      (k : Key) (s : S)
      → has k (services s) ≡ false
      → (t : S) × (add_service k s ≡ some t) × (services t ≡ k ∷ services s)
  pub of_destroyed : (s : S) → destroyed s ≡ services s

pub data Impl : Type 0 where
  impl_a impl_b impl_c : Impl

-- What is printed, in the source's words; the name of a type is its constructor.
pub data Item : Type 0 where
  calling : Impl → Item
  create destroy : Key → Item
  words : Text → Item

-- The state of main: the context, the number of shared pointers to the ImplC, whether the value of
-- the third service is one of them, and the output.
pub record Process (S : Type 0) : Type 0 where
  pub context : S
  pub owners : ℕ
  pub service_value : Bool
  pub out : List Item

module _ {S : Type 0} where
  abbrev pub print : Item → Process S → Process S
  print t p = record p { out = p.out ++ (t ∷ []) }

module _ {S : Type 0} (r : Registry S) where
  created : Key → Process S → Bool × S → Process S
  created k p (true, s) = print (create k) (record p { context = s })
  created k p (false, s) = record p { context = s }

  -- asio::use_service, with what the constructor of the service prints.
  unfoldable pub use_one : Key → Process S → Process S
  unfolding created
  use_one k p = created k p (r.use_service k p.context)

  unfoldable pub block_a : Process S → Process S
  block_a p =
      print (calling impl_a) (use_one service_a (print (calling impl_a) (use_one service_a p)))

  added : Process S → Option S → Option (Process S)
  added p none = none
  added p (some s) = some (print (calling impl_b) (use_one service_b (record p { context = s })))

  -- `none` is the exception of `add_service`, which main does not catch.
  unfoldable pub block_b : Process S → Option (Process S)
  unfolding added
  block_b p =
      let q = print (calling impl_b) (print (create service_b) p) in
      added q (r.add_service service_b q.context)

  -- `none` where the assertion that the service has no value fails.
  unfoldable pub block_c : Process S → Option (Process S)
  block_c p =
      let q = use_one service_c p in
      if q.service_value
      then none
      else some (print (calling impl_c) (record q { service_value = true; owners = q.owners + 1 }))

  -- The end of the context: its services are destroyed, and the third one's pointer with it.
  unfoldable pub end_context : Process S → Process S
  end_context p = record p {
    owners = if p.service_value then p.owners - 1 else p.owners;
    service_value = false;
    out = p.out ++ map destroy (r.destroyed p.context);
  }

  at_entry : Process S
  at_entry = record {
    context = r.new_context;
    owners = 1;
    service_value = false;
    out = calling impl_c ∷ words (codes "context created\n") ∷ [];
  }

  unfoldable pub main : Option (Process S)
  unfolding at_entry
  main = do
    p ← block_b (block_a at_entry)
    q ← block_c p
    some (
        print (words (codes "before main return\n"))
          (end_context (print (words (codes "context released\n")) q)))
