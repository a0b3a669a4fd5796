-- ===== src/Services/Lifetime.antt =====
-- The services of asio/use_service.cpp from their making to their end.
use cpp_demo.Prelude.{◌≡◌, refl, false, List, [], ◌∷◌, codes, some, if◌then◌else◌, arith}
use cpp_demo.Services.{
  Key, service_a, service_b, service_c, Registry, Process, Item, calling, create, destroy, words,
  print, use_one, block_a, block_b, block_c, end_context, main, impl_a, impl_b, impl_c, has,
}

abbrev pub transcript : List Item
transcript =
    calling impl_c
    ∷ words (codes "context created\n")
    ∷ create service_a
    ∷ calling impl_a
    ∷ calling impl_a
    ∷ create service_b
    ∷ calling impl_b
    ∷ calling impl_b
    ∷ create service_c
    ∷ calling impl_c
    ∷ words (codes "context released\n")
    ∷ destroy service_c
    ∷ destroy service_b
    ∷ destroy service_a
    ∷ words (codes "before main return\n")
    ∷ []

module _ {S : Type 0} (r : Registry S) where
  use_one_lem :
      (k : Key) (p : Process S)
      → use_one r k p ≡ (
          let q = record p { context = (r.use_service k p.context).1 } in
          if has k (r.services p.context) then q else print (create k) q)
  unfolding use_one
  use_one_lem k p = ground (arith, (r.of_use k p.context).1)

  services-use_service :
      (k : Key) (s : S)
      → r.services (r.use_service k s).1
        ≡ (if has k (r.services s) then r.services s else k ∷ r.services s)
  services-use_service k s = (r.of_use k s).0

  -- With any registry that keeps one service of each type and destroys them in the reverse of the
  -- order in which they began: no exception and no failed assertion; the first two services are made
  -- once and called twice; each service ends once, the last one first, behind "context released";
  -- and the pointer that main holds is then the only one to its object.
  pub main_lifetimes : (p : Process S) × (main r ≡ some p) × (p.out ≡ transcript) × (p.owners ≡ 1)
  unfolding main block_a block_b block_c end_context
  main_lifetimes =
      let s = (r.use_service service_a (r.use_service service_a r.new_context).1).1 in
      let before : r.services s ≡ service_a ∷ [] = simp (services-use_service, r.of_new) refl in
      let (t, e, after) = r.of_add service_b s (rw before refl) in
      let u = (r.use_service service_c (r.use_service service_b t).1).1 in
      let services_at_end : r.services u ≡ service_c ∷ service_b ∷ service_a ∷ [] =
        simp (services-use_service, after, r.of_new) refl in
      let final : Process S = record {
        context = u;
        owners = 1;
        service_value = false;
        out = transcript;
      } in
      (
        final,
        simp (use_one_lem, services-use_service, r.of_new, e, after, r.of_destroyed) refl,
        refl,
        refl,
      )
