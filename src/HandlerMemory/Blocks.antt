-- ===== src/HandlerMemory/Blocks.antt =====
-- No two blocks of handler_memory that are in use at once overlap (asio/allocation/allocation.cpp,
-- asio/buffer/reference_counted_buffer.cpp).
use cpp_demo.Prelude.{
  ℕ, ◌≡◌, refl, subst, sym, ◌∙◌, ◌⊎◌, inl, inr, Bool, true, false, List, [], ◌∷◌, All, arith, ◌==◌,
  if◌then◌else◌, ◌||◌,
}
use cpp_demo.HandlerMemory.{
  OperatorNew, Pointer, storage, heap, Memory, handler_memory, allocate, deallocate,
}

-- `operator==` of two pointers.
abbrev pub same : Pointer → Pointer → Bool
same storage storage = true
same storage (heap b) = false
same (heap a) storage = false
same (heap a) (heap b) = a == b

abbrev pub holds : Pointer → List Pointer → Bool
holds p [] = false
holds p (q ∷ qs) = same q p || holds p qs

unfoldable pub remove : Pointer → List Pointer → List Pointer
remove p [] = []
remove p (q ∷ qs) = if same q p then qs else q ∷ remove p qs

abbrev pub Distinct : List Pointer → Type 0
Distinct [] = Unit {0}
Distinct (q ∷ qs) = (holds q qs ≡ false) × Distinct qs

-- A memory, and the blocks that its callers hold.
pub record Use (H : Type 0) : Type 0 where
  pub memory : Memory H
  pub blocks : List Pointer

pub data Event : Type 0 where
  takes : ℕ → Event
  returns : Pointer → Event

holds-remove :
    (p q : Pointer) (qs : List Pointer)
    → Distinct qs
    → holds q (remove p qs) ≡ (if same p q then false else holds q qs)
unfolding remove
holds-remove p q [] d = ground arith
holds-remove p q (r ∷ qs) d = ground (arith, holds-remove p q qs)

Distinct-remove : (p : Pointer) (qs : List Pointer) → Distinct qs → Distinct (remove p qs)
unfolding remove
Distinct-remove p [] d = tt
Distinct-remove p (r ∷ qs) d = ground (arith, Distinct-remove p qs, holds-remove p r qs)

module _ {H : Type 0} (o : OperatorNew H) where
  unfoldable pub act : Use H → Event → Use H
  act u (takes size) =
      let (p, m) = allocate o size u.memory in record { memory = m; blocks = p ∷ u.blocks }
  act u (returns p) = record { memory = deallocate o p u.memory; blocks = remove p u.blocks }

  -- A caller returns only a block that it holds.
  abbrev pub Enabled : Use H → Event → Type 0
  Enabled u (takes size) = Unit {0}
  Enabled u (returns p) = holds p u.blocks ≡ true

  abbrev pub Valid : H → Pointer → Type 0
  Valid h storage = Unit {0}
  Valid h (heap a) = o.live h a ≡ true

  pub record Inv (u : Use H) : Type 0 where
    pub distinct : Distinct u.blocks
    pub used : u.memory.in_use ≡ holds storage u.blocks
    pub valid : All (Valid u.memory.rest) u.blocks

  fresh_block :
      (h : H) (a : ℕ) (qs : List Pointer)
      → o.live h a ≡ false
      → All (Valid h) qs
      → holds (heap a) qs ≡ false
  fresh_block h a [] f v = refl
  fresh_block h a (storage ∷ qs) f v = fresh_block h a qs f v.1
  fresh_block h a (heap b ∷ qs) f v = ground (arith, fresh_block h a qs f v.1)

  Valid-new :
      (h : H) (size : ℕ) (qs : List Pointer)
      → All (Valid h) qs
      → All (Valid (o.operator_new size h).1) qs
  Valid-new h size [] v = tt
  Valid-new h size (storage ∷ qs) v = (tt, Valid-new h size qs v.1)
  Valid-new h size (heap b ∷ qs) v = (ground (arith, o.new_live size h b), Valid-new h size qs v.1)

  Valid-delete :
      (h : H) (a : ℕ) (qs : List Pointer)
      → holds (heap a) qs ≡ false
      → All (Valid h) qs
      → All (Valid (o.operator_delete a h)) qs
  Valid-delete h a [] f v = tt
  Valid-delete h a (storage ∷ qs) f v = (tt, Valid-delete h a qs f v.1)
  Valid-delete h a (heap b ∷ qs) f v =
      (ground (arith, o.delete_live a h b), Valid-delete h a qs (ground arith) v.1)

  Valid-remove :
      (h : H) (p : Pointer) (qs : List Pointer) → All (Valid h) qs → All (Valid h) (remove p qs)
  unfolding remove
  Valid-remove h p [] v = tt
  Valid-remove h p (q ∷ qs) v = ground (arith, Valid-remove h p qs v.1)

  act-takes_heap :
      (u : Use H) (size : ℕ)
      → Inv u
      → let (a, h) = o.operator_new size u.memory.rest in
        Inv (record { memory = record (u.memory) { rest = h }; blocks = heap a ∷ u.blocks })
  act-takes_heap u size v =
      let (a, h) = o.operator_new size u.memory.rest in
      record {
        distinct = (
          fresh_block u.memory.rest a u.blocks (o.new_fresh size u.memory.rest) v.valid,
          v.distinct,
        );
        used = v.used;
        valid = (
          ground (arith, o.new_live size u.memory.rest a),
          Valid-new u.memory.rest size u.blocks v.valid,
        );
      }

  takes_cases :
      (u : Use H) (size : ℕ)
      → let (a, h) = o.operator_new size u.memory.rest in
        ((u.memory.in_use ≡ false)
          × (act u (takes size) ≡ record {
            memory = record (u.memory) { in_use = true };
            blocks = storage ∷ u.blocks;
          }))
        ⊎ (act u (takes size)
            ≡ record { memory = record (u.memory) { rest = h }; blocks = heap a ∷ u.blocks })
  unfolding act allocate
  takes_cases u size = ground arith

  act-Inv : (u : Use H) (e : Event) → Enabled u e → Inv u → Inv (act u e)
  unfolding act deallocate
  act-Inv u (takes size) h v = elim (takes_cases u size) [
    | inl (free, e) ↦
        subst Inv (sym e) (record {
          distinct = (sym v.used ∙ free, v.distinct);
          used = refl;
          valid = (tt, v.valid);
        })
    | inr e ↦ subst Inv (sym e) (act-takes_heap u size v)
  ]
  act-Inv u (returns storage) h v = record {
    distinct = Distinct-remove storage u.blocks v.distinct;
    used = ground (arith, holds-remove storage storage u.blocks v.distinct);
    valid = Valid-remove u.memory.rest storage u.blocks v.valid;
  }
  act-Inv u (returns (heap a)) h v = record {
    distinct = Distinct-remove (heap a) u.blocks v.distinct;
    used = ground (arith, holds-remove (heap a) storage u.blocks v.distinct);
    valid =
        Valid-delete u.memory.rest a (remove (heap a) u.blocks)
          (ground (arith, holds-remove (heap a) (heap a) u.blocks v.distinct))
          (Valid-remove u.memory.rest (heap a) u.blocks v.valid);
  }

  -- The memory over a history in which each block is returned by a caller that holds it.
  pub data Reach (u : Use H) : Use H → Type 0 where
    here : Reach u u
    next : {w : Use H} → Reach u w → (e : Event) → Enabled w e → Reach u (act w e)

  unfoldable pub unused : H → Use H
  unfolding handler_memory
  unused h = record { memory = handler_memory h; blocks = [] }

  unused-Inv : (h : H) → Inv (unused h)
  unfolding unused
  unused-Inv h = record { distinct = tt; used = refl; valid = tt }

  -- Over any history in which callers return only blocks that they hold: the blocks in use are
  -- pairwise distinct, `in_use_` says whether `storage_` is among them, and the others are live.
  pub block_Reach-Inv : (h : H) {u : Use H} → Reach (unused h) u → Inv u
  block_Reach-Inv h here = unused-Inv h
  block_Reach-Inv h (next {w = w} r e n) = act-Inv w e n (block_Reach-Inv h r)
