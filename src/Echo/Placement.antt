-- ===== src/Echo/Placement.antt =====
-- Where the handlers of a connection are kept (asio/allocation/allocation.cpp,
-- asio/buffer/reference_counted_buffer.cpp).
use cpp_demo.Prelude.{
  ℕ, ◌*◌, ◌⊎◌, inl, inr, subst, sym, ◌∙◌, ◌%◌, ◌^◌, ◌≡◌, ◌<◌, ◌≤◌, refl, true, false, Text, Option,
  none, some, arith, ◌==◌, if◌then◌else◌,
}
use cpp_demo.HandlerMemory.{
  OperatorNew, Pointer, storage, heap, storage_size, Memory, handler_memory, allocate,
  allocate_objects, deallocate,
}
use cpp_demo.Echo.{Connection, Pending, writing, reading, closed, on_written, start, on_read}
use cpp_demo.Echo.Handlers.{
  Object, Completion, wrote_part, written, received_some, Sizes, drop_self, initiate,
  initiate_pending, free_handler, upcall, complete, start_object,
}

-- The completion that asio can report for a pending operation.
abbrev pub Reportable : Completion → Pending → Type 0
Reportable wrote_part (writing t) = Unit {0}
Reportable (written f) (writing t) = Unit {0}
Reportable (received_some f b d) reading = Unit {0}
Reportable wrote_part reading = ⊥
Reportable wrote_part closed = ⊥
Reportable (written f) reading = ⊥
Reportable (written f) closed = ⊥
Reportable (received_some f b d) (writing t) = ⊥
Reportable (received_some f b d) closed = ⊥

nothing : (e : Completion) → Reportable e closed → ⊥
nothing wrote_part r = r
nothing (written f) r = r
nothing (received_some f b d) r = r

abbrev pub count : Pending → ℕ
count (writing t) = 1
count reading = 1
count closed = 0

abbrev pub Small : Sizes → Type 0
Small z = (z.write_size < 2 ^ 64) × (z.read_size < 2 ^ 64)

module _ {H : Type 0} (o : OperatorNew H) (z : Sizes) (h : H) where
  abbrev pub Same : H → Type 0
  Same g = (a : ℕ) → o.live g a ≡ o.live h a

  -- The block of an operation of `size` bytes.
  abbrev pub Held : ℕ → Option Pointer → Memory H → Type 0
  Held size none m = ⊥
  Held size (some storage) m = (size < storage_size) × (m.in_use ≡ true) × Same m.rest
  Held size (some (heap p)) m =
      (storage_size ≤ size)
      × (m.in_use ≡ false)
      × (o.live h p ≡ false)
      × ((a : ℕ) → o.live m.rest a ≡ (if a == p then true else o.live h a))

  -- No block is held.
  abbrev pub Idle : Option Pointer → Memory H → Type 0
  Idle none m = (m.in_use ≡ false) × Same m.rest
  Idle (some p) m = ⊥

  abbrev pub Placed : Pending → Option Pointer → Memory H → Type 0
  Placed (writing t) p m = Held z.write_size p m
  Placed reading p m = Held z.read_size p m
  Placed closed p m = Idle p m

  pub record Inv (x : Object H) : Type 0 where
    pub owned : x.owners ≡ count x.connection.pending
    pub placed : Placed x.connection.pending x.handler x.memory

  allocate_objects_cases :
      (size : ℕ) (m : Memory H)
      → size < 2 ^ 64
      → m.in_use ≡ false
      → let (a, g) = o.operator_new size m.rest in
        ((size < storage_size)
          × (allocate_objects o size 1 m ≡ (storage, record m { in_use = true })))
        ⊎ ((storage_size ≤ size) × (allocate_objects o size 1 m ≡ (heap a, record m { rest = g })))
  unfolding allocate_objects allocate
  allocate_objects_cases size m b i =
      let whole : size * 1 % 2 ^ 64 ≡ size = omega arith in rw whole (ground arith)

  allocate_objects-Held :
      (size : ℕ) (m : Memory H)
      → size < 2 ^ 64
      → m.in_use ≡ false
      → Same m.rest
      → let (p, n) = allocate_objects o size 1 m in Held size (some p) n
  allocate_objects-Held size m b i s = elim (allocate_objects_cases size m b i) [
    | inl (l, e) ↦
        subst (λ (r : Pointer × Memory H). Held size (some (r.0)) (r.1)) (sym e) (l, refl, s)
    | inr (l, e) ↦
        let (a, g) = o.operator_new size m.rest in
        let fresh : o.live h a ≡ false = sym (s a) ∙ o.new_fresh size m.rest in
        subst (λ (r : Pointer × Memory H). Held size (some (r.0)) (r.1)) (sym e)
          (l, i, fresh, λ q. ground (arith, o.new_live size m.rest q, s q))
  ]

  -- What freeing the block leaves.
  abbrev Freed : Object H → Object H → Type 0
  Freed x y = Idle y.handler y.memory × (y.owners ≡ x.owners) × (y.connection ≡ x.connection)

  free_handler-Held :
      (size : ℕ) (c : Connection) (m : Memory H) (p : Option Pointer) (n : ℕ)
      → Held size p m
      → let x : Object H = record { connection = c; memory = m; handler = p; owners = n } in
        Freed x (free_handler o z x)
  unfolding free_handler deallocate
  free_handler-Held size c m none n i = absurd i
  free_handler-Held size c m (some storage) n i = ((refl, i.2), refl, refl)
  free_handler-Held size c m (some (heap a)) n i =
      ((i.1, λ q. ground (arith, o.delete_live a m.rest q, i.3 q)), refl, refl)

  abbrev Whole : Option (Object H) → Type 0
  Whole none = Unit {0}
  Whole (some x) = Inv x

  module _ (small : Small z) where
    -- An object of one owner, whose handler has been moved out.
    initiate_pending-Inv :
        (buffer : Text) (q : Pending) (m : Memory H) (p : Option Pointer) (n : ℕ)
        → Idle p m
        → n ≡ 1
        → let c : Connection = record { buffer = buffer; pending = q } in
          let x : Object H = record { connection = c; memory = m; handler = p; owners = n } in
          Inv (drop_self (initiate_pending o z x q))
    unfolding initiate_pending initiate drop_self
    initiate_pending-Inv buffer q m (some p) n i e = absurd i
    initiate_pending-Inv buffer (writing t) m none n i e = record {
      owned = omega arith;
      placed = allocate_objects-Held z.write_size m small.0 i.0 i.1;
    }
    initiate_pending-Inv buffer reading m none n i e = record {
      owned = omega arith;
      placed = allocate_objects-Held z.read_size m small.1 i.0 i.1;
    }
    initiate_pending-Inv buffer closed m none n i e = record { owned = omega arith; placed = i }

    upcall-Inv :
        (x y : Object H) (r : Option Connection)
        → Idle x.handler x.memory
        → x.owners ≡ 1
        → upcall o z x r ≡ some y
        → Inv y
    unfolding upcall
    upcall-Inv x y none i n e = cc
    upcall-Inv x y (some c) i n e =
        subst (λ (w : Option (Object H)). Whole w) e
          (initiate_pending-Inv c.buffer c.pending x.memory x.handler x.owners i n)

    freed :
        (x : Object H) (e : Completion)
        → Reportable e x.connection.pending
        → Inv x
        → let y = free_handler o z x in
          Idle y.handler y.memory × (y.owners ≡ 1) × (y.connection ≡ x.connection)
    freed x e r v =
        elim x.connection.pending
            as (λ (q : Pending).
              Reportable e q
              → (x.owners ≡ count q)
              → Placed q x.handler x.memory
              → let y = free_handler o z x in
                Idle y.handler y.memory × (y.owners ≡ 1) × (y.connection ≡ x.connection)) [
                  | writing t ↦ λ r n p.
                      let (i, d, c) =
                        free_handler-Held z.write_size x.connection x.memory x.handler x.owners p in
                      (i, d ∙ n, c)
                  | reading ↦ λ r n p.
                      let (i, d, c) =
                        free_handler-Held z.read_size x.connection x.memory x.handler x.owners p in
                      (i, d ∙ n, c)
                  | closed ↦ λ r n p. absurd (nothing e r)
                ]
          r v.owned v.placed

    module _ (do_write : ℕ → Text → Connection → Option Connection) where
      complete-Inv :
          (x y : Object H) (e : Completion)
          → Reportable e x.connection.pending
          → Inv x
          → complete o z do_write e x ≡ some y
          → Inv y
      unfolding complete upcall
      complete-Inv x y wrote_part r v e =
          let w = free_handler o z x in
          let (i, n, c) = freed x wrote_part r v in upcall-Inv w y (some w.connection) i n e
      complete-Inv x y (written failed) r v e =
          let w = free_handler o z x in
          let (i, n, c) = freed x (written failed) r v in
          upcall-Inv w y (some (on_written failed w.connection)) i n e
      complete-Inv x y (received_some failed bytes daytime) r v e =
          let w = free_handler o z x in
          let (i, n, c) = freed x (received_some failed bytes daytime) r v in
          upcall-Inv w y (on_read do_write failed bytes daytime w.connection) i n e

      -- What the events of the socket make of an object.
      pub data Reach (x : Object H) : Object H → Type 0 where
        here : Reach x x
        next :
            {w v : Object H}
            → Reach x w
            → (e : Completion) → Reportable e w.connection.pending
            → complete o z do_write e w ≡ some v
            → Reach x v

      Reach-Inv : {x y : Object H} → Inv x → Reach x y → Inv y
      Reach-Inv v here = v
      Reach-Inv {y} v (next {w = w} r e p q) = complete-Inv w y e p (Reach-Inv v r) q

      start_object-Inv :
          (buffer daytime : Text) (x : Object H)
          → start_object o z do_write h buffer daytime ≡ some x
          → Inv x
      unfolding start_object handler_memory
      start_object-Inv buffer daytime x e =
          let c : Connection = record { buffer = buffer; pending = closed } in
          let w : Object H = record {
            connection = c;
            memory = handler_memory h;
            handler = none;
            owners = 1;
          } in
          upcall-Inv w x (start do_write daytime c) (refl, λ a. refl) refl e

      -- From the accept on, whatever succeeds and fails: at any time the object has one owner, the
      -- handler of the pending operation, or none when no operation is pending; that handler is in
      -- `storage_` if it has fewer than 1024 bytes and in one new block of the heap otherwise; all
      -- else of the heap is as it was before the accept, and is all of it when none is pending.
      pub started_Reach-Inv :
          (buffer daytime : Text) (x y : Object H)
          → start_object o z do_write h buffer daytime ≡ some x
          → Reach x y
          → Inv y
      started_Reach-Inv buffer daytime x y e r = Reach-Inv (start_object-Inv buffer daytime x e) r
