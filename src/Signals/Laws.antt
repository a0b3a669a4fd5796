-- ===== src/Signals/Laws.antt =====
-- What a call of a signal runs (misc/lsignal.cpp).
use cpp_demo.Prelude.{
  refl, ap, ◌∙◌, ℕ, ◌≡◌, true, false, List, [], ◌∷◌, ◌++◌, Option, none, some, arith,
}
use cpp_demo.Signals.Library.{lock_one, drop_one, has_handle, Lsignal, Entry, unlocked}
use cpp_demo.Signals.{add}

unlocked-append :
    {F : Type 0} (es fs : List (Entry F)) → unlocked (es ++ fs) ≡ unlocked es ++ unlocked fs
unlocked-append [] fs = refl
unlocked-append (e ∷ es) fs = ground (arith, unlocked-append es fs)

-- Three connections that nobody owns, the first of which is locked and the second then taken out.
module _ {F : Type 0} (a b c : F) where
  abbrev free : ℕ → F → Entry F
  free i f = record { handle = i; locked = false; owner = none; slot = f }

  abbrev trio : ℕ → ℕ → ℕ → List (Entry F)
  trio i j k = free i a ∷ free j b ∷ free k c ∷ []

  unlocked-trio :
      (i j k : ℕ)
      → has_handle j (free i a ∷ []) ≡ false
      → has_handle k (free i a ∷ free j b ∷ []) ≡ false
      → (unlocked (lock_one i true (trio i j k)) ≡ b ∷ c ∷ [])
        × (unlocked (drop_one j (lock_one i true (trio i j k))) ≡ c ∷ [])
  unlocked-trio i j k p q = (ground arith, ground arith)

module _ (l : Lsignal) where
  pub called-connect :
      (F : Type 0) (f : F) (o : Option ℕ) (s : l.Signal F)
      → l.called F (l.connect F f o s).1 ≡ l.called F s ++ (f ∷ [])
  called-connect F f o s =
      rw (l.of_call F (l.connect F f o s).1, l.of_connect F f o s, l.of_call F s)
        (unlocked-append (l.entries F s)
          (record { handle = (l.connect F f o s).0; locked = false; owner = o; slot = f } ∷ []))

  pub called-add :
      (F : Type 0) (f : F) (s : l.Signal F) → l.called F (add l F f s) ≡ l.called F s ++ (f ∷ [])
  unfolding add
  called-add F f s = called-connect F f none s

  pub called_new : (F : Type 0) → l.called F (l.new_signal F) ≡ []
  called_new F = l.of_call F (l.new_signal F) ∙ ap unlocked (l.of_new F)

  pub called-disconnect_all : (F : Type 0) (s : l.Signal F) → l.called F (l.disconnect_all F s) ≡ []
  called-disconnect_all F s =
      l.of_call F (l.disconnect_all F s) ∙ ap unlocked (l.of_disconnect_all F s)

  -- The one connection that an owner has made ends with it.
  pub called-destroy_slot :
      (F : Type 0) (f : F) (o : ℕ)
      → l.called F (l.destroy_slot F o (l.connect F f (some o) (l.new_signal F)).1) ≡ []
  called-destroy_slot F f o = simp (l.of_call, l.of_destroy, l.of_connect, l.of_new) (ground arith)

  pub lock_first :
      (F : Type 0) (a b c : F)
      → let o = l.connect F a none (l.new_signal F) in
        let p = l.connect F b none (o.1) in
        let s = l.set_lock F (o.0) true (l.connect F c none (p.1)).1 in
        (l.called F s ≡ b ∷ c ∷ []) × (l.called F (l.disconnect F (p.0) s) ≡ c ∷ [])
  lock_first F a b c =
      let o = l.connect F a none (l.new_signal F) in
      let p = l.connect F b none (o.1) in
      let q = l.connect F c none (p.1) in
      let all_three : l.entries F q.1 ≡ trio a b c o.0 p.0 q.0 =
        simp (l.of_connect, l.of_new) refl in
      let second = simp (l.of_connect, l.of_new) at (l.new_handle F b none (o.1)) in
      let third = simp (l.of_connect, l.of_new) at (l.new_handle F c none (p.1)) in
      let (x, y) = unlocked-trio a b c o.0 p.0 q.0 second third in
      (
        rw
            (
              l.of_call F (l.set_lock F (o.0) true (q.1)),
              l.of_set_lock F (o.0) true (q.1),
              all_three,
            )
            x,
        rw
            (
              l.of_call F (l.disconnect F (p.0) (l.set_lock F (o.0) true (q.1))),
              l.of_disconnect F (p.0) (l.set_lock F (o.0) true (q.1)),
              l.of_set_lock F (o.0) true (q.1),
              all_three,
            )
            y,
      )
