-- ===== src/Signals/Library.antt =====
-- The library lsignal, which misc/lsignal.cpp calls: a signal's connections, in the order in which
-- they were made, and what each operation does to them.
use cpp_demo.Prelude.{
  ℕ, ◌≡◌, Bool, true, false, List, [], ◌∷◌, ◌++◌, Option, none, some, ◌==◌, if◌then◌else◌,
}

-- A connection of a signal whose slots are of type `F`: its handle, whether it is locked, the
-- lsignal::slot that owns it, if any, and the slot.
pub record Entry (F : Type 0) : Type 0 where
  pub handle : ℕ
  pub locked : Bool
  pub owner : Option ℕ
  pub slot : F

abbrev pub owned_by : ℕ → Option ℕ → Bool
owned_by o none = false
owned_by o (some q) = q == o

module _ {F : Type 0} where
  abbrev pub unlocked : List (Entry F) → List F
  unlocked [] = []
  unlocked (e ∷ es) = if e.locked then unlocked es else e.slot ∷ unlocked es

  abbrev pub lock_one : ℕ → Bool → List (Entry F) → List (Entry F)
  lock_one c b [] = []
  lock_one c b (e ∷ es) = (if e.handle == c then record e { locked = b } else e) ∷ lock_one c b es

  abbrev pub drop_one : ℕ → List (Entry F) → List (Entry F)
  drop_one c [] = []
  drop_one c (e ∷ es) = if e.handle == c then drop_one c es else e ∷ drop_one c es

  abbrev pub drop_owned : ℕ → List (Entry F) → List (Entry F)
  drop_owned o [] = []
  drop_owned o (e ∷ es) = if owned_by o e.owner then drop_owned o es else e ∷ drop_owned o es

  abbrev pub has_handle : ℕ → List (Entry F) → Bool
  has_handle c [] = false
  has_handle c (e ∷ es) = if e.handle == c then true else has_handle c es

-- lsignal::signal. A call runs the slots that are not locked; `destroy_slot` is the end of the life
-- of an owner.
pub record Lsignal : Type 1 where
  pub Signal : Type 0 → Type 0
  pub entries : (F : Type 0) → Signal F → List (Entry F)
  pub new_signal : (F : Type 0) → Signal F
  pub connect : (F : Type 0) → F → Option ℕ → Signal F → ℕ × Signal F
  pub set_lock : (F : Type 0) → ℕ → Bool → Signal F → Signal F
  pub disconnect : (F : Type 0) → ℕ → Signal F → Signal F
  pub disconnect_all : (F : Type 0) → Signal F → Signal F
  pub destroy_slot : (F : Type 0) → ℕ → Signal F → Signal F
  pub called : (F : Type 0) → Signal F → List F
  pub of_new : (F : Type 0) → entries F (new_signal F) ≡ []
  pub of_connect :
      (F : Type 0) (f : F) (o : Option ℕ) (s : Signal F)
      → entries F (connect F f o s).1
        ≡ entries F s
          ++ (record { handle = (connect F f o s).0; locked = false; owner = o; slot = f } ∷ [])
  pub new_handle :
      (F : Type 0) (f : F) (o : Option ℕ) (s : Signal F)
      → has_handle (connect F f o s).0 (entries F s) ≡ false
  pub of_set_lock :
      (F : Type 0) (c : ℕ) (b : Bool) (s : Signal F)
      → entries F (set_lock F c b s) ≡ lock_one c b (entries F s)
  pub of_disconnect :
      (F : Type 0) (c : ℕ) (s : Signal F) → entries F (disconnect F c s) ≡ drop_one c (entries F s)
  pub of_disconnect_all : (F : Type 0) (s : Signal F) → entries F (disconnect_all F s) ≡ []
  pub of_destroy :
      (F : Type 0) (o : ℕ) (s : Signal F)
      → entries F (destroy_slot F o s) ≡ drop_owned o (entries F s)
  pub of_call : (F : Type 0) (s : Signal F) → called F s ≡ unlocked (entries F s)
