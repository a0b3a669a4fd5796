-- ===== src/Greeter/Server/Sessions.antt =====
-- Laws of the session map of GreeterServer (grpcdemo/server_async.cc).
use cpp_demo.Prelude.{
  ℕ, ◌+◌, ◌<◌, ◌≤◌, ◌≡◌, ◌≢◌, refl, [], ◌∷◌, none, some, arith, if◌then◌else◌, ◌==◌,
}
use cpp_demo.Greeter.Session.{Session}
use cpp_demo.Greeter.Server.{Sessions, find, assign, erase}

pub find-assign :
    (i j : ℕ) (s : Session) (m : Sessions)
    → find j (assign i s m) ≡ (if i == j then some s else find j m)
unfolding find assign
find-assign i j s [] = refl
find-assign i j s ((k, t) ∷ m) = ground (arith, find-assign i j s m)

-- The keys are distinct and below the bound, newest first or not, and each session has its key.
abbrev pub Fresh : ℕ → Sessions → Type 0
Fresh i [] = Unit {0}
Fresh i ((k, s) ∷ m) = (k ≢ i) × Fresh i m

-- Every key stands once, is below the bound, and is its session's identifier.
abbrev pub Keyed : ℕ → Sessions → Type 0
Keyed n [] = Unit {0}
Keyed n ((k, s) ∷ m) = (k < n) × (s.session_id ≡ k) × Fresh k m × Keyed n m

pub Fresh-above : {n : ℕ} (m : Sessions) (i : ℕ) → Keyed n m → n ≤ i → Fresh i m
Fresh-above [] i h p = tt
Fresh-above {n} ((k, s) ∷ m) i h p = (λ e. omega (arith, h.0, e), Fresh-above {n = n} m i h.3 p)

pub find-Fresh : (i : ℕ) (m : Sessions) → Fresh i m → find i m ≡ none
unfolding find
find-Fresh i [] h = refl
find-Fresh i ((k, s) ∷ m) h = ground (arith, find-Fresh i m)

Keyed-mono : {n p : ℕ} (m : Sessions) → n ≤ p → Keyed n m → Keyed p m
Keyed-mono [] h w = tt
Keyed-mono {n} {p} ((k, s) ∷ m) h w = (omega arith, w.1, w.2, Keyed-mono {n = n} {p = p} m h w.3)

Fresh-assign : (i j : ℕ) (s : Session) (m : Sessions) → i ≢ j → Fresh j m → Fresh j (assign i s m)
unfolding assign
Fresh-assign i j s [] p h = (p, tt)
Fresh-assign i j s ((k, t) ∷ m) p h = ground (arith, Fresh-assign i j s m)

pub Keyed-assign :
    (n i : ℕ) (s : Session) (m : Sessions)
    → i < n
    → s.session_id ≡ i
    → Keyed n m
    → Keyed n (assign i s m)
unfolding assign
Keyed-assign n i s [] h e w = (h, e, tt, tt)
Keyed-assign n i s ((k, t) ∷ m) h e w = ground (arith, Keyed-assign n i s m, Fresh-assign i k s m)

-- A new key may be the bound itself, which then goes up by one.
pub Keyed-assign_new :
    (n : ℕ) (s : Session) (m : Sessions)
    → s.session_id ≡ n
    → Keyed n m
    → Keyed (n + 1) (assign n s m)
Keyed-assign_new n s m e w =
    Keyed-assign (n + 1) n s m (omega arith) e (Keyed-mono {n = n} {p = n + 1} m (omega arith) w)

Fresh-erase : (i j : ℕ) (m : Sessions) → Fresh j m → Fresh j (erase i m)
unfolding erase
Fresh-erase i j [] h = tt
Fresh-erase i j ((k, t) ∷ m) h = ground (arith, Fresh-erase i j m)

pub Keyed-erase : (n i : ℕ) (m : Sessions) → Keyed n m → Keyed n (erase i m)
unfolding erase
Keyed-erase n i [] w = tt
Keyed-erase n i ((k, t) ∷ m) w = ground (arith, Keyed-erase n i m, Fresh-erase i k m)

pub find-erase :
    (n i j : ℕ) (m : Sessions)
    → Keyed n m
    → find j (erase i m) ≡ (if i == j then none else find j m)
unfolding find erase
find-erase n i j [] w = ground arith
find-erase n i j ((k, t) ∷ m) w = ground (arith, find-erase n i j m, find-Fresh j m)

-- A session that is found has its key for its identifier.
pub find_id :
    (n i : ℕ) (m : Sessions) (s : Session)
    → Keyed n m
    → find i m ≡ some s
    → (s.session_id ≡ i) × (i < n)
unfolding find
find_id n i [] s w e = cc
find_id n i ((k, t) ∷ m) s w e = ground (arith, find_id n i m s)
