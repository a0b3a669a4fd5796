-- ===== src/HttpProbe/Passes.antt =====
-- The two loops of main of http/tcp_reuse.cpp, which the TLS probes have too: their passes, in order,
-- and how main ends.
use cpp_demo.Prelude.{
  ℕ, zero, suc, ◌+◌, ◌*◌, ◌≡◌, refl, Bool, true, false, List, [], ◌∷◌, ◌++◌, All, length,
  length-append, arith,
}
use cpp_demo.IpPort.{IpPort}

abbrev pub is_empty : {A : Type 0} → List A → Bool
is_empty [] = true
is_empty (x ∷ xs) = false

-- main calls exit(-1), fails an assertion, or returns, with what it leaves.
pub data Result (P : Type 0) : Type 0 where
  exits asserts : Result P
  returns : P → Result P

-- `meets i k` is what the pass of the outer loop with index `i` meets at the target with index `k`.
module _ {V : Type 0} (meets : ℕ → ℕ → V) where
  unfoldable pub over_targets : ℕ → ℕ → List IpPort → List V
  over_targets i k [] = []
  over_targets i k (target ∷ ts) = meets i k ∷ over_targets i (k + 1) ts

  unfoldable pub passes : ℕ → ℕ → List IpPort → List V
  unfolding over_targets
  passes zero i targets = []
  passes (suc n) i targets = over_targets i 0 targets ++ passes n (i + 1) targets

  length-over_targets : (i k : ℕ) (ts : List IpPort) → length (over_targets i k ts) ≡ length ts
  unfolding over_targets
  length-over_targets i k [] = refl
  length-over_targets i k (t ∷ ts) = omega (arith, length-over_targets i (k + 1) ts)

  pub length-passes : (n i : ℕ) (ts : List IpPort) → length (passes n i ts) ≡ n * length ts
  unfolding passes
  length-passes zero i ts = omega arith
  length-passes (suc n) i ts = grind (
    arith,
    length-append (over_targets i 0 ts) (passes n (i + 1) ts),
    length-over_targets i 0 ts,
    length-passes n (i + 1) ts,
  )

  module _ (P : V → Type 0) (each : (i k : ℕ) → P (meets i k)) where
    over_targets-All :
        (i k : ℕ) (ts : List IpPort) (vs : List V) → All P vs → All P (over_targets i k ts ++ vs)
    unfolding over_targets
    over_targets-All i k [] vs h = h
    over_targets-All i k (t ∷ ts) vs h = (each i k, over_targets-All i (k + 1) ts vs h)

    pub passes-All : (n i : ℕ) (ts : List IpPort) → All P (passes n i ts)
    unfolding passes
    passes-All zero i ts = tt
    passes-All (suc n) i ts =
        over_targets-All i 0 ts (passes n (i + 1) ts) (passes-All n (i + 1) ts)
