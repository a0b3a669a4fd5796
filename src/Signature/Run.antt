-- ===== src/Signature/Run.antt =====
-- What the benchmark of openssl/signature_benchmark.cpp leaves behind.
use cpp_demo.Prelude.{ℕ, ◌≡◌, refl, some, List, [], ◌∷◌, Text, All, Option-cases, inl, inr, arith}
use cpp_demo.Signature.{
  Worker, bench, bench_all, delete_all, main, Curves, Ecdsa, new_ecdsa, prepare, sign, verify, one,
  destroy, worker_ecdsa, deleted,
}

module _ {S : Type 0} (text : Text) where
  main-cons :
      (w : Worker S) (s t : S) (ws : List (Worker S × S)) (left : List S)
      → bench w text s ≡ some t
      → main ws text ≡ some left
      → main ((w, s) ∷ ws) text ≡ some (w.destroy t ∷ left)
  unfolding main deleted bench_all delete_all
  main-cons w s t ws left e f = elim (Option-cases (bench_all ws text)) [
    | inl none' ↦ ground arith
    | inr (us, some') ↦ ground arith
  ]

module _ (o : Curves) where
  open o use {Key, Group, Signature}

  -- OpenSSL makes keys for this curve, which sign the text.
  pub record Ready (text : Text) (id : ℕ) : Type 0 where
    pub key : Key
    pub new_ok : o.key_new ≡ some key
    pub group : Group
    pub group_ok : o.group_by_name id ≡ some group
    pub on_curve : Key
    pub set_ok : o.set_group key group ≡ some on_curve
    pub generated : Key
    pub generate_ok : o.generate_key on_curve ≡ some generated
    pub signature : Signature
    pub sign_ok : o.do_sign text generated ≡ some signature

  -- The objects that live are those that the worker points to.
  pub record Owned (s : Ecdsa o) : Type 0 where
    pub keys_owned : s.keys ≡ one o s.pkey
    pub groups_owned : s.groups ≡ one o s.curve
    pub signatures_owned : s.signatures ≡ one o s.sig

  -- No object lives.
  abbrev pub Empty : Ecdsa o → Type 0
  Empty s = (s.keys ≡ 0) × (s.groups ≡ 0) × (s.signatures ≡ 0)

  destroy-Empty : (s : Ecdsa o) → Owned s → Empty (destroy o s)
  unfolding destroy
  destroy-Empty s v = (
    omega (arith, v.keys_owned),
    omega (arith, v.groups_owned),
    omega (arith, v.signatures_owned),
  )

  -- A signature takes the place of the last one, which is not freed: if the worker owned all its objects
  -- before, its destructor leaves just that one behind.
  pub destroy-sign :
      (text : Text) (s t : Ecdsa o)
      → Owned s
      → sign o text s ≡ some t
      → ((destroy o t).signatures ≡ one o s.sig)
        × ((destroy o t).keys ≡ 0)
        × ((destroy o t).groups ≡ 0)
  unfolding destroy sign
  destroy-sign text s t v e = ground (arith, v.signatures_owned, v.keys_owned, v.groups_owned)

  bench-Owned :
      (name text : Text) (id : ℕ)
      → Ready text id
      → (t : Ecdsa o) × (bench (worker_ecdsa o name id) text (new_ecdsa o) ≡ some t) × Owned t
  unfolding bench worker_ecdsa prepare sign verify new_ecdsa
  bench-Owned name text id r = (
    record {
      pkey = some r.generated;
      curve = some r.group;
      sig = some r.signature;
      keys = 1;
      groups = 1;
      signatures = 1;
    },
    ground (
      arith,
      r.new_ok,
      r.group_ok,
      r.set_ok,
      r.generate_ok,
      r.sign_ok,
      o.signed_verifies text r.generated r.signature r.sign_ok,
    ),
    record { keys_owned = refl; groups_owned = refl; signatures_owned = refl },
  )

  -- New workers, one for each curve.
  abbrev pub new_workers : List (Text × ℕ) → List (Worker (Ecdsa o) × Ecdsa o)
  new_workers [] = []
  new_workers ((name, id) ∷ cs) = (worker_ecdsa o name id, new_ecdsa o) ∷ new_workers cs

  -- Where OpenSSL makes a key for each curve, which signs the text: main fails no assertion, the
  -- signature of each worker verifies, and in the end no key, group or signature lives.
  pub main-Empty :
      (text : Text) (curves : List (Text × ℕ))
      → All (λ c. Ready text c.1) curves
      → (left : List (Ecdsa o)) × (main (new_workers curves) text ≡ some left) × All Empty left
  unfolding main bench_all delete_all worker_ecdsa
  main-Empty text [] h = ([], refl, tt)
  main-Empty text ((name, id) ∷ cs) h =
      let (t, done, owned) = bench-Owned name text id h.0 in
      let (left, rest, empty) = main-Empty text cs h.1 in
      (
        destroy o t ∷ left,
        main-cons text (worker_ecdsa o name id) (new_ecdsa o) t (new_workers cs) left done rest,
        (destroy-Empty t owned, empty),
      )
