-- ===== src/Signature.antt =====
-- openssl/signature_benchmark.cpp: the workers and main. OpenSSL's elliptic curves are a parameter. The
-- objects that a worker makes are counted while they live. Timing is left out. Worker_EVP, which main
-- does not use, is in Evp.
pub mod Evp
pub mod Run
mod Tests
use cpp_demo.Prelude.{
  ℕ, zero, suc, ◌+◌, ◌-◌, ◌≡◌, Bool, true, false, Option, none, some, List, [], ◌∷◌, ◌++◌, Text,
  codes, if◌then◌else◌,
}

-- What main calls of a worker. A method gives `none` where one of its assertions fails; the deleter
-- does not fail.
pub record Worker (S : Type 0) : Type 0 where
  pub name : Text
  pub prepare : S → Option S
  pub sign : Text → S → Option S
  pub verify : Text → S → Option S
  pub destroy : S → S

-- `prepare`, `sign` and `verify`, each on what the last one left.
abbrev pub then_do : {S : Type 0} → Option S → (S → Option S) → Option S
then_do none f = none
then_do (some s) f = f s

module _ {S : Type 0} where
  -- The body of main's first loop.
  unfoldable pub bench : Worker S → Text → S → Option S
  bench w text s = then_do (then_do (w.prepare s) (w.sign text)) (w.verify text)

  -- The first loop, over the workers with their states.
  unfoldable pub bench_all : List (Worker S × S) → Text → Option (List (Worker S × S))
  bench_all [] text = some []
  bench_all ((w, s) ∷ ws) text = elim (bench w text s) [
    | none ↦ none
    | some t ↦ elim (bench_all ws text) [ none ↦ none | some ts ↦ some ((w, t) ∷ ts) ]
  ]

  -- The second loop: what each worker leaves behind.
  unfoldable pub delete_all : List (Worker S × S) → List S
  delete_all [] = []
  delete_all ((w, s) ∷ ws) = w.destroy s ∷ delete_all ws

  deleted : Option (List (Worker S × S)) → Option (List S)
  unfolding delete_all
  deleted none = none
  deleted (some ws) = some (delete_all ws)

  -- main.
  unfoldable pub main : List (Worker S × S) → Text → Option (List S)
  unfolding deleted
  main ws text = deleted (bench_all ws text)

-- Worker_Foo.
unfoldable pub worker_foo : (S : Type 0) → Worker S
worker_foo S = record {
  name = codes "Foo";
  prepare = some;
  sign = λ text s. some s;
  verify = λ text s. some s;
  destroy = λ s. s;
}

-- OpenSSL's functions, null as `none`. What is signed with a key is verified with it.
pub record Curves : Type 1 where
  pub Key : Type 0
  pub Group : Type 0
  pub Signature : Type 0
  pub key_new : Option Key
  pub group_by_name : ℕ → Option Group
  pub set_group : Key → Group → Option Key
  pub generate_key : Key → Option Key
  pub do_sign : Text → Key → Option Signature
  pub do_verify : Text → Signature → Key → Bool
  pub signed_verifies :
      (text : Text) (k : Key) (s : Signature) → do_sign text k ≡ some s → do_verify text s k ≡ true

module _ (o : Curves) where
  open o use {Key, Group, Signature}

  -- The pointers of a Worker_ECDSA, which `new C()` sets to null, and the objects of OpenSSL that live.
  pub record Ecdsa : Type 0 where
    pub pkey : Option Key
    pub curve : Option Group
    pub sig : Option Signature
    pub keys : ℕ
    pub groups : ℕ
    pub signatures : ℕ

  unfoldable pub new_ecdsa : Ecdsa
  new_ecdsa = record { pkey = none; curve = none; sig = none; keys = 0; groups = 0; signatures = 0 }

  with_generated : Ecdsa → Option Key → Option Ecdsa
  with_generated s none = none
  with_generated s (some k) = some (record s { pkey = some k })

  with_group : Ecdsa → Option Key → Option Ecdsa
  unfolding with_generated
  with_group s none = none
  with_group s (some k) = with_generated s (o.generate_key k)

  with_curve : Ecdsa → Key → Option Group → Option Ecdsa
  unfolding with_group
  with_curve s k none = none
  with_curve s k (some g) =
      with_group (record s { curve = some g; groups = s.groups + 1 }) (o.set_group k g)

  with_key : ℕ → Ecdsa → Option Key → Option Ecdsa
  unfolding with_curve
  with_key id s none = none
  with_key id s (some k) =
      with_curve (record s { pkey = some k; keys = s.keys + 1 }) k (o.group_by_name id)

  unfoldable pub prepare : ℕ → Ecdsa → Option Ecdsa
  unfolding with_key
  prepare id s = with_key id s o.key_new

  with_signature : Ecdsa → Option Signature → Option Ecdsa
  with_signature s none = none
  with_signature s (some g) = some (record s { sig = some g; signatures = s.signatures + 1 })

  -- A worker that has no key, or no signature, passes a null pointer, which OpenSSL refuses.
  unfoldable pub sign : Text → Ecdsa → Option Ecdsa
  unfolding with_signature
  sign text s = elim s.pkey [ none ↦ none | some k ↦ with_signature s (o.do_sign text k) ]

  checked : Ecdsa → Text → Option Key → Option Signature → Option Ecdsa
  checked s text none g = none
  checked s text (some k) none = none
  checked s text (some k) (some g) = if o.do_verify text g k then some s else none

  unfoldable pub verify : Text → Ecdsa → Option Ecdsa
  unfolding checked
  verify text s = checked s text s.pkey s.sig

  -- One for a pointer that is not null.
  abbrev pub one : {A : Type 0} → Option A → ℕ
  one none = 0
  one (some a) = 1

  -- The destructor.
  unfoldable pub destroy : Ecdsa → Ecdsa
  destroy s = record s {
    signatures = s.signatures - one s.sig;
    groups = s.groups - one s.curve;
    keys = s.keys - one s.pkey;
  }

  -- Worker_ECDSA_Define.
  unfoldable pub worker_ecdsa : Text → ℕ → Worker Ecdsa
  worker_ecdsa curve_name curve_id = record {
    name = codes "ECDSA_" ++ curve_name;
    prepare = prepare curve_id;
    sign = sign;
    verify = verify;
    destroy = destroy;
  }
