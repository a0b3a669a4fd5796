-- ===== src/AnyObjects.antt =====
-- protobuf/any.cc. The protobuf library is a parameter: a google.protobuf.Any, the bytes of an
-- Envelope, and what packing, unpacking, serialising and parsing give back; so is `absl::StrCat` of
-- a text and a number. The three messages are those of protobuf/test.proto.
mod Tests
use cpp_demo.Prelude.{
  ℕ, zero, suc, ◌+◌, ◌%◌, ◌≡◌, Bool, true, false, ◌&&◌, List, [], ◌∷◌, Text, codes, text_eq, Option,
  none, some, ◌==◌, if◌then◌else◌,
}

pub record Object1 : Type 0 where
  pub info : Text
  pub foo : Text

pub record Object2 : Type 0 where
  pub info : Text
  pub bar : Text

pub record Envelope (A : Type 0) : Type 0 where
  pub seq : ℕ
  pub objects : List A

-- `ParseFromString` gives `none` where it returns false. `encodable` says that an envelope has a
-- number of 32 bits and less than 2 GiB of bytes.
pub record Protobuf (A B : Type 0) : Type 0 where
  pub pack1 : Object1 → A
  pub pack2 : Object2 → A
  pub is1 : A → Bool
  pub is2 : A → Bool
  pub unpack1 : A → Option Object1
  pub unpack2 : A → Option Object2
  pub serialize : Envelope A → B
  pub parse : B → Option (Envelope A)
  pub encodable : Envelope A → Bool
  pub str_cat : Text → ℕ → Text

module _ {A B : Type 0} (p : Protobuf A B) where
  -- The object that the loop adds in pass `i`.
  unfoldable pub object_at : ℕ → A
  object_at i =
      if i % 2 == 0
      then p.pack1
          (record { info = p.str_cat (codes "object1, info ") i; foo = p.str_cat (codes "foo") i })
      else p.pack2
          (record { info = p.str_cat (codes "object2, info ") i; bar = p.str_cat (codes "bar") i })

  -- The passes from `i` on, `n` of them.
  unfoldable pub objects_from : ℕ → ℕ → List A
  objects_from i zero = []
  objects_from i (suc n) = object_at i ∷ objects_from (i + 1) n

  -- What the expectations on an unpacked object say: `none` is a failed UnpackTo.
  expect1 : ℕ → Option Object1 → Bool
  expect1 i none = false
  expect1 i (some o) =
      text_eq o.info (p.str_cat (codes "object1, info ") i)
      && text_eq o.foo (p.str_cat (codes "foo") i)

  expect2 : ℕ → Option Object2 → Bool
  expect2 i none = false
  expect2 i (some o) =
      text_eq o.info (p.str_cat (codes "object2, info ") i)
      && text_eq o.bar (p.str_cat (codes "bar") i)

  -- One pass of the second loop: whether every EXPECT_EQ holds and FAIL is not reached.
  unfoldable pub expect_object : ℕ → A → Bool
  unfolding expect1 expect2
  expect_object i a =
      if p.is1 a
      then (i % 2 == 0) && expect1 i (p.unpack1 a)
      else if p.is2 a
      then (i % 2 == 1) && expect2 i (p.unpack2 a)
      else false

  unfoldable pub expect_all : ℕ → List A → Bool
  expect_all i [] = true
  expect_all i (a ∷ rest) = let others = expect_all (i + 1) rest in expect_object i a && others

  expect_parsed : Envelope A → Option (Envelope A) → Bool
  unfolding expect_all
  expect_parsed evp none = false
  expect_parsed evp (some e) = (e.seq == evp.seq) && expect_all 0 e.objects

  abbrev pub envelope_of : ℕ → ℕ → Envelope A
  envelope_of seq n = record { seq = seq; objects = objects_from 0 n }

  -- The test with an envelope of number `seq` and `n` objects: whether it passes.
  unfoldable pub any_test : ℕ → ℕ → Bool
  unfolding expect_parsed
  any_test seq n = let evp = envelope_of seq n in expect_parsed evp (p.parse (p.serialize evp))
