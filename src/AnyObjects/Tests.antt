-- ===== src/AnyObjects/Tests.antt =====
-- The test of protobuf/any.cc with four objects, where a packed message is kept as it is.
use cpp_demo.Prelude.{◌≡◌, refl, Bool, true, false, Option, none, some, [], ◌∷◌, ◌++◌}
use cpp_demo.AnyObjects.{
  Object1, Object2, Envelope, Protobuf, any_test, objects_from, object_at, expect_all,
  expect_object,
}

data Packed : Type 0 where
  first : Object1 → Packed
  second : Object2 → Packed

abbrev is_first : Packed → Bool
is_first (first o) = true
is_first (second o) = false

abbrev is_second : Packed → Bool
is_second (first o) = false
is_second (second o) = true

abbrev from_first : Packed → Option Object1
from_first (first o) = some o
from_first (second o) = none

abbrev from_second : Packed → Option Object2
from_second (first o) = none
from_second (second o) = some o

abbrev kept : Protobuf Packed (Envelope Packed)
kept = record {
  pack1 = first;
  pack2 = second;
  is1 = is_first;
  is2 = is_second;
  unpack1 = from_first;
  unpack2 = from_second;
  serialize = λ e. e;
  parse = λ e. some e;
  encodable = λ e. true;
  str_cat = λ t i. t ++ (i ∷ []);
}

kept_passes : any_test kept 123 4 ≡ true
unfolding any_test objects_from object_at expect_all expect_object
kept_passes = refl
