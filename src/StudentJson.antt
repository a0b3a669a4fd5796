-- ===== src/StudentJson.antt =====
-- protobuf/pb24json.cc. The library's conversion between a message and its JSON text is a parameter:
-- a text is the members, each `"name":value`, with commas between them and braces around them. The
-- enumeration and the message are those of protobuf/test.proto. Printing is left out.
pub mod Unknown
mod Tests
use cpp_demo.Prelude.{
  ℕ, zero, suc, ◌+◌, ◌-◌, ◌≡◌, Bool, true, false, List, [], ◌∷◌, ◌++◌, Text, codes, Option, none,
  some, length, take, ◌≢◌,
}

pub data Grade : Type 0 where
  unknown one two three : Grade

pub record Student : Type 0 where
  pub name : Text
  pub age : ℕ
  pub grade : Grade
  pub nick_name : Text

-- The members behind the first one, each with a comma before it.
abbrev pub further : List Text → Text
further [] = []
further (m ∷ ms) = (b',' ∷ m) ++ further ms

abbrev pub joined : List Text → Text
joined [] = []
joined (m ∷ ms) = m ++ further ms

abbrev pub object_text : List Text → Text
object_text ms = b'{' ∷ (joined ms ++ (b'}' ∷ []))

-- The option that the third test sets.
pub record ParseOptions : Type 0 where
  pub ignore_unknown_fields : Bool

-- The member that no field has.
abbrev pub other_member : Text
other_member = codes "\"other\":123"

-- `members` are those that MessageToJsonString writes for a message. A member for an unknown field
-- fails the parse, unless the options say that it is ignored. A message's text has no member for a
-- field that is not set.
pub record Json : Type 0 where
  pub members : Student → List Text
  pub parse : ParseOptions → Text → Option Student
  pub parse_members : (o : ParseOptions) (s : Student) → parse o (object_text (members s)) ≡ some s
  pub parse_ignored :
      (s : Student)
      → parse
          (record { ignore_unknown_fields = true })
          (object_text (members s ++ (other_member ∷ [])))
        ≡ some s
  pub named_members : (s : Student) → length s.name ≢ 0 → members s ≢ []

abbrev pub tony : Student
tony = record { name = codes "tony"; age = 18; grade = three; nick_name = [] }

-- `json.replace(json.end() - 1, json.end(), ",\"other\":123}")`
unfoldable pub add_member : Text → Text
add_member json = take (length json - 1) json ++ ((b',' ∷ other_member) ++ (b'}' ∷ []))

module _ (j : Json) where
  unfoldable pub message_to_json_string : Student → Text
  message_to_json_string s = object_text (j.members s)

  -- The test `simple`, for any student: the message that is parsed back.
  unfoldable pub simple : Student → Option Student
  unfolding message_to_json_string
  simple s = j.parse (record { ignore_unknown_fields = false }) (message_to_json_string s)

  -- The test `parse_otions`, for any student.
  unfoldable pub parse_options : Student → Option Student
  unfolding message_to_json_string
  parse_options s =
      j.parse (record { ignore_unknown_fields = true }) (add_member (message_to_json_string s))
