-- ===== src/StudentJson/Tests.antt =====
-- A conversion with the laws that protobuf/pb24json.cc relies on: one member, with the lengths first.
use cpp_demo.Prelude.{
  ℕ, zero, suc, ◌≡◌, ◌≢◌, refl, List, [], ◌∷◌, ◌++◌, Text, Option, none, some, length, take, drop,
  append_assoc, ap, ◌∙◌, take-append,
}
use cpp_demo.StudentJson.{
  Grade, unknown, one, two, three, Student, Json, other_member, tony, simple,
  message_to_json_string,
}

abbrev grade_code : Grade → ℕ
grade_code unknown = 0
grade_code one = 1
grade_code two = 2
grade_code three = 3

abbrev grade_of : ℕ → Grade
grade_of zero = unknown
grade_of (suc zero) = one
grade_of (suc (suc zero)) = two
grade_of (suc (suc (suc n))) = three

grade_of-grade_code : (g : Grade) → grade_of (grade_code g) ≡ g
grade_of-grade_code unknown = refl
grade_of-grade_code one = refl
grade_of-grade_code two = refl
grade_of-grade_code three = refl

abbrev member_of : Student → Text
member_of s =
    length s.name ∷ s.age ∷ grade_code s.grade ∷ length s.nick_name ∷ (s.name ++ s.nick_name)

abbrev student_of : Text → Option Student
student_of (brace ∷ n ∷ age ∷ grade ∷ k ∷ rest) = some (record {
  name = take n rest;
  age = age;
  grade = grade_of grade;
  nick_name = take k (drop n rest);
})
student_of _ = none

drop-append : (xs ys : Text) → drop (length xs) (xs ++ ys) ≡ ys
drop-append [] ys = refl
drop-append (x ∷ xs) ys = drop-append xs ys

student_of-member_of :
    (s : Student) (rest : Text) → student_of (b'{' ∷ (member_of s ++ rest)) ≡ some s
student_of-member_of s rest =
    simp
      (
        append_assoc,
        take-append s.name (s.nick_name ++ rest),
        drop-append s.name (s.nick_name ++ rest),
        take-append s.nick_name rest,
        grade_of-grade_code s.grade,
      )
      refl

back :
    (s : Student) (more : Text)
    → student_of (b'{' ∷ ((member_of s ++ more) ++ (b'}' ∷ []))) ≡ some s
back s more =
    ap (λ t. student_of (b'{' ∷ t)) (append_assoc (member_of s) more (b'}' ∷ []))
    ∙ student_of-member_of s (more ++ (b'}' ∷ []))

no_member : (s : Student) → ◌≢◌ {A = List Text} (member_of s ∷ []) []
no_member s e = cc

abbrev lengths_first : Json
lengths_first = record {
  members = λ s. member_of s ∷ [];
  parse = λ o t. student_of t;
  parse_members = λ o s. back s [];
  parse_ignored = λ s. back s (b',' ∷ other_member);
  named_members = λ s h e. no_member s e;
}

tony_survives : simple lengths_first tony ≡ some tony
unfolding simple message_to_json_string
tony_survives = refl
