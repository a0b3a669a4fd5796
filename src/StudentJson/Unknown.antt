-- ===== src/StudentJson/Unknown.antt =====
-- The messages of protobuf/pb24json.cc, to their JSON text and back.
use cpp_demo.Prelude.{
  ◌-◌, ◌≡◌, ◌≢◌, refl, true, List, [], ◌∷◌, ◌++◌, Text, some, length, take, append_assoc,
  append-nil, arith, ap, ◌∙◌, sym, take-append, length-append,
}
use cpp_demo.StudentJson.{
  Student, Json, further, joined, object_text, other_member, add_member, message_to_json_string,
  simple, parse_options,
}

further-append : (ms : List Text) (m : Text) → further (ms ++ (m ∷ [])) ≡ further ms ++ (b',' ∷ m)
further-append [] m = ap (λ t. b',' ∷ t) (append-nil m)
further-append (n ∷ ms) m =
    ap (λ t. b',' ∷ t)
      (ap (λ t. n ++ t) (further-append ms m) ∙ sym (append_assoc n (further ms) (b',' ∷ m)))

add_member-object_text :
    (ms : List Text)
    → ms ≢ []
    → add_member (object_text ms) ≡ object_text (ms ++ (other_member ∷ []))
unfolding add_member
add_member-object_text [] h = absurd (h refl)
add_member-object_text (m ∷ ms) h =
    let body = b'{' ∷ joined (m ∷ ms) in
    let end = (b',' ∷ other_member) ++ (b'}' ∷ []) in
    let cut : length (body ++ (b'}' ∷ [])) - 1 ≡ length body =
      omega (arith, length-append body (b'}' ∷ [])) in
    let members_text : joined (m ∷ ms) ++ (b',' ∷ other_member)
        ≡ joined (m ∷ (ms ++ (other_member ∷ []))) =
      append_assoc m (further ms) (b',' ∷ other_member)
      ∙ ap (λ t. m ++ t) (sym (further-append ms other_member)) in
    let taken : take (length (body ++ (b'}' ∷ [])) - 1) (body ++ (b'}' ∷ [])) ≡ body =
      ap (λ n. take n (body ++ (b'}' ∷ []))) cut ∙ take-append body (b'}' ∷ []) in
    ap (λ t. t ++ end) taken
    ∙ (sym (append_assoc body (b',' ∷ other_member) (b'}' ∷ []))
        ∙ ap (λ t. b'{' ∷ (t ++ (b'}' ∷ []))) members_text)

-- A student comes back from its JSON text as it was; and where the student has a name, it comes back
-- as it was from the text with one more member, which no field has, put before the closing brace.
pub parse-to_json :
    (j : Json) (s : Student)
    → length s.name ≢ 0
    → (simple j s ≡ some s) × (parse_options j s ≡ some s)
unfolding simple parse_options message_to_json_string
parse-to_json j s h = (
  j.parse_members _ s,
  ap (j.parse (record { ignore_unknown_fields = true }))
        (add_member-object_text (j.members s) (j.named_members s h))
      ∙ j.parse_ignored s,
)
