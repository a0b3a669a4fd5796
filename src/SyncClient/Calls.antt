-- ===== src/SyncClient/Calls.antt =====
-- What the client of grpcdemo/client.cpp shows of its first three calls.
use cpp_demo.Prelude.{
  ℕ, zero, suc, ◌+◌, ◌≡◌, refl, sym, ap, ◌∙◌, Bool, List, [], ◌∷◌, ◌++◌, map, append_assoc,
  append-nil, Text, codes, take, length, if◌then◌else◌, arith,
}
use cpp_demo.Service.{quoted_name, say_hello1, read_names}
use cpp_demo.SyncClient.{names, named, write_names, shown_if, call_say_hello1}

-- How many of `n` writes are accepted, from the `i`th on, up to the first that is not.
abbrev pub accepted : (ℕ → Bool) → ℕ → ℕ → ℕ
accepted ok i zero = 0
accepted ok i (suc n) = if ok i then suc (accepted ok (i + 1) n) else 0

write_names-take :
    (ok : ℕ → Bool) (i : ℕ) (ns : List Text)
    → write_names ok i ns ≡ map named (take (accepted ok i (length ns)) ns)
unfolding write_names
write_names-take ok i [] = refl
write_names-take ok i (n ∷ ns) = ground (arith, write_names-take ok (i + 1) ns)

-- Each name, quoted, behind a space.
abbrev pub spaced : List Text → Text
spaced [] = []
spaced (n ∷ ns) = 32 ∷ (39 ∷ (n ++ 39 ∷ [])) ++ spaced ns

read_names-spaced : (ss : Text) (ns : List Text) → read_names ss (map named ns) ≡ ss ++ spaced ns
unfolding read_names quoted_name
read_names-spaced ss [] = sym (append-nil ss)
read_names-spaced ss (n ∷ ns) =
    read_names-spaced (ss ++ 32 ∷ (39 ∷ (n ++ 39 ∷ []))) ns
    ∙ append_assoc ss (32 ∷ (39 ∷ (n ++ 39 ∷ []))) (spaced ns)

-- Whatever writes fail: the client stream's answer greets, in order, just the names in front of the
-- first write that fails, each in single quotes; and it is shown exactly if the status is OK.
pub call_say_hello1_lem :
    (ok : ℕ → Bool) (status : Bool)
    → call_say_hello1 ok status
      ≡ shown_if status (codes "hello" ++ spaced (take (accepted ok 0 3) names))
unfolding call_say_hello1 say_hello1
call_say_hello1_lem ok status =
    ap (λ rs. shown_if status (read_names (codes "hello") rs)) (write_names-take ok 0 names)
    ∙ ap (shown_if status) (read_names-spaced (codes "hello") (take (accepted ok 0 3) names))
