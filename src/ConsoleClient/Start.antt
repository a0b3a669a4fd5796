-- ===== src/ConsoleClient/Start.antt =====
-- The error category of asio/allocation/client.cpp, and main from its arguments to its return code.
-- `absl::StrCat` of the parts of a message is a parameter.
use cpp_demo.Prelude.{
  Bool-cases, ℕ, ◌≡◌, ◌≢◌, refl, Bool, false, List, Text, codes, Option, none, some, arith, ◌==◌,
  if◌then◌else◌, ◌↔◌, inl, inr,
}
use cpp_demo.ConsoleClient.{
  CustomError, no_error, client_quit, server_quit, ReadResult, Turn, Log, End, quits_client,
  quits_server, catches, asserts, blocks, ended, main,
}

-- The values of the enumeration CustomErrorCode.
abbrev pub error_value : CustomError → ℕ
error_value no_error = 0
error_value client_quit = 1
error_value server_quit = 2

abbrev pub category_name : Text
category_name = codes "CustomErrorCategory"

-- CustomErrorCategory::message.
unfoldable pub message : (Text → Text → Text → ℕ → Text) → ℕ → Text
message str_cat value =
    if value == 0
    then codes "no error"
    else if value == 1
    then codes "client quit"
    else if value == 2
    then codes "server quit"
    else str_cat (codes "unspecified ") category_name (codes " error: ") value

-- Whether the name resolves, whether the connection is made, and what the talk meets then.
pub record Start : Type 0 where
  pub argc : ℕ
  pub resolves : Bool
  pub connects : Bool
  pub hello : ReadResult
  pub turns : List Turn

-- What main returns: an `int`, or nothing, where it aborts in an assertion or blocks.
abbrev pub return_code : End → Option ℕ
return_code quits_client = some 0
return_code quits_server = some 0
return_code catches = some 0
return_code asserts = none
return_code blocks = none

-- The whole of main: the return code, and the talk's log, if main comes to the `try`.
unfoldable pub program : Start → Option ℕ × Option Log
program s =
    let log =
      if s.resolves
      then (if s.connects then main s.hello s.turns else ended catches)
      else ended catches in
    if s.argc == 3 then (return_code log.end, some log) else (some 1, none)

return_code-ne : (e : End) → return_code e ≢ some 1
return_code-ne quits_client h = ground arith
return_code-ne quits_server h = ground arith
return_code-ne catches h = ground arith
return_code-ne asserts h = cc
return_code-ne blocks h = cc

-- The return code is 1 exactly when there are not two arguments beside the program's name; an
-- exception, such as a refused connection, gives 0.
pub program_code :
    (s : Start)
    → (((program s).0 ≡ some 1) ↔ (s.argc ≢ 3))
      × (s.argc ≡ 3 → s.connects ≡ false → (program s).0 ≡ some 0)
unfolding program
program_code s = elim (Bool-cases (s.argc == 3)) [
  | inl e ↦ (
    (
      λ h. absurd (
          ground (
            arith,
            return_code-ne
                (if s.resolves
                  then (if s.connects then main s.hello s.turns else ended catches)
                  else ended catches).end,
          )),
      λ h. absurd (ground arith),
    ),
    λ a c. ground arith,
  )
  | inr e ↦ ((λ h a. ground arith, λ h. ground arith), λ a c. ground arith)
]

-- The three values of the enumeration have messages of their own.
pub message-error_value :
    (str_cat : Text → Text → Text → ℕ → Text) (e f : CustomError)
    → message str_cat (error_value e) ≡ message str_cat (error_value f)
    → e ≡ f
unfolding message
message-error_value str_cat no_error no_error h = refl
message-error_value str_cat no_error client_quit h = absurd (ground arith)
message-error_value str_cat no_error server_quit h = absurd (ground arith)
message-error_value str_cat client_quit no_error h = absurd (ground arith)
message-error_value str_cat client_quit client_quit h = refl
message-error_value str_cat client_quit server_quit h = absurd (ground arith)
message-error_value str_cat server_quit no_error h = absurd (ground arith)
message-error_value str_cat server_quit client_quit h = absurd (ground arith)
message-error_value str_cat server_quit server_quit h = refl
