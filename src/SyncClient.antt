-- ===== src/SyncClient.antt =====
-- grpcdemo/client.cpp: the four calls of the synchronous client, against the service of
-- grpcdemo/service_impl.cc (`Service`). What gRPC decides is an argument: whether a Write is accepted,
-- and the status that ends a call. Timing and logging are left out, but for what is shown.
pub mod Duplex
pub mod Calls
mod Tests
use cpp_demo.Prelude.{
  ℕ, zero, suc, ◌+◌, Bool, true, false, Option, none, some, List, [], ◌∷◌, ◌++◌, Text, codes,
  if◌then◌else◌,
}
use cpp_demo.Service.{HelloRequest, say_hello, say_hello1, say_hello2}

abbrev pub names : List Text
names = codes "tony" ∷ codes "tang" ∷ codes "chang" ∷ []

-- `req.set_name(name)` on a new request.
abbrev pub named : Text → HelloRequest
named name = record { name = name; double_quote = false }

abbrev pub quoted_tony : HelloRequest
quoted_tony = record { name = codes "tony"; double_quote = true }

-- The loop over the names: the requests whose Write is accepted, up to the first that is not.
unfoldable pub write_names : (ℕ → Bool) → ℕ → List Text → List HelloRequest
write_names ok i [] = []
write_names ok i (n ∷ ns) =
    let rest = write_names ok (i + 1) ns in if ok i then named n ∷ rest else []

-- What is shown of one response, if the status is OK.
abbrev pub shown_if : Bool → Text → List Text
shown_if true message = message ∷ []
shown_if false message = []

-- The blocks of main for SayHello, SayHello1 and SayHello2, with the service at the other end; the
-- second's reader brings all that the server wrote.
unfoldable pub call_say_hello : Bool → List Text
call_say_hello status = shown_if status (say_hello quoted_tony)

unfoldable pub call_say_hello1 : (ℕ → Bool) → Bool → List Text
call_say_hello1 ok status = shown_if status (say_hello1 (write_names ok 0 names))

unfoldable pub call_say_hello2 : (ℕ → Bool) → List Text
call_say_hello2 ok = say_hello2 ok quoted_tony
