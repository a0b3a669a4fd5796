-- ===== src/Service.antt =====
-- grpcdemo/service_impl.cc: the synchronous Greeter service. A reader is the list of requests that
-- it brings until Read fails; a writer is a test that says which of its writes succeed. Every method
-- returns Status::OK; logging is left out.
mod Tests
use cpp_demo.Prelude.{
  ℕ, zero, suc, ◌+◌, ◌≡◌, ◌≢◌, ◌≤◌, refl, ap, ◌∙◌, Bool, true, false, ◌&&◌, List, [], ◌∷◌, ◌++◌,
  map, map-append, append_assoc, Text, codes, length, if◌then◌else◌, arith, replicate,
}

pub record HelloRequest : Type 0 where
  pub name : Text
  pub double_quote : Bool

unfoldable pub quoted_name : HelloRequest → Text
quoted_name r = let quote : ℕ = if r.double_quote then 34 else 39 in quote ∷ (r.name ++ quote ∷ [])

unfoldable pub say_hello : HelloRequest → Text
say_hello request = codes "hello " ++ quoted_name request

-- The loop of SayHello1 over its reader.
unfoldable pub read_names : Text → List HelloRequest → Text
read_names ss [] = ss
read_names ss (r ∷ rs) = read_names (ss ++ 32 ∷ quoted_name r) rs

unfoldable pub say_hello1 : List HelloRequest → Text
unfolding read_names
say_hello1 requests = read_names (codes "hello") requests

-- The loop of SayHello2 with its rounds left and its index: the messages handed to Write.
write_rounds : (ℕ → Bool) → HelloRequest → ℕ → ℕ → List Text
write_rounds ok request zero i = []
write_rounds ok request (suc n) i =
    let rest = write_rounds ok request n (i + 1) in
    (codes "hello" ++ quoted_name request) ∷ (if ok i then rest else [])

unfoldable pub say_hello2 : (ℕ → Bool) → HelloRequest → List Text
unfolding write_rounds
say_hello2 ok request = write_rounds ok request 3 0

-- The result of Write is not looked at.
unfoldable pub say_hello3 : List HelloRequest → List Text
say_hello3 [] = []
say_hello3 (r ∷ rs) = (codes "hello" ++ 32 ∷ quoted_name r) ∷ say_hello3 rs

read_names_lem :
    (ss : Text) (rs : List HelloRequest) (r : HelloRequest)
    → read_names ss (rs ++ r ∷ []) ≡ read_names ss rs ++ 32 ∷ quoted_name r
unfolding read_names
read_names_lem ss [] r = refl
read_names_lem ss (q ∷ rs) r = read_names_lem (ss ++ 32 ∷ quoted_name q) rs r

say_hello3-map : (rs : List HelloRequest) → say_hello3 rs ≡ map say_hello rs
unfolding say_hello3 say_hello
say_hello3-map [] = refl
say_hello3-map (r ∷ rs) = ap (◌∷◌ (say_hello r)) (say_hello3-map rs)

-- The streaming call answers each request as the unary call does, in order; and the client stream's
-- answer to one request is the unary call's, and to one more request the same with its name behind.
pub say_hello_agree :
    (rs : List HelloRequest) (r : HelloRequest)
    → (say_hello3 rs ≡ map say_hello rs)
      × (say_hello1 (r ∷ []) ≡ say_hello r)
      × (say_hello1 (rs ++ r ∷ []) ≡ say_hello1 rs ++ 32 ∷ quoted_name r)
unfolding say_hello1 say_hello
say_hello_agree rs r = (say_hello3-map rs, refl, read_names_lem (codes "hello") rs r)

-- How many writes the server stream makes: it stops behind the first that fails, and at three.
abbrev pub writes_made : (ℕ → Bool) → ℕ
writes_made ok = if ok 0 then (if ok 1 then 3 else 2) else 1

-- The server stream writes the same text each time, as often as `writes_made` says; and that text is
-- never the unary call's answer, since it has no space behind the hello.
pub say_hello2_writes :
    (ok : ℕ → Bool) (request : HelloRequest)
    → (say_hello2 ok request ≡ replicate (writes_made ok) (codes "hello" ++ quoted_name request))
      × (codes "hello" ++ quoted_name request ≢ say_hello request)
unfolding say_hello2 say_hello quoted_name
say_hello2_writes ok request = (ground arith, λ e. ground arith)
