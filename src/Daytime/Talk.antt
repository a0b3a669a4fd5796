-- ===== src/Daytime/Talk.antt =====
-- The accept loop of asio/daytime/server_async.cpp.
use cpp_demo.Prelude.{ℕ, ◌-◌, ◌<◌, ◌≡◌, Bool, true, some, List, [], ◌∷◌, Text, if◌then◌else◌}
use cpp_demo.Daytime.{Connection, Server, handle_accept}

-- Accepts, whether they fail, with the daytime text.
unfoldable pub accept_all : List (Bool × Text) → Server → Server
accept_all [] s = s
accept_all ((failed, daytime) ∷ es) s = accept_all es (handle_accept failed daytime s)

-- The messages of the accepts that succeed, newest first.
abbrev pub greetings : List (Bool × Text) → List Text → List Text
greetings [] ms = ms
greetings ((failed, daytime) ∷ es) ms =
    if failed then greetings es ms else greetings es (daytime ∷ ms)

abbrev pub messages : List (ℕ × Connection) → List Text
messages [] = []
messages ((i, c) ∷ cs) = c.message ∷ messages cs

-- Numbers that the server has given out, each once.
abbrev pub Numbered : ℕ → List (ℕ × Connection) → Type 0
Numbered n [] = Unit {0}
Numbered n ((i, c) ∷ cs) = (i < n) × (c.writing ≡ true) × Numbered i cs

record Going (s : Server) : Type 0 where
  one_ahead : s.accepting ≡ some (s.made - 1)
  some_made : 0 < s.made
  numbered : Numbered (s.made - 1) s.connections
