-- ===== src/Signals.antt =====
-- misc/lsignal.cpp. The library lsignal is a parameter. An `int` is a number, since those of
-- main are small and not negative; a slot returns what it prints and its result. The performance
-- measurement is not called.
pub mod Library
pub mod Laws
pub mod Output
mod Tests
use cpp_demo.Prelude.{
  ℕ, ◌+◌, ◌*◌, ◌≡◌, Bool, true, false, List, [], ◌∷◌, ◌++◌, map, Text, codes, Option, none, some,
  ◌==◌, if◌then◌else◌,
}
use cpp_demo.Signals.Library.{Entry, Lsignal}

-- What goes to std::cout.
pub data Item : Type 0 where
  words : Text → Item
  number : ℕ → Item

abbrev pub Out : Type 0
Out = List Item

unfoldable pub print_sum : ℕ × ℕ → Out
print_sum (x, y) =
    words (codes "sum(")
    ∷ number x
    ∷ words (codes ", ")
    ∷ number y
    ∷ words (codes ") = ")
    ∷ number (x + y)
    ∷ words (codes "\n")
    ∷ []

unfoldable pub print_mul : ℕ × ℕ → Out
print_mul (x, y) =
    words (codes "mul(")
    ∷ number x
    ∷ words (codes ", ")
    ∷ number y
    ∷ words (codes ") = ")
    ∷ number (x * y)
    ∷ words (codes "\n")
    ∷ []

unfoldable pub pow2 : ℕ → ℕ
pow2 x = x * x

unfoldable pub pow3 : ℕ → ℕ
pow3 x = x * x * x

-- std::accumulate from 0.
unfoldable pub sum_agg : List ℕ → ℕ
sum_agg [] = 0
sum_agg (v ∷ vs) = v + sum_agg vs

abbrev pub last_or : ℕ → List ℕ → ℕ
last_or d [] = d
last_or d (v ∷ vs) = last_or v vs

abbrev pub all_out : List Out → Out
all_out [] = []
all_out (o ∷ os) = o ++ all_out os

abbrev pub line : Text → Out
line t = words t ∷ words (codes "\n") ∷ []

module _ (l : Lsignal) where
  -- `s.connect(f)` where the connection is not kept.
  unfoldable pub add : (F : Type 0) → F → l.Signal F → l.Signal F
  add F f s = (l.connect F f none s).1

  -- `s()`, with no argument.
  unfoldable pub emit : l.Signal Out → Out
  emit s = all_out (l.called Out s)

  unfoldable pub emit_with : {A : Type 0} → l.Signal (A → Out) → A → Out
  emit_with {A} s x = all_out (map (λ f. f x) (l.called (A → Out) s))

  abbrev pub Binary : Type 0
  Binary = ℕ × ℕ → Out

  unfoldable pub example1 : ℕ → ℕ → Out
  unfolding add emit_with
  example1 x y =
      let d = add Binary print_mul (add Binary print_sum (l.new_signal Binary)) in
      words (codes "example #1:\n") ∷ emit_with d (x, y)

  unfoldable pub example2 : ℕ → Out
  unfolding add
  example2 x =
      let w = add (ℕ → ℕ) pow3 (add (ℕ → ℕ) pow2 (l.new_signal (ℕ → ℕ))) in
      let results = map (λ f. f x) (l.called (ℕ → ℕ) w) in
      words (codes "\nexample #2:\n")
      ∷ words (codes "last slot = ")
      ∷ number (last_or 0 results)
      ∷ words (codes "\n")
      ∷ words (codes "agg value = ")
      ∷ number (sum_agg results)
      ∷ words (codes "\n")
      ∷ []

  unfoldable pub example3 : Out
  unfolding emit add
  example3 =
      let (conn_one, one) = l.connect Out (line (codes "news #1")) none (l.new_signal Out) in
      let (conn_two, two) = l.connect Out (line (codes "news #2")) none one in
      let news = add Out (line (codes "news #3")) two in
      let locked = l.set_lock Out conn_one true news in
      let without_two = l.disconnect Out conn_two locked in
      words (codes "\nexample #3:\n")
      ∷ (line (codes "(all connections)")
          ++ (emit news
              ++ (line (codes "(lock connection one)")
                  ++ (emit locked
                      ++ (line (codes "(disconnect connection two)") ++ emit without_two)))))

  abbrev pub bar : Out
  bar = line (codes "function: bar")

  unfoldable pub example4 : Out
  unfolding emit add
  example4 =
      let foo = line (codes "lambda: foo") in
      let baz = line (codes "functor: baz") in
      let qux = line (codes "class member: qux") in
      let dummy = add Out qux (add Out baz (add Out bar (add Out foo (l.new_signal Out)))) in
      words (codes "\nexample #4:\n") ∷ emit dummy

  -- The owner of the connection is an object of the inner scope, which ends before the second call.
  abbrev pub scoped : Out → l.Signal Out → l.Signal Out
  scoped f s = (l.connect Out f (some 0) s).1

  unfoldable pub example5 : ℕ → Out
  unfolding emit
  example5 value =
      let print_value = words (codes "value = ") ∷ number value ∷ words (codes "\n") ∷ [] in
      let printer = scoped print_value (l.new_signal Out) in
      words (codes "\nexample #5:\n") ∷ (emit printer ++ emit (l.destroy_slot Out 0 printer))

  abbrev pub Unary : Type 0
  Unary = ℕ → Out

  -- A signal that calls `second`, whose slots at the time of the call are an argument.
  abbrev pub Forward : Type 0
  Forward = l.Signal Unary × ℕ → Out

  unfoldable pub example6 : ℕ → Out
  unfolding add emit_with
  example6 x =
      let forward : Forward = λ c. emit_with (c.0) (c.1) in
      let first = add Forward forward (l.new_signal Forward) in
      let show : Unary = λ n. words (codes "x = ") ∷ number n ∷ words (codes "\n") ∷ [] in
      let second = add Unary show (l.new_signal Unary) in
      words (codes "\nexample #6:\n") ∷ emit_with first (second, x)

  unfoldable pub example7 : Out
  unfolding emit
  example7 =
      let sig7 = scoped (line (codes "sig7")) (l.new_signal Out) in
      words (codes "\nexample #7: slot\n") ∷ (emit sig7 ++ emit (l.destroy_slot Out 0 sig7))

  unfoldable pub example8 : Out
  unfolding emit add
  example8 =
      let sig8 = add Out bar (add Out bar (add Out bar (l.new_signal Out))) in
      words (codes "\nexample #8: disconnect_all\n")
      ∷ (emit sig8 ++ emit (l.disconnect_all Out sig8))

  unfoldable pub main : Out
  main =
      example1 3 4
      ++ (example2 2
          ++ (example3 ++ (example4 ++ (example5 42 ++ (example6 10 ++ (example7 ++ example8))))))
