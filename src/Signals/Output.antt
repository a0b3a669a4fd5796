-- ===== src/Signals/Output.antt =====
-- What misc/lsignal.cpp prints, whatever library has the operations of `Lsignal`.
use cpp_demo.Prelude.{refl, ℕ, ◌+◌, ◌*◌, ◌≡◌, List, [], ◌∷◌, ◌++◌, Text, codes, arith}
use cpp_demo.Signals.Library.{Lsignal}
use cpp_demo.Signals.Laws.{
  called-connect, called-add, called_new, called-disconnect_all, called-destroy_slot, lock_first,
}
use cpp_demo.Signals.{
  words, number, Out, print_sum, print_mul, pow2, pow3, sum_agg, line, bar, example1, example2,
  example3, example4, example5, example6, example7, example8, main, add, emit, emit_with,
}

abbrev pub lines : List Text → Out
lines [] = []
lines (t ∷ ts) = line t ++ lines ts

-- What main is to print; the texts with a number in them are in parts.
abbrev pub transcript : Out
transcript =
    words (codes "example #1:\n")
    ∷ words (codes "sum(")
    ∷ number 3
    ∷ words (codes ", ")
    ∷ number 4
    ∷ words (codes ") = ")
    ∷ number 7
    ∷ words (codes "\n")
    ∷ words (codes "mul(")
    ∷ number 3
    ∷ words (codes ", ")
    ∷ number 4
    ∷ words (codes ") = ")
    ∷ number 12
    ∷ words (codes "\n")
    ∷ words (codes "\nexample #2:\n")
    ∷ words (codes "last slot = ")
    ∷ number 8
    ∷ words (codes "\n")
    ∷ words (codes "agg value = ")
    ∷ number 12
    ∷ words (codes "\n")
    ∷ words (codes "\nexample #3:\n")
    ∷ (lines (
          codes "(all connections)"
          ∷ codes "news #1"
          ∷ codes "news #2"
          ∷ codes "news #3"
          ∷ codes "(lock connection one)"
          ∷ codes "news #2"
          ∷ codes "news #3"
          ∷ codes "(disconnect connection two)"
          ∷ codes "news #3"
          ∷ [])
        ++ (words (codes "\nexample #4:\n")
            ∷ (lines (
                  codes "lambda: foo"
                  ∷ codes "function: bar"
                  ∷ codes "functor: baz"
                  ∷ codes "class member: qux"
                  ∷ [])
                ++ (words (codes "\nexample #5:\n")
                    ∷ words (codes "value = ")
                    ∷ number 42
                    ∷ words (codes "\n")
                    ∷ words (codes "\nexample #6:\n")
                    ∷ words (codes "x = ")
                    ∷ number 10
                    ∷ words (codes "\n")
                    ∷ words (codes "\nexample #7: slot\n")
                    ∷ (line (codes "sig7")
                        ++ (words (codes "\nexample #8: disconnect_all\n")
                            ∷ lines (
                                codes "function: bar"
                                ∷ codes "function: bar"
                                ∷ codes "function: bar"
                                ∷ [])))))))

module _ (l : Lsignal) where
  example1_lem :
      (x y : ℕ)
      → example1 l x y ≡ words (codes "example #1:\n") ∷ (print_sum (x, y) ++ print_mul (x, y))
  unfolding example1 print_sum print_mul emit_with
  example1_lem x y = simp (called-add l, called_new l) refl

  example2_lem :
      (x : ℕ)
      → example2 l x
        ≡ words (codes "\nexample #2:\n")
          ∷ words (codes "last slot = ")
          ∷ number (x * x * x)
          ∷ words (codes "\n")
          ∷ words (codes "agg value = ")
          ∷ number (x * x + x * x * x)
          ∷ words (codes "\n")
          ∷ []
  unfolding example2 pow2 pow3 sum_agg
  example2_lem x =
      let sum : x * x + (x * x * x + 0) ≡ x * x + x * x * x = omega arith in
      simp (called-add l, called_new l, sum) refl

  example4_lem :
      example4 l
      ≡ words (codes "\nexample #4:\n")
        ∷ (line (codes "lambda: foo")
            ++ (line (codes "function: bar")
                ++ (line (codes "functor: baz") ++ line (codes "class member: qux"))))
  unfolding example4 emit
  example4_lem = simp (called-add l, called_new l) refl

  example5_lem :
      (v : ℕ)
      → example5 l v
        ≡ words (codes "\nexample #5:\n")
          ∷ words (codes "value = ")
          ∷ number v
          ∷ words (codes "\n")
          ∷ []
  unfolding example5 emit
  example5_lem v = simp (called-connect l, called_new l, called-destroy_slot l) refl

  example6_lem :
      (x : ℕ)
      → example6 l x
        ≡ words (codes "\nexample #6:\n")
          ∷ words (codes "x = ")
          ∷ number x
          ∷ words (codes "\n")
          ∷ []
  unfolding example6 emit_with
  example6_lem x = simp (called-add l, called_new l) refl

  example7_lem : example7 l ≡ words (codes "\nexample #7: slot\n") ∷ line (codes "sig7")
  unfolding example7 emit
  example7_lem = simp (called-connect l, called_new l, called-destroy_slot l) refl

  example8_lem :
      example8 l ≡ words (codes "\nexample #8: disconnect_all\n") ∷ (bar l ++ (bar l ++ bar l))
  unfolding example8 emit
  example8_lem = simp (called-add l, called_new l, called-disconnect_all l) refl

  example3_lem :
      example3 l
      ≡ words (codes "\nexample #3:\n")
        ∷ (line (codes "(all connections)")
            ++ (line (codes "news #1")
                ++ (line (codes "news #2")
                    ++ (line (codes "news #3")
                        ++ (line (codes "(lock connection one)")
                            ++ (line (codes "news #2")
                                ++ (line (codes "news #3")
                                    ++ (line (codes "(disconnect connection two)")
                                        ++ line (codes "news #3")))))))))
  unfolding example3 emit add
  example3_lem =
      let (x, y) =
        lock_first l Out (line (codes "news #1")) (line (codes "news #2"))
          (line (codes "news #3")) in
      rw (x, y) (simp (called-connect l, called_new l) refl)

  -- Whatever library has the operations of `Lsignal`, main prints these lines: the sum and the
  -- product; the last result and the sum of the results; all three news, the last two when the
  -- first connection is locked, and the last one when the second is gone too; the four slots in the
  -- order in which they were connected; the value once, while its owner lives; the number that
  -- comes through the second signal; the slot of example 7 once; and `bar` three times, before all
  -- are disconnected.
  pub main-transcript : main l ≡ transcript
  unfolding main print_sum print_mul
  main-transcript =
      rw
        (
          example1_lem 3 4,
          example2_lem 2,
          example3_lem,
          example4_lem,
          example5_lem 42,
          example6_lem 10,
          example7_lem,
          example8_lem,
        )
        refl
