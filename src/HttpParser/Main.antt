-- ===== src/HttpParser/Main.antt =====
-- misc/fsmlite_test.cpp, main: the loop that feeds a text to the parser.
use cpp_demo.Prelude.{
  ℕ, Bool, true, false, ◌≡◌, refl, ap, sym, ◌∙◌, [], ◌∷◌, ◌++◌, Text, All, append-nil, append_assoc,
  arith, if◌then◌else◌, Bool-cases, inl, inr,
}
use cpp_demo.HttpParser.{
  HttpBase, Parser, ParseState, Request, Buffer, method_buffer, uri_buffer, temp_buffer, error,
  finish, text_in, buffer_text, store_in, store, append_to_buffer,
}
use cpp_demo.HttpParser.Table.{
  FsmLite, transition_table, process_event-step, react, step, go, is_final,
}

abbrev pub is_error : ParseState → Bool
is_error error = true
is_error _ = false

abbrev pub is_finish : ParseState → Bool
is_finish finish = true
is_finish _ = false

module _ {R : Type 0} (b : HttpBase R) (fsm : FsmLite R) where
  -- The parser, and main's flag `error`. The loop stops at the two final states.
  unfoldable pub main_loop : Parser R → Text → Parser R × Bool
  main_loop p [] = (p, false)
  main_loop p (c ∷ cs) =
      let q = fsm.process_event (transition_table b) p c in
      let rest = main_loop q cs in
      if is_error q.state then (q, true) else if is_finish q.state then (q, false) else rest

module _ {R : Type 0} (b : HttpBase R) where
  -- The switch, run over a text. It stays in a final state.
  unfoldable pub feed : Parser R → Text → Parser R
  feed p [] = p
  feed p (c ∷ cs) = feed (step b p c) cs

  pub feed-append : (p : Parser R) (xs ys : Text) → feed p (xs ++ ys) ≡ feed (feed p xs) ys
  unfolding feed
  feed-append p [] ys = refl
  feed-append p (x ∷ xs) ys = feed-append (step b p x) xs ys

  pub feed_cons : (p : Parser R) (c : ℕ) (cs : Text) → feed p (c ∷ cs) ≡ feed (step b p c) cs
  unfolding feed
  feed_cons p c cs = refl

  pub feed_then : (p q : Parser R) (xs ys : Text) → feed p xs ≡ q → feed p (xs ++ ys) ≡ feed q ys
  feed_then p q xs ys e = feed-append p xs ys ∙ ap (λ r. feed r ys) e

  pub feed_final : (p : Parser R) (cs : Text) → is_final p.state ≡ true → feed p cs ≡ p
  unfolding feed step
  feed_final p [] h = refl
  feed_final p (c ∷ cs) h =
      let same : step b p c ≡ p = ground arith in ap (λ q. feed q cs) same ∙ feed_final p cs h

module _ {R : Type 0} (b : HttpBase R) (fsm : FsmLite R) where
  -- From a state that is not final, main's loop ends with the parser that the switch gives over the
  -- whole text, and its flag says whether that parser is in the error state.
  pub main_loop-feed :
      (p : Parser R) (cs : Text)
      → is_final p.state ≡ false
      → main_loop b fsm p cs ≡ (feed b p cs, is_error (feed b p cs).state)
  unfolding main_loop feed
  main_loop-feed p [] h = ground arith
  main_loop-feed p (c ∷ cs) h = elim (Bool-cases (is_final (step b p c).state)) [
    | inl stop ↦ ground (arith, process_event-step b fsm p c h, feed_final b (step b p c) cs stop)
    | inr more ↦ ground (arith, process_event-step b fsm p c h, main_loop-feed (step b p c) cs more)
  ]

module _ {R : Type 0} where
  -- A parser by its parts.
  abbrev pub at : ParseState → Request R → Text → Buffer → Parser R
  at s r t u = record { state = s; request = r; temp = t; buffer = u }

  store_same : (u : Buffer) (p : Parser R) → store_in u (text_in u p ++ []) p ≡ p
  store_same method_buffer p = rw append-nil
  store_same uri_buffer p = rw append-nil
  store_same temp_buffer p = rw append-nil

  abbrev grown : Buffer → ParseState → Request R → Text → ℕ → Parser R
  grown u s r t c = go s (store_in u (text_in u (at s r t u) ++ c ∷ []) (at s r t u))

  store_twice :
      (u : Buffer) (s : ParseState) (r : Request R) (t : Text) (c : ℕ) (cs : Text)
      → store (buffer_text (grown u s r t c) ++ cs) (grown u s r t c)
        ≡ store_in u (text_in u (at s r t u) ++ c ∷ cs) (at s r t u)
  store_twice method_buffer s r t c cs = rw append_assoc
  store_twice uri_buffer s r t c cs = rw append_assoc
  store_twice temp_buffer s r t c cs = rw append_assoc

module _ {R : Type 0} (b : HttpBase R) where
  -- A loop state: characters that it accepts are appended to the text that `buffer_` points to.
  pub feed_appends :
      (s : ParseState) (accepts : ℕ → Bool)
      → ((q : Parser R) (c : ℕ) → accepts c ≡ true → react b s q c ≡ go s (append_to_buffer q c))
      → (u : Buffer) (r : Request R) (t cs : Text) → All (λ c. accepts c ≡ true) cs
      → feed b (at s r t u) cs ≡ store_in u (text_in u (at s r t u) ++ cs) (at s r t u)
  unfolding feed step append_to_buffer
  feed_appends s accepts h u r t [] a = sym (store_same u (at s r t u))
  feed_appends s accepts h method_buffer r t (c ∷ cs) a =
      ap (λ q. feed b q cs) (h (at s r t method_buffer) c a.0)
      ∙ feed_appends s accepts h method_buffer (record r { method = r.method ++ c ∷ [] }) t cs a.1
      ∙ store_twice method_buffer s r t c cs
  feed_appends s accepts h uri_buffer r t (c ∷ cs) a =
      ap (λ q. feed b q cs) (h (at s r t uri_buffer) c a.0)
      ∙ feed_appends s accepts h uri_buffer (record r { uri = r.uri ++ c ∷ [] }) t cs a.1
      ∙ store_twice uri_buffer s r t c cs
  feed_appends s accepts h temp_buffer r t (c ∷ cs) a =
      ap (λ q. feed b q cs) (h (at s r t temp_buffer) c a.0)
      ∙ feed_appends s accepts h temp_buffer r (t ++ c ∷ []) cs a.1
      ∙ store_twice temp_buffer s r t c cs
