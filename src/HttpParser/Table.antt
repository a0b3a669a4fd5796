-- ===== src/HttpParser/Table.antt =====
-- misc/fsmlite_test.cpp: the transition table, and the state machine library that runs it.
use cpp_demo.Prelude.{
  ℕ, Bool, true, false, ◌≡◌, ◌≢◌, ◌∙◌, Option, none, some, ap, sym, subst, Option-cases, List, [],
  ◌∷◌, ◌&&◌, arith, if◌then◌else◌, ◌==◌, Bool-cases, inl, inr,
}
use cpp_demo.HttpParser.{
  HttpBase, Parser, ParseState, error, start, method, uri, http, major, minor, expecting_newline_1,
  header_line_start, header_line, expecting_newline_2, expecting_newline_3, expecting_body, finish,
  no_action, error_action, append_to_buffer, on_method_finish, clear_temp, on_uri_finish,
  on_http_finish, on_major_finish, on_minor_finish, on_header_line_start, on_body_start,
  on_header_line_finish, on_body_finish, is_space, is_carry_return, is_new_line, alpha, digit,
  always, is_valid_method, is_valid_uri_char, is_valid_major, is_valid_minor, is_valid_http,
  is_need_body, need_more_body,
}

-- mem_fn_row<from, char, to, action, guard>; a row with no guard has `always`.
pub record Row (R : Type 0) : Type 0 where
  pub from : ParseState
  pub to : ParseState
  pub action : Parser R → ℕ → Parser R
  pub guard : Parser R → ℕ → Bool

-- Equality of states.
abbrev code_of : ParseState → ℕ
code_of error = 0
code_of start = 1
code_of method = 2
code_of uri = 3
code_of http = 4
code_of major = 5
code_of minor = 6
code_of expecting_newline_1 = 7
code_of header_line_start = 8
code_of header_line = 9
code_of expecting_newline_2 = 10
code_of expecting_newline_3 = 11
code_of expecting_body = 12
code_of finish = 13

module _ {R : Type 0} where
  abbrev row : ParseState → ParseState → (Parser R → ℕ → Parser R) → (Parser R → ℕ → Bool) → Row R
  row from to action guard = record { from = from; to = to; action = action; guard = guard }

  -- A row fits if it starts in the current state and its guard holds of the character.
  abbrev pub fits : Row R → Parser R → ℕ → Bool
  fits r p c = code_of p.state == code_of r.from && r.guard p c

  -- The row's action, then its target state.
  abbrev pub fire : Row R → Parser R → ℕ → Parser R
  fire r p c = record (r.action p c) { state = r.to }

-- What fsmlite documents of `process_event`: of the rows, the first that fits is executed.
pub record FsmLite (R : Type 0) : Type 0 where
  pub process_event : List (Row R) → Parser R → ℕ → Parser R
  pub fires :
      (r : Row R) (rows : List (Row R)) (p : Parser R) (c : ℕ)
      → fits r p c ≡ true
      → process_event (r ∷ rows) p c ≡ fire r p c
  pub skips :
      (r : Row R) (rows : List (Row R)) (p : Parser R) (c : ℕ)
      → fits r p c ≡ false
      → process_event (r ∷ rows) p c ≡ process_event rows p c

module _ {R : Type 0} (b : HttpBase R) where
  -- transition_table
  abbrev pub transition_table : List (Row R)
  transition_table =
      row start method append_to_buffer alpha
      ∷ row start error error_action always
      ∷ row method method append_to_buffer alpha
      ∷ row method uri on_method_finish is_valid_method
      ∷ row method error error_action always
      ∷ row uri uri append_to_buffer is_valid_uri_char
      ∷ row uri http on_uri_finish is_space
      ∷ row uri error error_action always
      ∷ row http http append_to_buffer alpha
      ∷ row http major on_http_finish (is_valid_http b)
      ∷ row http error error_action always
      ∷ row major major append_to_buffer digit
      ∷ row major minor on_major_finish is_valid_major
      ∷ row major error error_action always
      ∷ row minor minor append_to_buffer digit
      ∷ row minor expecting_newline_1 on_minor_finish is_valid_minor
      ∷ row minor error error_action always
      ∷ row expecting_newline_1 header_line_start on_header_line_start is_new_line
      ∷ row expecting_newline_1 error error_action always
      ∷ row header_line_start expecting_newline_3 no_action is_carry_return
      ∷ row header_line_start header_line append_to_buffer alpha
      ∷ row header_line_start error error_action always
      ∷ row header_line expecting_newline_2 no_action is_carry_return
      ∷ row header_line error error_action is_new_line
      ∷ row header_line header_line append_to_buffer always
      ∷ row expecting_newline_2 header_line_start (on_header_line_finish b) is_new_line
      ∷ row expecting_newline_2 error error_action always
      ∷ row expecting_newline_3 expecting_body on_body_start (is_need_body b)
      ∷ row expecting_newline_3 finish no_action is_new_line
      ∷ row expecting_newline_3 error error_action always
      ∷ row expecting_body expecting_body append_to_buffer (need_more_body b)
      ∷ row expecting_body finish (on_body_finish b) always
      ∷ []

-- The same machine as a switch over the states: an action and a target for each.
module _ {R : Type 0} where
  abbrev pub go : ParseState → Parser R → Parser R
  go t p = record p { state = t }

  abbrev pub fail : Parser R → Parser R
  fail p = go error p

module _ {R : Type 0} (b : HttpBase R) where
  abbrev pub react : ParseState → Parser R → ℕ → Parser R
  react start p c = if alpha p c then go method (append_to_buffer p c) else fail p
  react method p c =
      if alpha p c
      then go method (append_to_buffer p c)
      else if is_valid_method p c
      then go uri (on_method_finish p c)
      else fail p
  react uri p c =
      if is_valid_uri_char p c
      then go uri (append_to_buffer p c)
      else if is_space p c
      then go http (clear_temp p c)
      else fail p
  react http p c =
      if alpha p c
      then go http (append_to_buffer p c)
      else if is_valid_http b p c
      then go major (clear_temp p c)
      else fail p
  react major p c =
      if digit p c
      then go major (append_to_buffer p c)
      else if is_valid_major p c
      then go minor (clear_temp p c)
      else fail p
  react minor p c =
      if digit p c
      then go minor (append_to_buffer p c)
      else if is_valid_minor p c
      then go expecting_newline_1 (clear_temp p c)
      else fail p
  react expecting_newline_1 p c =
      if is_new_line p c then go header_line_start (clear_temp p c) else fail p
  react header_line_start p c =
      if is_carry_return p c
      then go expecting_newline_3 p
      else if alpha p c
      then go header_line (append_to_buffer p c)
      else fail p
  react header_line p c =
      if is_carry_return p c
      then go expecting_newline_2 p
      else if is_new_line p c
      then fail p
      else go header_line (append_to_buffer p c)
  react expecting_newline_2 p c =
      if is_new_line p c then go header_line_start (on_header_line_finish b p c) else fail p
  react expecting_newline_3 p c =
      if is_need_body b p c
      then go expecting_body (clear_temp p c)
      else if is_new_line p c
      then go finish p
      else fail p
  react expecting_body p c =
      if need_more_body b p c
      then go expecting_body (append_to_buffer p c)
      else go finish (on_body_finish b p c)
  react finish p c = p
  react error p c = p

  unfoldable pub step : Parser R → ℕ → Parser R
  step p c = react p.state p c

abbrev pub is_final : ParseState → Bool
is_final error = true
is_final finish = true
is_final _ = false

-- The first row that fits in state `s`, and the same with the library.
module _ {R : Type 0} where
  abbrev first_fit : ParseState → List (Row R) → Parser R → ℕ → Option (Row R)
  first_fit s [] p c = none
  first_fit s (r ∷ rows) p c =
      if code_of s == code_of r.from && r.guard p c then some r else first_fit s rows p c

  abbrev fire_all : Option (Row R) → Parser R → ℕ → Parser R
  fire_all none p c = p
  fire_all (some r) p c = fire r p c

module _ {R : Type 0} (fsm : FsmLite R) where
  open fsm use {process_event, fires, skips}

  process_event-first_fit :
      (rows : List (Row R)) (p : Parser R) (c : ℕ) (r : Row R)
      → first_fit p.state rows p c ≡ some r
      → process_event rows p c ≡ fire r p c
  process_event-first_fit [] p c r e = cc
  process_event-first_fit (q ∷ rows) p c r e = elim (Bool-cases (fits q p c)) [
    | inl match ↦
        let same : some q ≡ some r =
          subst (λ t. (if t then some q else first_fit p.state rows p c) ≡ some r) match e in
        fires q rows p c match ∙ ap (λ o. fire_all o p c) same
    | inr miss ↦
        skips q rows p c miss
        ∙ process_event-first_fit rows p c r
            (subst (λ t. (if t then some q else first_fit p.state rows p c) ≡ some r) miss e)
  ]

module _ {R : Type 0} (b : HttpBase R) where
  first_fit-react :
      (s : ParseState) (p : Parser R) (c : ℕ)
      → is_final s ≡ false
      → fire_all (first_fit s (transition_table b) p c) p c ≡ react b s p c
  first_fit-react error p c h = cc
  first_fit-react finish p c h = cc
  first_fit-react _ p c h = ground arith

  first_fit-total :
      (s : ParseState) (p : Parser R) (c : ℕ)
      → is_final s ≡ false
      → first_fit s (transition_table b) p c ≢ none
  first_fit-total error p c h = cc
  first_fit-total finish p c h = cc
  first_fit-total _ p c h = ground arith

module _ {R : Type 0} (b : HttpBase R) (fsm : FsmLite R) where
  -- In each state that is not final, fsmlite's run of the table on a character is the switch's.
  pub process_event-step :
      (p : Parser R) (c : ℕ)
      → is_final p.state ≡ false
      → fsm.process_event (transition_table b) p c ≡ step b p c
  unfolding step
  process_event-step p c h = elim (Option-cases (first_fit p.state (transition_table b) p c)) [
    | inl missing ↦ absurd (first_fit-total b p.state p c h missing)
    | inr (r, found) ↦
        process_event-first_fit fsm (transition_table b) p c r found
        ∙ ap (λ o. fire_all o p c) (sym found)
        ∙ first_fit-react b p.state p c h
  ]
