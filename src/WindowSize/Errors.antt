-- ===== src/WindowSize/Errors.antt =====
-- The two results of linux/ioctl.cpp.
use cpp_demo.Prelude.{Bool-cases, ◌≡◌, ◌≢◌, true, false, some, ◌==◌, ◌⊎◌, inl, inr, arith}
use cpp_demo.WindowSize.{Query, success, failure, query_failed, size_is, get_window_size, main}

-- main prints a size only behind a query that succeeded and found a column, and then the size that it
-- found: no variable is printed before it is set; else main fails.
pub main_results :
    (q : Query)
    → ((q.failed ≡ false)
        × (q.ws_col ≢ 0)
        × (main q ≡ (success, size_is (some q.ws_col) (some q.ws_row))))
      ⊎ (((q.failed ≡ true) ⊎ (q.ws_col ≡ 0)) × (main q ≡ (failure, query_failed)))
unfolding main get_window_size
main_results q = elim (Bool-cases q.failed) [
  | inl f ↦ inr (inl f, ground arith)
  | inr f ↦ elim (Bool-cases (q.ws_col == 0)) [
    | inl z ↦ inr (inr (ground arith), ground arith)
    | inr z ↦ inl (f, λ e. ground arith, ground arith)
  ]
]
