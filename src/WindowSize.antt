-- ===== src/WindowSize.antt =====
-- linux/ioctl.cpp. The result of the system call is an argument.
mod Errors
use cpp_demo.Prelude.{ℕ, Bool, Option, none, some, ◌==◌, ◌||◌, if◌then◌else◌}

-- What `ioctl` does: it fails, and leaves what was in the structure, or it fills it in.
pub record Query : Type 0 where
  pub failed : Bool
  pub ws_row : ℕ
  pub ws_col : ℕ

-- The `int` that a function returns: 0 or -1.
pub data Code : Type 0 where
  success failure : Code

-- The variables `rows` and `cols` of main, which are not initialised: `none` until they are set.
pub record Size : Type 0 where
  pub rows : Option ℕ
  pub cols : Option ℕ

unfoldable pub get_window_size : Query → Size → Code × Size
get_window_size q s =
    if q.failed || (q.ws_col == 0)
    then (failure, s)
    else (success, record { cols = some q.ws_col; rows = some q.ws_row })

-- What main prints last: the columns and the rows, if it does.
pub data Printed : Type 0 where
  query_failed : Printed
  size_is : Option ℕ → Option ℕ → Printed

report : Code × Size → Code × Printed
report (failure, s) = (failure, query_failed)
report (success, s) = (success, size_is s.cols s.rows)

unfoldable pub main : Query → Code × Printed
unfolding report
main q = report (get_window_size q (record { rows = none; cols = none }))
