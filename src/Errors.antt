-- ===== src/Errors.antt =====
-- error-handler.h and error-handler.cpp: what happens to the `errno` that a system call leaves. What
-- goes to the terminal is a list of reports; `exit_with_msg` is the fault `exited`.
use bomberrobots.Base.{ℕ, Bool, List, [], ◌∷◌, Result, ok, err, exited, ◌==◌, if◌then◌else◌}

pub data Report : Type 0 where
  -- "Error: errno …"
  errno_set : ℕ → Report
  -- "Error: … was false"
  was_false : Report

-- `PRINT_ERRNO`.
unfoldable pub print_errno : ℕ → List Report
print_errno errno = if errno == 0 then [] else errno_set errno ∷ []

-- `CHECK_ERRNO`, with the `errno` after the call.
unfoldable pub check_errno : ℕ → List Report
unfolding print_errno
check_errno errno = print_errno errno

-- `PRINT_ERRNO_EXIT`.
unfoldable pub print_errno_exit : ℕ → Result (Unit {0})
print_errno_exit errno = if errno == 0 then ok tt else err exited

-- `CHECK_ERRNO_EXIT`, with the `errno` after the call.
unfoldable pub check_errno_exit : ℕ → Result (Unit {0})
unfolding print_errno_exit
check_errno_exit errno = print_errno_exit errno

-- `ENSURE`: it goes on in either case.
unfoldable pub ensure : Bool → List Report
ensure result = if result then [] else was_false ∷ []
