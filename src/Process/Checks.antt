-- ===== src/Process/Checks.antt =====
-- The tests that `sys_write` and `sys_read` of sys.c make, as a table.
use ze_ospi.Base.{
  ℕ, List, [], ◌∷◌, Bool, not, ltb, ◌==◌, if◌then◌else◌, ℤ, pos, negsuc, Option, none, some,
}
use ze_ospi.Errno.{ebadf, eacces, epnull, esizeb, enaccb}
use ze_ospi.Utils.{access_ok}

-- A size that is not positive counts as 0.
abbrev pub magnitude : ℤ → ℕ
magnitude (pos n) = n
magnitude (negsuc n) = 0

-- Whether a test fails, and its error.
abbrev pub checks : (permissions type fd buffer : ℕ) → (size : ℤ) → List (Bool × ℕ)
checks permissions type fd buffer size =
    (ltb 1 fd, ebadf)
    ∷ (not (fd == permissions), eacces)
    ∷ (buffer == 0, epnull)
    ∷ (magnitude size == 0, esizeb)
    ∷ (access_ok type buffer (magnitude size) == 0, enaccb)
    ∷ []

abbrev pub first_failure : List (Bool × ℕ) → Option ℕ
first_failure [] = none
first_failure ((b, e) ∷ rest) = if b then some e else first_failure rest
