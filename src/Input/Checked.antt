-- ===== src/Input/Checked.antt =====
-- The tests of `sys_read`, and how a read begins.
use ze_ospi.Base.{ℕ, zero, suc, ◌≡◌, arith, ℤ, pos, negsuc, neg, none, some}
use ze_ospi.Kernel.{Kernel}
use ze_ospi.Utils.{Memory, verify_write}
use ze_ospi.Process.{lectura, check_fd}
use ze_ospi.Process.Checks.{magnitude, checks, first_failure}
use ze_ospi.Input.{fails, sys_read_uart, sys_read}

module _ (read : ℕ) where
  -- `sys_read` makes these tests in this order: the descriptor is 0 or 1 (else -EBADF), it is the one
  -- for reading (-EACCES), the pointer is not NULL (-EPNULL), the size is positive (-ESIZEB), the block
  -- is writable (-ENACCB). If one fails it returns the error of the first that does and changes
  -- neither the kernel nor the memory; otherwise it does what `sys_read_uart` does.
  pub sys_read-checks :
      (fd buffer : ℕ) (size : ℤ) (k : Kernel) (m : Memory)
      → sys_read read fd buffer size k m
        ≡ (elim (first_failure (checks lectura verify_write fd buffer size)) [
          | some e ↦ fails read (neg e) k m
          | none ↦ sys_read_uart read buffer (magnitude size) k m
        ])
  unfolding sys_read check_fd
  sys_read-checks fd buffer (negsuc n) k m = ground arith
  sys_read-checks fd buffer (pos zero) k m = ground arith
  sys_read-checks fd buffer (pos (suc n)) k m = ground arith
