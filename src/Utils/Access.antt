-- ===== src/Utils/Access.antt =====
-- Which blocks `access_ok` of utils.c lets through.
use ze_ospi.Base.{ℕ, ◌+◌, ◌^◌, ◌≤◌, ◌<◌, ◌≡◌, ◌&&◌, arith, ltb, leb, if◌then◌else◌}
use ze_ospi.Utils.{access_ok, verify_read, verify_write}

-- A block that does not run past 2 ^ 32 passes exactly when it starts in user space and its end,
-- the address after its last byte, lies at or below the page behind the user's data; whether it is
-- to be read or written makes no difference.
pub access_ok_in_range :
    (type addr size : ℕ)
    → addr + size < 2 ^ 32
    → access_ok type addr size ≡ (if leb 0x100000 addr && ltb (addr + size) 0x11d000 then 1 else 0)
unfolding access_ok
access_ok_in_range type addr size h = ground arith

-- The check for writing lets through whatever the check for reading does, the code pages included.
pub access_ok_write-read :
    (addr size : ℕ) → access_ok verify_write addr size ≡ access_ok verify_read addr size
unfolding access_ok
access_ok_write-read addr size = ground arith

-- A block that starts anywhere from the start of user space on and whose end wraps round to a low
-- address passes the check.
pub access_ok_wraps :
    (type addr size : ℕ)
    → 0x100000 ≤ addr
    → 2 ^ 32 ≤ addr + size
    → addr + size < 2 ^ 32 + 0x11d000
    → access_ok type addr size ≡ 1
unfolding access_ok
access_ok_wraps type addr size a b c = ground arith
