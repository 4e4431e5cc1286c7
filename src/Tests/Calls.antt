-- ===== src/Tests/Calls.antt =====
-- The theorems on read, write and get_stats, at concrete inputs.
use ze_ospi.Base.{◌++◌, ◌≡◌, ◌≢◌, refl, [], ◌∷◌, arith, inl, inr, pos, neg, none, some}
use ze_ospi.Cbuffer.{circularb_is_empty, circularb_read, CircularBuffer}
use ze_ospi.Kernel.{Kernel}
use ze_ospi.Utils.{Memory, move, access_ok, verify_read, verify_write}
use ze_ospi.Utils.{copy_data, copy_from_user, copy_to_user}
use ze_ospi.Utils.Copy.{copy_data_lem}
use ze_ospi.Process.{lectura, escriptura}
use ze_ospi.Process.Checks.{checks, first_failure}
use ze_ospi.Input.{take_keys, read_keys, fails, sys_read_uart, sys_read, read_on}
use ze_ospi.Cbuffer.Refine.{contents}
use ze_ospi.Input.Progress.{Turn, Verdict, read_on-Turn}
use ze_ospi.Input.Session.{begins, goes_on, Delivered, Turns-Delivered}
use ze_ospi.Input.Checked.{sys_read-checks}
use ze_ospi.Output.{sys_write}
use ze_ospi.Output.Bytes.{Report, sys_write_lem}
use ze_ospi.Statistics.{sys_get_stats}
use ze_ospi.Statistics.Own.{sys_get_stats-move}
use ze_ospi.Tests.Machine.{three_ready}
use ze_ospi.Tests.Data.{wired, wired-first}

-- Task 1 wants 5 characters at 0x109000, has 1 of them, and the buffer holds 2.
abbrev two_keys : CircularBuffer
two_keys = record { start = 1; end = 3; size = 4; numelem = 2; buffer = 0 ∷ 65 ∷ 66 ∷ 0 ∷ [] }

abbrev reading : Kernel
reading = record three_ready {
  task = λ i. record (three_ready.task i) {
    kbinfo = record { keybuffer = 0x109001; keystoread = 4; keysread = 1 };
  };
  uart_read_buffer = two_keys;
}

abbrev zeros : Memory
zeros _ = 0

read_on-Turn_example :
    let r = read_on 0x8000 reading zeros in
    let i' = (r.kernel.task 1).kbinfo in
    Turn 0x8000 0x109000 5
      (reading.task 1).kbinfo
      two_keys
      zeros
      i'
      r.kernel.uart_read_buffer
      r.memory
    × Verdict 0x8000 5 r i'
read_on-Turn_example =
    read_on-Turn 0x8000 0x109000 5 reading zeros (ground arith) (omega arith) (omega arith)
      (omega arith) (omega arith)

-- Task 1 asks for the 2 characters that the buffer holds.
abbrev asking : Kernel
asking = record reading {
  task = λ i. record (reading.task i) {
    kbinfo = record { keybuffer = 0x109000; keystoread = 2; keysread = 0 };
  };
}

takes_both :
    contents two_keys
    ≡ (65 ∷ 66 ∷ []) ++ contents (read_on 0x8000 asking zeros).kernel.uart_read_buffer
unfolding read_on take_keys circularb_is_empty read_keys circularb_read
takes_both = refl

Turns-Delivered_example :
    Delivered 0x8000 0x109000 2 1
      (65 ∷ 66 ∷ [])
      (read_on 0x8000 asking zeros).kernel
      (read_on 0x8000 asking zeros).memory
Turns-Delivered_example =
    Turns-Delivered 0x8000 0x109000 2 1 (omega arith) (omega arith) (omega arith) (
      goes_on (begins {k = asking} {m = zeros} refl refl refl) asking zeros (65 ∷ 66 ∷ []) refl refl
        (ground arith) (λ a l h. refl) takes_both)

sys_read-checks_example :
    sys_read 0x8000 0 0x100000 (pos 3) reading zeros
    ≡ (elim (first_failure (checks lectura verify_write 0 0x100000 (pos 3))) [
      | some e ↦ fails 0x8000 (neg e) reading zeros
      | none ↦ sys_read_uart 0x8000 0x100000 3 reading zeros
    ])
sys_read-checks_example = sys_read-checks 0x8000 0 0x100000 (pos 3) reading zeros

sys_write_lem_example :
    Report 0x8000 0x109000
      (pos 6)
      (λ a. a)
      (first_failure (checks escriptura verify_read 1 0x109000 (pos 6)))
      (sys_write 0x8000 1 0x109000 (pos 6) (λ a. a))
sys_write_lem_example =
    sys_write_lem 0x8000 1 0x109000 (pos 6) (λ a. a) (λ ne. omega arith) (λ e. omega arith)

-- No test fails, so that all six bytes are sent.
all_pass : first_failure (checks escriptura verify_read 1 0x109000 (pos 6)) ≡ none
unfolding access_ok
all_pass = refl

writable : access_ok verify_write 0x109000 12 ≢ 0
unfolding access_ok
writable = omega arith

-- The running task is the one at 30; its statistics begin 20 bytes behind.
sys_get_stats-move_example :
    sys_get_stats (λ a. a) 20 5 30 1 2 30 0x109000 99 wired zeros
    ≡ some (record { ret = pos 0; links = wired; memory = move 12 50 0x109000 zeros })
sys_get_stats-move_example =
    sys_get_stats-move (λ a. a) 20 5 30 1 2 30 0x109000 99 30 zeros wired-first (omega arith)
      writable (inl (refl, refl)) (omega arith) (omega arith) (omega arith)

-- Six bytes: one word, and the last two by bytes.
copy_data_lem_example :
    (copy_data 0x8000 0x109000 6 (λ a. a) ≡ move 6 0x8000 0x109000 (λ a. a))
    × (copy_from_user 0x8000 0x109000 6 (λ a. a) ≡ (pos 0, move 6 0x8000 0x109000 (λ a. a)))
    × (copy_to_user 0x8000 0x109000 6 (λ a. a) ≡ (pos 0, move 6 0x8000 0x109000 (λ a. a)))
copy_data_lem_example =
    copy_data_lem 0x8000 0x109000 6 (λ a. a) (inr (omega arith)) (omega arith) (omega arith)
