-- ===== src/Input.antt =====
-- devices.c, `sys_read_uart`, and `sys_read` of sys.c. The memory is the caller's, byte by byte, and
-- `read` the address of the character on its kernel stack. A reader that has to wait leaves the
-- processor with the reply `waits`; `read_on` is what it goes on with when it runs again.
pub mod Chars
pub mod Progress
pub mod Checked
pub mod Session
use ze_ospi.Base.{
  ℕ, zero, suc, ◌+◌, ◌-◌, ◌%◌, ◌^◌, List, [], ◌∷◌, Bool, true, false, not, ltb, ◌==◌, if◌then◌else◌,
  ℤ, pos, negsuc, neg,
}
use ze_ospi.Errno.{epnull, esizeb, enaccb}
use ze_ospi.Cbuffer.{CircularBuffer, circularb_is_empty, circularb_read}
use ze_ospi.Kernel.{KeyboardInfo, Task, Kernel, with_task, Reply, returns, waits, add32}
use ze_ospi.Sched.{keyboard, sched_update_queues_state_rr, sched_switch_process_rr}
use ze_ospi.Utils.{Memory, access_ok, verify_write, copy_to_user}
use ze_ospi.Process.{lectura, check_fd}

-- The variables of the loop over the characters: `i`, the caller's pointer, the buffer, the memory.
pub record Keys : Type 0 where
  pub left : ℕ
  pub target : ℕ
  pub buffer : CircularBuffer
  pub memory : Memory

-- What a call leaves.
pub record Reading : Type 0 where
  pub reply : Reply
  pub kernel : Kernel
  pub memory : Memory

module _ (read : ℕ) where
  -- A character goes from the buffer to `read`, and from there to the caller.
  unfoldable pub store_key : (target c : ℕ) → Memory → Memory
  store_key target c m = (copy_to_user read target 1 (λ a. if read == a then c else m a)).1

  unfoldable pub read_keys : (left target : ℕ) → CircularBuffer → Memory → Keys
  read_keys zero target cb m = record { left = 0; target = target; buffer = cb; memory = m }
  read_keys (suc n) target cb m = elim (circularb_is_empty cb) [
    | true ↦ record { left = suc n; target = target; buffer = cb; memory = m }
    | false ↦
        let (c, cb') = circularb_read cb in read_keys n (add32 target 1) cb' (store_key target c m)
  ]

  -- `if (!circularbIsEmpty(&uart_read_buffer)) { … }`
  abbrev pub took : (keysread keystoread : ℕ) → Keys → KeyboardInfo
  took keysread keystoread r = record {
    keybuffer = r.target;
    keystoread = r.left;
    keysread = add32 keysread (keystoread - r.left);
  }

  unfoldable pub take_keys : Kernel → Memory → Kernel × Memory
  take_keys k m =
      let t = k.task k.current in
      let r = read_keys t.kbinfo.keystoread t.kbinfo.keybuffer k.uart_read_buffer m in
      if circularb_is_empty k.uart_read_buffer then (k, m) else (
        with_task k.current (record t { kbinfo = took t.kbinfo.keysread t.kbinfo.keystoread r })
            (record k { uart_read_buffer = r.buffer }),
        r.memory,
      )

  abbrev pub sleep : Kernel → Memory → Reading
  sleep k m = record {
    reply = waits;
    kernel = sched_switch_process_rr (sched_update_queues_state_rr keyboard k.current k);
    memory = m;
  }

  abbrev pub answer : Kernel → Memory → Reading
  answer k m = record {
    reply = returns (pos (k.task k.current).kbinfo.keysread);
    kernel = k;
    memory = m;
  }

  -- The `while` loop, up to the next switch or the end.
  unfoldable pub read_on : Kernel → Memory → Reading
  read_on k m =
      if ltb 0 (k.task k.current).kbinfo.keystoread
      then (let (k', m') = take_keys k m in
          if ltb 0 (k'.task k'.current).kbinfo.keystoread then sleep k' m' else answer k' m')
      else answer k m

  abbrev pub is_empty : List ℕ → Bool
  is_empty [] = true
  is_empty (_ ∷ _) = false

  unfoldable pub sys_read_uart : (buffer size : ℕ) → Kernel → Memory → Reading
  sys_read_uart buffer size k m =
      let t = k.task k.current in
      let k' =
        with_task k.current
          (record t { kbinfo = record { keybuffer = buffer; keystoread = size; keysread = 0 } })
          k in
      if not (is_empty k'.keyboardqueue) then sleep k' m else read_on k' m

  abbrev pub fails : ℤ → Kernel → Memory → Reading
  fails e k m = record { reply = returns e; kernel = k; memory = m }

  abbrev pub read_some : (buffer : ℕ) → (size : ℤ) → Kernel → Memory → Reading
  read_some buffer (negsuc n) k m = fails (neg esizeb) k m
  read_some buffer (pos zero) k m = fails (neg esizeb) k m
  read_some buffer (pos (suc n)) k m =
      if access_ok verify_write buffer (suc n) == 0
      then fails (neg enaccb) k m
      else sys_read_uart buffer (suc n) k m

  -- `ret` is 0 behind the test of the descriptor.
  abbrev pub read_checked : ℤ → (buffer : ℕ) → (size : ℤ) → Kernel → Memory → Reading
  read_checked (negsuc e) buffer size k m = fails (negsuc e) k m
  read_checked (pos r) buffer size k m =
      if not (r == 0)
      then fails (pos r) k m
      else if buffer == 0
      then fails (neg epnull) k m
      else read_some buffer size k m

  unfoldable pub sys_read : (fd buffer : ℕ) → (size : ℤ) → Kernel → Memory → Reading
  sys_read fd buffer size k m = read_checked (check_fd fd lectura) buffer size k m
