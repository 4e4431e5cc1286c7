-- ===== src/Output.antt =====
-- sys.c, `sys_write`, with `sys_write_uart` of devices.c and the printing of characters of io.c.
-- Results hold the list of the bytes that are sent to the UART, in their order. `buff` is the address
-- of the array of 4 bytes on the kernel's stack, and NULL is address 0.
pub mod Bytes
use ze_ospi.Base.{
  ℕ, zero, suc, ◌+◌, ◌-◌, ◌%◌, ◌^◌, List, [], ◌∷◌, ◌++◌, true, false, not, ltb, ◌==◌, if◌then◌else◌,
  ℤ, pos, negsuc, neg,
}
use ze_ospi.Errno.{epnull, esizeb, enaccb}
use ze_ospi.Kernel.{add32}
use ze_ospi.Utils.{Memory, access_ok, verify_read, copy_from_user}
use ze_ospi.Process.{escriptura, check_fd}

-- `uart_send_byte` waits until the UART is ready.
abbrev pub printc : ℕ → List ℕ
printc c = c % 2 ^ 8 ∷ []

-- A string ends at its first 0; `none of the rounds is left` stands for a string without one.
unfoldable pub printk : (rounds string : ℕ) → Memory → List ℕ
printk zero string m = []
printk (suc n) string m = elim (m string == 0) [
  | true ↦ []
  | false ↦ printc (m string) ++ printk n (string + 1) m
]

-- `for (i=0; i<size; i++) printc(buffer[i]);`
unfoldable pub send : (buffer size : ℕ) → Memory → List ℕ
send buffer zero m = []
send buffer (suc n) m = printc (m buffer) ++ send (buffer + 1) n m

abbrev pub sys_write_uart : (buffer size : ℕ) → Memory → ℕ × List ℕ
sys_write_uart buffer size m = (size, send buffer size m)

-- What the call returns, what it has sent, and the memory.
pub record Written : Type 0 where
  pub ret : ℤ
  pub sent : List ℕ
  pub memory : Memory

module _ (buff : ℕ) where
  -- The loop over chunks of 4 bytes with the chunk behind it; `size` rounds are enough.
  unfoldable pub write_chunks : (rounds buffer size ret : ℕ) → Memory → Written
  write_chunks zero buffer size ret m = record { ret = pos ret; sent = []; memory = m }
  write_chunks (suc n) buffer size ret m = elim (ltb 4 size) [
    | true ↦
        let m' = (copy_from_user buffer buff 4 m).1 in
        let (k, bytes) = sys_write_uart buff 4 m' in
        let rest = write_chunks n (add32 buffer 4) (size - 4) (ret + k) m' in
        record rest { sent = bytes ++ rest.sent }
    | false ↦
        let m' = (copy_from_user buffer buff size m).1 in
        let (k, bytes) = sys_write_uart buff size m' in
        record { ret = pos (ret + k); sent = bytes; memory = m' }
  ]

  -- With the descriptor and the pointer in order.
  abbrev pub write_some : (buffer : ℕ) → (size : ℤ) → Memory → Written
  write_some buffer (negsuc n) m = record { ret = neg esizeb; sent = []; memory = m }
  write_some buffer (pos zero) m = record { ret = neg esizeb; sent = []; memory = m }
  write_some buffer (pos (suc n)) m =
      if access_ok verify_read buffer (suc n) == 0
      then record { ret = neg enaccb; sent = []; memory = m }
      else write_chunks (suc n) buffer (suc n) 0 m

  -- `ret` is 0 behind the test of the descriptor.
  abbrev pub write_checked : ℤ → (buffer : ℕ) → (size : ℤ) → Memory → Written
  write_checked (negsuc e) buffer size m = record { ret = negsuc e; sent = []; memory = m }
  write_checked (pos r) buffer size m =
      if not (r == 0)
      then record { ret = pos r; sent = []; memory = m }
      else if buffer == 0
      then record { ret = neg epnull; sent = []; memory = m }
      else write_some buffer size m

  unfoldable pub sys_write : (fd buffer : ℕ) → (size : ℤ) → Memory → Written
  sys_write fd buffer size m = write_checked (check_fd fd escriptura) buffer size m
