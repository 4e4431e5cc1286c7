-- ===== src/Devices/Serial.antt =====
-- uart.c: a byte that is sent or received. The device changes its registers as time goes by: `line`
-- gives them at each reading, and `rounds` bounds the readings of the busy loop.
use ze_ospi.Base.{
  ℕ, zero, suc, ◌+◌, ◌<◌, ◌≤◌, ◌≡◌, refl, ◌≢◌, inl, inr, arith, ◌==◌, if◌then◌else◌, ==→eq, ==→ne,
  Bool-cases, ap, ltb, ltb→lt, ltb→le, Option, none, some, true, false, ◌%◌, ◌^◌,
}
use ze_ospi.Devices.{RegisterMap, store, load, aux_base, uart_tx_ready, uart_data_available}

-- `while (!ready());`, with the reading that ends it.
unfoldable pub wait_for : (ready : RegisterMap → ℕ) (rounds t : ℕ) → (ℕ → RegisterMap) → Option ℕ
wait_for ready zero t line = none
wait_for ready (suc n) t line = elim (ready (line t) == 0) [
  | true ↦ wait_for ready n (t + 1) line
  | false ↦ some t
]

abbrev pub aux_mu_io_reg : ℕ
aux_mu_io_reg = aux_base + 0x40

-- The registers once the byte is stored.
unfoldable pub uart_send_byte : (rounds t c : ℕ) → (ℕ → RegisterMap) → Option RegisterMap
uart_send_byte n t c line = elim (wait_for uart_tx_ready n t line) [
  | none ↦ none
  | some t' ↦ some (store aux_mu_io_reg (c % 2 ^ 8) (line t'))
]

unfoldable pub uart_get_byte : (rounds t : ℕ) → (ℕ → RegisterMap) → Option ℕ
uart_get_byte n t line = elim (wait_for uart_data_available n t line) [
  | none ↦ none
  | some t' ↦ some (load aux_mu_io_reg (line t') % 2 ^ 8)
]

-- The loop ends with the first reading that shows the device ready.
wait_for-first :
    (ready : RegisterMap → ℕ) (n t first : ℕ) (line : ℕ → RegisterMap)
    → t ≤ first
    → first < t + n
    → ready (line first) ≢ 0
    → ((i : ℕ) → t ≤ i → i < first → ready (line i) ≡ 0)
    → wait_for ready n t line ≡ some first
unfolding wait_for
wait_for-first ready zero t first line lo hi on before = absurd (omega arith)
wait_for-first ready (suc n) t first line lo hi on before =
    elim (Bool-cases (ready (line t) == 0)) [
      | inl busy ↦
          let later : t ≢ first = λ e. on (rw (← e) (==→eq (ready (line t)) 0 busy)) in
          rw (busy, wait_for)
            (wait_for-first ready n (t + 1) first line (omega (arith, later)) (omega arith) on
              (λ i a b. before i (omega arith) b))
      | inr idle ↦
          let here : t ≡ first = elim (Bool-cases (ltb t first)) [
            | inl early ↦
                absurd
                  (==→ne (ready (line t)) 0 idle (before t (omega arith) (ltb→lt t first early)))
            | inr late ↦ omega (arith, ltb→le t first late)
          ] in
          rw (idle, wait_for) (ap some here)
    ]

wait_for-never :
    (ready : RegisterMap → ℕ) (n t : ℕ) (line : ℕ → RegisterMap)
    → ((i : ℕ) → ready (line i) ≡ 0)
    → wait_for ready n t line ≡ none
unfolding wait_for
wait_for-never ready zero t line never = refl
wait_for-never ready (suc n) t line never =
    rw (never t, wait_for) (wait_for-never ready n (t + 1) line never)

-- A byte goes out, with its lowest eight bits, at the first reading that shows the device ready for it,
-- and one comes in at the first that shows one there; the other registers stay as they are at that
-- reading. There are to be rounds enough for these readings.
pub serial-first :
    (n t c first first' a : ℕ) (line line' : ℕ → RegisterMap)
    → t ≤ first
    → first < t + n
    → uart_tx_ready (line first) ≢ 0
    → ((i : ℕ) → t ≤ i → i < first → uart_tx_ready (line i) ≡ 0)
    → t ≤ first'
    → first' < t + n
    → uart_data_available (line' first') ≢ 0
    → ((i : ℕ) → t ≤ i → i < first' → uart_data_available (line' i) ≡ 0)
    → ((r : RegisterMap) × (uart_send_byte n t c line ≡ some r)
        × (r a ≡ (if aux_mu_io_reg == a then c % 2 ^ 8 else line first a)))
      × (uart_get_byte n t line' ≡ some (line' first' aux_mu_io_reg % 2 ^ 8))
unfolding uart_send_byte uart_get_byte
serial-first n t c first first' a line line' lo hi on before lo' hi' on' before' = (
  (
    store aux_mu_io_reg (c % 2 ^ 8) (line first),
    rw (wait_for-first uart_tx_ready n t first line lo hi on before, uart_send_byte) refl,
    refl,
  ),
  rw (wait_for-first uart_data_available n t first' line' lo' hi' on' before', uart_get_byte) refl,
)

-- While the device is never ready the loops do not end.
pub serial-never :
    (n t c : ℕ) (line : ℕ → RegisterMap)
    → ((i : ℕ) → uart_tx_ready (line i) ≡ 0)
    → ((i : ℕ) → uart_data_available (line i) ≡ 0)
    → (uart_send_byte n t c line ≡ none) × (uart_get_byte n t line ≡ none)
unfolding uart_send_byte uart_get_byte
serial-never n t c line never never' = (
  rw (wait_for-never uart_tx_ready n t line never, uart_send_byte) refl,
  rw (wait_for-never uart_data_available n t line never', uart_get_byte) refl,
)
