-- ===== src/Interrupt.antt =====
-- interrupt.c, the interrupt request routine, with `interrupt_uart_routine` of devices.c,
-- `clock_increase` of timer.c and the pending tests of uart.c. The registers of the interrupt
-- controller and of the UART are what the devices present: one value of each for a call.
pub mod Irq
pub mod Quantum
pub mod Rotate
use ze_ospi.Base.{ℕ, ◌/◌, ◌%◌, ◌^◌, Bool, ◌&&◌, ◌==◌, if◌then◌else◌}
use ze_ospi.Cbuffer.{circularb_write}
use ze_ospi.Kernel.{Kernel, add32}
use ze_ospi.Sched.{
  ready, sched_update_data_rr, sched_change_needed_rr, sched_update_queues_state_rr,
  sched_switch_process_rr,
}

pub record Registers : Type 0 where
  pub irq_pend_b : ℕ
  pub irq_pend_1 : ℕ
  pub aux_mu_iir_reg : ℕ
  pub aux_mu_io_reg : ℕ

-- `x & (1 << n)`
abbrev pub bit : ℕ → ℕ → Bool
bit n x = x / 2 ^ n % 2 == 1

-- `(IIR & 0b1) == 0`
abbrev pub uart_interrupt_pend : Registers → Bool
uart_interrupt_pend r = r.aux_mu_iir_reg % 2 == 0

-- `(IIR & 0b110) == 0b100`
abbrev pub uart_interrupt_pend_rx : Registers → Bool
uart_interrupt_pend_rx r = r.aux_mu_iir_reg / 2 % 4 == 2

-- `(IIR & 0b110) == 0b10`
abbrev pub uart_interrupt_pend_tx : Registers → Bool
uart_interrupt_pend_tx r = r.aux_mu_iir_reg / 2 % 4 == 1

unfoldable pub clock_increase : Kernel → Kernel
clock_increase k = record k { clock_time = add32 k.clock_time 1 }

-- A byte that does not fit the buffer is lost.
unfoldable pub interrupt_uart_routine : ℕ → Kernel → Kernel
interrupt_uart_routine data_byte k = record k {
  uart_read_buffer = (circularb_write k.uart_read_buffer (data_byte % 2 ^ 8)).1;
}

unfoldable pub timer_tick : Kernel → Kernel
timer_tick k =
    let k' = sched_update_data_rr (clock_increase k) in
    if sched_change_needed_rr k'
    then sched_switch_process_rr (sched_update_queues_state_rr ready k'.current k')
    else k'

unfoldable pub interrupt_request_routine : Registers → Kernel → Kernel
interrupt_request_routine r k =
    if bit 0 r.irq_pend_b
    then timer_tick k
    else if bit 29 r.irq_pend_1 && (uart_interrupt_pend r && uart_interrupt_pend_rx r)
    then interrupt_uart_routine r.aux_mu_io_reg k
    else k
