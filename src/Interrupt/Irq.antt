-- ===== src/Interrupt/Irq.antt =====
-- What an interrupt request does to the tasks and the semaphores.
use ze_ospi.Base.{ℕ, ◌≡◌, refl, ◌∙◌, ◌≢◌, inl, inr, arith, Bool-cases}
use ze_ospi.Kernel.{Kernel}
use ze_ospi.Kernel.Places.{queued, places}
use ze_ospi.Sched.{
  ready, sched_update_data_rr, sched_change_needed_rr, sched_update_queues_state_rr,
}
use ze_ospi.Sched.Conserve.{requeue-places}
use ze_ospi.Sched.Untouched.{
  sched_switch_process_rr-sem_array, sched_update_queues_state_rr_ready-sem_array,
  requeue-idle_task,
}
use ze_ospi.Interrupt.{
  Registers, clock_increase, interrupt_uart_routine, timer_tick, interrupt_request_routine,
}

-- The account of a tick moves nothing.
counted :
    (k : Kernel)
    → let k' = sched_update_data_rr (clock_increase k) in
      ((u : ℕ) → places k' u ≡ places k u)
      × (k'.sem_array ≡ k.sem_array)
      × (k'.idle_task ≡ k.idle_task)
unfolding sched_update_data_rr clock_increase queued
counted k = ((λ u. refl), refl, refl)

timer_tick-places : (k : Kernel) (u : ℕ) → u ≢ k.idle_task → places (timer_tick k) u ≡ places k u
unfolding timer_tick
timer_tick-places k u ne =
    let k' = sched_update_data_rr (clock_increase k) in
    let (same, _, idle) = counted k in
    elim (Bool-cases (sched_change_needed_rr k')) [
      | inl change ↦ rw change (requeue-places ready k' u tt (rw idle ne) ∙ same u)
      | inr stay ↦ rw stay (same u)
    ]

timer_tick-idle_task : (k : Kernel) → (timer_tick k).idle_task ≡ k.idle_task
unfolding timer_tick
timer_tick-idle_task k =
    let k' = sched_update_data_rr (clock_increase k) in
    let (_, _, same) = counted k in
    elim (Bool-cases (sched_change_needed_rr k')) [
      | inl change ↦ rw change (requeue-idle_task ready k'.current k' ∙ same)
      | inr stay ↦ rw stay same
    ]

timer_tick-sem_array : (k : Kernel) → (timer_tick k).sem_array ≡ k.sem_array
unfolding timer_tick
timer_tick-sem_array k =
    let k' = sched_update_data_rr (clock_increase k) in
    let (_, same, _) = counted k in
    elim (Bool-cases (sched_change_needed_rr k')) [
      | inl change ↦ rw change (
          sched_switch_process_rr-sem_array (sched_update_queues_state_rr ready k'.current k')
          ∙ sched_update_queues_state_rr_ready-sem_array k'.current k'
          ∙ same)
      | inr stay ↦ rw stay same
    ]

module _ (r : Registers) (k : Kernel) where
  routine_cases {ℓ} :
      (P : Kernel → Type ℓ)
      → P (timer_tick k)
      → P (interrupt_uart_routine r.aux_mu_io_reg k)
      → P k
      → P (interrupt_request_routine r k)
  unfolding interrupt_request_routine
  routine_cases P timer uart other = ground arith

  -- Whatever the device registers hold, an interrupt request leaves every task but the idle one in
  -- as many places as before, and every semaphore as it was.
  pub interrupt_request_routine-places :
      ((u : ℕ) → u ≢ k.idle_task → places (interrupt_request_routine r k) u ≡ places k u)
      × ((interrupt_request_routine r k).sem_array ≡ k.sem_array)
  unfolding interrupt_uart_routine queued
  interrupt_request_routine-places = (
    (λ u ne. routine_cases (λ k'. places k' u ≡ places k u) (timer_tick-places k u ne) refl refl),
    routine_cases (λ k'. k'.sem_array ≡ k.sem_array) (timer_tick-sem_array k) refl refl,
  )

  pub interrupt_request_routine-idle_task : (interrupt_request_routine r k).idle_task ≡ k.idle_task
  unfolding interrupt_uart_routine
  interrupt_request_routine-idle_task =
      routine_cases (λ k'. k'.idle_task ≡ k.idle_task) (timer_tick-idle_task k) refl refl
