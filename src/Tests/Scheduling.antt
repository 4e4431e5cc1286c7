-- ===== src/Tests/Scheduling.antt =====
-- The theorems on the scheduler and the interrupts, at concrete kernels.
use ze_ospi.Base.{◌≤◌, ◌*◌, ℕ, ◌≡◌, refl, [], ◌∷◌, arith}
use ze_ospi.Kernel.{st_ready, st_run}
use ze_ospi.Cbuffer.{circularb_is_empty}
use ze_ospi.Sched.{
  choose, give_cpu, task_switch_wrapper, semaphore, sched_update_queues_state_rr,
  sched_switch_process_rr,
}
use ze_ospi.Sched.Switch.{requeue-process_state}
use ze_ospi.Interrupt.Quantum.{ticks, line}
use ze_ospi.Interrupt.Rotate.{turn}
use ze_ospi.Tests.Machine.{three_ready}

-- When task 1 waits at a semaphore, task 2 runs.
second_runs :
    (sched_switch_process_rr (sched_update_queues_state_rr (semaphore 0) 1 three_ready)).current ≡ 2
unfolding sched_switch_process_rr choose circularb_is_empty give_cpu task_switch_wrapper
    sched_update_queues_state_rr
second_runs = refl

requeue-process_state_example :
    let k' = sched_switch_process_rr (sched_update_queues_state_rr (semaphore 0) 1 three_ready) in
    ((k'.task 1).process_state ≡ st_ready) × ((k'.task k'.current).process_state ≡ st_run)
requeue-process_state_example =
    requeue-process_state (semaphore 0) three_ready (omega (arith, second_runs))

turn_example : (n : ℕ) × (n ≤ 1000 * 2) × (line (ticks n three_ready) ≡ 3 ∷ 1 ∷ 2 ∷ [])
unfolding circularb_is_empty
turn_example =
    turn (1 ∷ 2 ∷ []) 3 [] three_ready refl (omega arith, (omega arith, (omega arith, tt)))
      (omega arith) (omega arith) refl
