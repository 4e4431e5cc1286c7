-- ===== src/Sched/Switch.antt =====
-- What the switch of tasks in sched.c saves, loads and marks.
use ze_ospi.Base.{ℕ, ◌≡◌, refl, sym, ap, ◌∙◌, ◌≢◌, arith, ◌==◌, if◌then◌else◌}
use mathlib.Core.Path.{subst}
use ze_ospi.Kernel.{st_run, st_ready, Task, Kernel}
use ze_ospi.Sched.{
  QueueName, choose, give_cpu, task_switch, task_switch_wrapper, sched_update_queues_state_rr,
  sched_switch_process_rr,
}
use ze_ospi.Sched.Conserve.{sched_update_queues_state_rr-current, give_cpu-queued}
use ze_ospi.Sched.Untouched.{choose-keeps}

-- Switching to a task whose saved registers are as the switch away from it left them brings back
-- the kernel stack pointer and the return address that it had then, and puts the MMU on its
-- directory, if the MMU was on that of the task that runs before.
pub task_switch-task_switch :
    (k later : Kernel) (new sp sp' : ℕ)
    → new ≢ k.current
    → later.task k.current ≡ (task_switch new sp k).task k.current
    → later.current ≢ k.current
    → later.cpu.dir ≡ (later.task later.current).dir_pages_base_addr
    → let k' = task_switch k.current sp' later in
      (k'.current ≡ k.current)
      × (k'.cpu.sp ≡ sp)
      × (k'.cpu.lr ≡ k.cpu.lr)
      × (k'.cpu.dir ≡ (k.task k.current).dir_pages_base_addr)
unfolding task_switch
task_switch-task_switch k later new sp sp' ne saved away on =
    let sp_e = ap (λ (t : Task). t.kernel_sp) saved in
    let lr_e = ap (λ (t : Task). t.kernel_lr) saved in
    let dir_e = ap (λ (t : Task). t.dir_pages_base_addr) saved in ground (arith, sp_e, lr_e, dir_e)

give_cpu-states :
    (t : ℕ) (k : Kernel)
    → (give_cpu t k).current ≢ k.current
    → let k' = give_cpu t k in
      ((k'.task k.current).process_state ≡ st_ready)
      × ((k'.task t).process_state ≡ st_run)
      × (k'.cpu.dir ≡ (
          if (k.task t).dir_pages_base_addr == (k.task k.current).dir_pages_base_addr
          then k.cpu.dir
          else (k.task t).dir_pages_base_addr))
unfolding give_cpu task_switch_wrapper
give_cpu-states t k ne = ground arith

-- The same, of the task that ran before the choice.
give_cpu-marks :
    (t c : ℕ) (k : Kernel)
    → k.current ≡ c
    → (give_cpu t k).current ≢ c
    → (((give_cpu t k).task c).process_state ≡ st_ready)
      × (((give_cpu t k).task (give_cpu t k).current).process_state ≡ st_run)
give_cpu-marks t c k e ne =
    let s = give_cpu-states t k (λ e'. ne (e' ∙ e)) in
    let to = (give_cpu-queued t k 0).1 in
    (
      subst (λ i. ((give_cpu t k).task i).process_state ≡ st_ready) e s.0,
      subst (λ i. ((give_cpu t k).task i).process_state ≡ st_run) (sym to) s.1,
    )

-- A task that is put into a queue and then gives up the processor is marked ready, whatever queue
-- it waits in: the mark that it got with its queue is overwritten.
pub requeue-process_state :
    (q : QueueName) (k : Kernel)
    → let k' = sched_switch_process_rr (sched_update_queues_state_rr q k.current k) in
      k'.current ≢ k.current
      → ((k'.task k.current).process_state ≡ st_ready)
        × ((k'.task k'.current).process_state ≡ st_run)
unfolding sched_switch_process_rr
requeue-process_state q k ne =
    let k1 = sched_update_queues_state_rr q k.current k in
    let c1 : k1.current ≡ k.current = (sched_update_queues_state_rr-current q k.current k).0 in
    let c2 : (choose k1).1.current ≡ k1.current =
      choose-keeps (λ k. k.current) (λ k ts. refl) (λ k ts. refl) k1 in
    give_cpu-marks (choose k1).0 k.current (choose k1).1 (c2 ∙ c1) ne
