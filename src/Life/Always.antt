-- ===== src/Life/Always.antt =====
-- What holds of the machine after every history.
use ze_ospi.Base.{ℕ, ◌<◌, ◌≡◌, refl, ◌∙◌, ◌≢◌, List, [], ◌∷◌, arith}
use ze_ospi.Kernel.{Kernel, with_task}
use ze_ospi.Kernel.Places.{places}
use ze_ospi.Sched.{free, ready, sched_update_queues_state_rr}
use ze_ospi.Sched.Untouched.{
  sched_switch_process_rr-sem_array, sched_update_queues_state_rr_ready-sem_array,
  sched_update_queues_state_rr-idle_task, requeue-idle_task,
}
use ze_ospi.Sem.Consistent.{IsConsistent}
use ze_ospi.Space.{Mm}
use ze_ospi.Events.Safety.{step-places, step-IsConsistent, step-idle_task}
use ze_ospi.Boot.{System, main}
use ze_ospi.Boot.Start.{main-queues}
use ze_ospi.Boot.Places.{start-places, start-IsConsistent}
use ze_ospi.Process.{cloned, get_new_pid, clone_from, sys_clone, sys_exit}
use ze_ospi.Process.Account.{clone-exit-places}
use ze_ospi.Life.{Action, by_event, by_clone, by_exit, act, live}

-- The semaphores and the choice of the idle task are the same.
abbrev Same : Kernel → Kernel → Type 0
Same k' k = (k'.sem_array ≡ k.sem_array) × (k'.idle_task ≡ k.idle_task)

free-sem_array :
    (t : ℕ) (k : Kernel) → (sched_update_queues_state_rr free t k).sem_array ≡ k.sem_array
unfolding sched_update_queues_state_rr
free-sem_array t k = ground arith

exit-Same : (s : System) → Same (sys_exit s).kernel s.kernel
unfolding sys_exit
exit-Same s =
    let c = s.kernel.current in
    (
      sched_switch_process_rr-sem_array (sched_update_queues_state_rr free c s.kernel)
          ∙ free-sem_array c s.kernel,
      requeue-idle_task free c s.kernel,
    )

module _ (task_at : ℕ → ℕ) (ret_from_fork : ℕ) where
  clone_from-Same :
      (xs : List ℕ) (function stack last_sp : ℕ) (s : System)
      → Same (clone_from task_at ret_from_fork xs function stack last_sp s).1.kernel s.kernel
  unfolding get_new_pid
  clone_from-Same [] f st sp s = (refl, refl)
  clone_from-Same (t ∷ ts) f st sp s =
      let k = (get_new_pid (record s.kernel { freequeue = ts })).1 in
      let k' =
        with_task t
          (record (cloned task_at ret_from_fork f st sp t s.kernel) {
            pid = (get_new_pid (record s.kernel { freequeue = ts })).0;
          })
          k in
      (
        sched_update_queues_state_rr_ready-sem_array t k',
        sched_update_queues_state_rr-idle_task ready t k',
      )

  clone-Same :
      (function stack last_sp : ℕ) (s : System)
      → Same (sys_clone task_at ret_from_fork function stack last_sp s).1.kernel s.kernel
  unfolding sys_clone
  clone-Same f st sp s = clone_from-Same s.kernel.freequeue f st sp s

  -- What every action keeps.
  pub act-keeps :
      (a : Action) (s : System) (u : ℕ)
      → IsConsistent s.kernel
      → u ≢ s.kernel.idle_task
      → let s' = act task_at ret_from_fork s a in
        IsConsistent s'.kernel
        × (s'.kernel.idle_task ≡ s.kernel.idle_task)
        × (places s'.kernel u ≡ places s.kernel u)
  unfolding act
  act-keeps (by_event e) s u c ne =
      (step-IsConsistent e s.kernel c, step-idle_task e s.kernel, step-places e s.kernel u c ne)
  act-keeps (by_clone f st sp) s u c ne =
      let (same, idle) = clone-Same f st sp s in
      ((λ n. rw same (c n)), idle, (clone-exit-places task_at ret_from_fork f st sp s u ne).0)
  act-keeps by_exit s u c ne =
      let (same, idle) = exit-Same s in
      ((λ n. rw same (c n)), idle, (clone-exit-places task_at ret_from_fork 0 0 0 s u ne).1)

  live-keeps :
      (xs : List Action) (s : System) (u : ℕ)
      → IsConsistent s.kernel
      → u ≢ s.kernel.idle_task
      → let s' = live task_at ret_from_fork s xs in
        IsConsistent s'.kernel × (places s'.kernel u ≡ places s.kernel u)
  unfolding live
  live-keeps [] s u c ne = (c, refl)
  live-keeps (a ∷ xs) s u c ne =
      let k = act-keeps a s u c ne in
      let r = live-keeps xs (act task_at ret_from_fork s a) u k.0 (rw k.1 ne) in (r.0, r.1 ∙ k.2)

  -- If no task waits at a semaphore in the memory that the kernel starts with, then after the start
  -- and any history of semaphore calls, interrupts, clones and exits each of the tasks 1 to 9 is in
  -- exactly one place: it runs, or it stands once in one of the queues. Nobody waits at a semaphore
  -- that is not in use or that is open.
  pub live-main :
      (stack_end : ℕ → ℕ) (cpu_idle : ℕ) (arr : List ℕ) (k : Kernel) (mm : Mm)
      → ((n : ℕ) → (k.sem_array n).semqueue ≡ [])
      → (xs : List Action) (u : ℕ) → 0 < u
      → u < 10
      → let s = live task_at ret_from_fork (main stack_end cpu_idle arr k mm) xs in
        (places s.kernel u ≡ 1) × IsConsistent s.kernel
  live-main stack_end cpu_idle arr k mm none xs u lo hi =
      let q = main-queues stack_end cpu_idle arr k mm in
      let r =
        live-keeps xs (main stack_end cpu_idle arr k mm) u
          (start-IsConsistent stack_end cpu_idle arr k mm none) (omega (arith, q.4)) in
      (r.1 ∙ start-places stack_end cpu_idle arr k mm none u lo hi, r.0)
