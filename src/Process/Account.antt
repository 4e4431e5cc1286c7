-- ===== src/Process/Account.antt =====
-- Making and ending tasks with `sys_clone` and `sys_exit` of sys.c.
use ze_ospi.Base.{ℕ, ◌+◌, ◌≡◌, refl, ap, ◌≢◌, List, [], ◌∷◌, arith, ◌==◌, if◌then◌else◌}
use ze_ospi.Kernel.{with_task}
use ze_ospi.Kernel.Places.{count, queued, places}
use ze_ospi.Sched.{free, ready}
use ze_ospi.Sched.Conserve.{
  sched_update_queues_state_rr-queued, sched_update_queues_state_rr-current, requeue-places,
}
use ze_ospi.Boot.{System}
use ze_ospi.Process.{cloned, clone_from, sys_clone, sys_exit, get_new_pid}

module _ (task_at : ℕ → ℕ) (ret_from_fork : ℕ) where
  clone_from-places :
      (xs : List ℕ) (function stack last_sp : ℕ) (s : System) (u : ℕ)
      → s.kernel.freequeue ≡ xs
      → u ≢ s.kernel.idle_task
      → places (clone_from task_at ret_from_fork xs function stack last_sp s).1.kernel u
        ≡ places s.kernel u
  clone_from-places [] f st sp s u e ne = refl
  clone_from-places (t ∷ ts) f st sp s u e ne =
      let pid = (get_new_pid (record s.kernel { freequeue = ts })).0 in
      let k' =
        with_task t (record (cloned task_at ret_from_fork f st sp t s.kernel) { pid = pid })
          (get_new_pid (record s.kernel { freequeue = ts })).1 in
      let taken : (queued k' u + (if t == u then 1 else 0) ≡ queued s.kernel u)
          × (k'.current ≡ s.kernel.current)
          × (k'.idle_task ≡ s.kernel.idle_task) =
        unfold queued get_new_pid in (omega (arith, ap (count u) e), refl, refl) in
      ground (
        arith,
        taken,
        sched_update_queues_state_rr-queued ready t k' u tt,
        sched_update_queues_state_rr-current ready t k',
      )

  -- Neither a clone nor an exit loses or doubles a task: every task but the idle one is in as many
  -- places as before, the free queue, the other queues and the processor together.
  pub clone-exit-places :
      (function stack last_sp : ℕ) (s : System) (u : ℕ)
      → u ≢ s.kernel.idle_task
      → (places (sys_clone task_at ret_from_fork function stack last_sp s).1.kernel u
          ≡ places s.kernel u)
        × (places (sys_exit s).kernel u ≡ places s.kernel u)
  unfolding sys_clone sys_exit
  clone-exit-places f st sp s u ne = (
    clone_from-places s.kernel.freequeue f st sp s u refl ne,
    requeue-places free s.kernel u tt ne,
  )
