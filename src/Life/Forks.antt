-- ===== src/Life/Forks.antt =====
-- What holds of the machine after every history with forks.
use ze_ospi.Base.{ℕ, ◌<◌, ◌≤◌, ◌≡◌, refl, ◌≢◌, inl, inr, List, [], ◌∷◌, arith}
use ze_ospi.Kernel.{Kernel}
use ze_ospi.Kernel.Places.{places}
use ze_ospi.Sem.Consistent.{IsConsistent}
use ze_ospi.Space.{Mm}
use ze_ospi.Boot.{main}
use ze_ospi.Boot.Start.{main-queues}
use ze_ospi.Boot.Places.{start-places, start-IsConsistent}
use ze_ospi.Duplicate.{Machine, Ram}
use ze_ospi.Fork.Outcome.{sys_fork-ends}
use ze_ospi.Life.{Deed, by_action, by_fork, deed, history}
use ze_ospi.Life.Always.{act-keeps}

module _ (task_at : ℕ → ℕ) (ret_from_fork empty_ph_page : ℕ) where
  deed-keeps :
      (d : Deed) (s : Machine) (u : ℕ)
      → IsConsistent s.system.kernel
      → u ≢ s.system.kernel.idle_task
      → let s' = deed task_at ret_from_fork empty_ph_page s d in
        IsConsistent s'.system.kernel
        × (s'.system.kernel.idle_task ≡ s.system.kernel.idle_task)
        × (places s'.system.kernel u ≤ places s.system.kernel u)
  unfolding deed
  deed-keeps (by_action a) s u c ne =
      let (c', idle, same) = act-keeps task_at ret_from_fork a s.system u c ne in
      (c', idle, omega (arith, same))
  deed-keeps (by_fork last_sp frames) s u c ne =
      elim (sys_fork-ends task_at ret_from_fork empty_ph_page last_sp frames s u ne) [
        | inl (_, _, is) ↦ rw is (c, refl, omega arith)
        | inr (new, ts, _, sems, idle, ends) ↦ (
          (λ n. rw sems (c n)),
          idle,
          elim ends [ inl (_, same) ↦ omega (arith, same) | inr (_, less) ↦ omega (arith, less) ],
        )
      ]

  history-keeps :
      (xs : List Deed) (s : Machine) (u : ℕ)
      → IsConsistent s.system.kernel
      → u ≢ s.system.kernel.idle_task
      → let s' = history task_at ret_from_fork empty_ph_page s xs in
        IsConsistent s'.system.kernel × (places s'.system.kernel u ≤ places s.system.kernel u)
  unfolding history
  history-keeps [] s u c ne = (c, omega arith)
  history-keeps (d ∷ xs) s u c ne =
      let k = deed-keeps d s u c ne in
      let r = history-keeps xs (deed task_at ret_from_fork empty_ph_page s d) u k.0 (rw k.1 ne) in
      (r.0, omega (arith, r.1, k.2))

  -- If no task waits at a semaphore in the memory that the kernel starts with, then after the start
  -- and any history of semaphore calls, interrupts, clones, exits and forks each of the tasks 1 to 9
  -- is in at most one place: no task runs while it waits, and none stands in two queues. Nobody waits
  -- at a semaphore that is not in use or that is open.
  pub history-main :
      (stack_end : ℕ → ℕ) (cpu_idle : ℕ) (arr : List ℕ) (k : Kernel) (mm : Mm) (ram : Ram)
      → ((n : ℕ) → (k.sem_array n).semqueue ≡ [])
      → (xs : List Deed) (u : ℕ) → 0 < u
      → u < 10
      → let start : Machine = record { system = main stack_end cpu_idle arr k mm; ram = ram } in
        let s = history task_at ret_from_fork empty_ph_page start xs in
        (places s.system.kernel u ≤ 1) × IsConsistent s.system.kernel
  history-main stack_end cpu_idle arr k mm ram none xs u lo hi =
      let q = main-queues stack_end cpu_idle arr k mm in
      let start : Machine = record { system = main stack_end cpu_idle arr k mm; ram = ram } in
      let r =
        history-keeps xs start u (start-IsConsistent stack_end cpu_idle arr k mm none)
          (omega (arith, q.4)) in
      (omega (arith, r.1, start-places stack_end cpu_idle arr k mm none u lo hi), r.0)
