-- ===== src/Boot/Start.antt =====
-- The state in which the kernel enters user mode.
use ze_ospi.Base.{ℕ, ◌≡◌, refl, List, [], ◌∷◌, arith, count_up}
use ze_ospi.Kernel.{Kernel}
use ze_ospi.Sem.{init_semarray}
use ze_ospi.Sched.{default_rr_quantum}
use ze_ospi.Space.{Mm, get_newpb, allocate_page_dir, find_slot, set_user_pages}
use ze_ospi.Boot.{
  init_freequeue, init_readyqueue, init_keyboardqueue, init_sched_rr, init_idle, init_task1, main,
}

module _ (stack_end : ℕ → ℕ) (cpu_idle : ℕ) (arr : List ℕ) (k : Kernel) (mm : Mm) where
  abbrev pub started : Kernel
  started = (main stack_end cpu_idle arr k mm).kernel

  pub main-queues :
      (started.freequeue ≡ 2 ∷ 3 ∷ 4 ∷ 5 ∷ 6 ∷ 7 ∷ 8 ∷ 9 ∷ [])
      × (started.readyqueue ≡ [])
      × (started.keyboardqueue ≡ [])
      × (started.sem_array ≡ init_semarray k.sem_array)
      × (started.idle_task ≡ 0)
      × (started.current ≡ 1)
      × (started.rr_quantum ≡ default_rr_quantum)
      × ((started.task 0).pid ≡ 0)
      × ((started.task 1).pid ≡ 1)
  unfolding main init_freequeue init_readyqueue init_keyboardqueue init_sched_rr init_idle
      init_task1 count_up get_newpb
  main-queues = (refl, refl, refl, refl, refl, refl, refl, refl, refl)

  -- The idle task and the first task get the directories 0 and 1, if `init_mm` has left them free.
  pub main-directories :
      mm.assigned_base_dir 0 ≡ 0
      → mm.assigned_base_dir 1 ≡ 0
      → ((started.task 0).dir_pages_base_addr ≡ 0)
        × ((started.task 1).dir_pages_base_addr ≡ 1)
        × (started.cpu.dir ≡ 1)
  unfolding main init_freequeue init_readyqueue init_keyboardqueue init_sched_rr init_idle
      init_task1 count_up get_newpb set_user_pages allocate_page_dir find_slot
  main-directories z0 z1 = ground (arith, z0, z1)
