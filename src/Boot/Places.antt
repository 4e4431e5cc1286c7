-- ===== src/Boot/Places.antt =====
-- At the start every task is in exactly one place, and the semaphores are consistent.
use ze_ospi.Base.{ℕ, ◌<◌, ◌≡◌, ap, ◌∙◌, List, [], arith}
use ze_ospi.Kernel.{Kernel, Sem}
use ze_ospi.Kernel.Places.{count, count_sems-empty, sem_size, queued, places}
use ze_ospi.Sem.{init_semarray}
use ze_ospi.Sem.Consistent.{IsConsistent}
use ze_ospi.Space.{Mm}
use ze_ospi.Boot.Start.{started, main-queues}

init_semarray-semqueue : (s : ℕ → Sem) (n : ℕ) → (init_semarray s n).semqueue ≡ (s n).semqueue
unfolding init_semarray
init_semarray-semqueue s n = ground arith

module _ (stack_end : ℕ → ℕ) (cpu_idle : ℕ) (arr : List ℕ) (k : Kernel) (mm : Mm)
    (no_waiters : (n : ℕ) → (k.sem_array n).semqueue ≡ []) where
  abbrev start : Kernel
  start = started stack_end cpu_idle arr k mm

  empty : (n : ℕ) → (start.sem_array n).semqueue ≡ []
  empty n =
      let q = main-queues stack_end cpu_idle arr k mm in
      ap (λ (f : ℕ → Sem). (f n).semqueue) q.3 ∙ init_semarray-semqueue k.sem_array n ∙ no_waiters n

  pub start-IsConsistent : IsConsistent start
  start-IsConsistent n = record { unused = λ _. empty n; closed = λ _. empty n }

  pub start-places : (u : ℕ) → 0 < u → u < 10 → places start u ≡ 1
  unfolding queued
  start-places u lo hi =
      let q = main-queues stack_end cpu_idle arr k mm in
      ground (
        arith,
        ap (count u) q.0,
        ap (count u) q.1,
        ap (count u) q.2,
        count_sems-empty u sem_size start.sem_array empty,
        q.5,
      )
