-- ===== src/Fork/Outcome.antt =====
-- How `sys_fork` ends, and where it leaves the tasks.
use ze_ospi.Base.{
  ℕ, ◌+◌, ◌^◌, ◌≡◌, refl, ap, ◌∙◌, ◌≢◌, ◌⊎◌, inl, inr, List, [], ◌∷◌, arith, true, ◌==◌,
  if◌then◌else◌, Bool-cases, ℤ, pos, neg,
}
use mathlib.Core.Bool.{false≢true}
use ze_ospi.Errno.{entask, enmphp, enepte}
use ze_ospi.Kernel.{Kernel, with_task, add32}
use ze_ospi.Kernel.Places.{count, queued, places}
use ze_ospi.Sched.{ready}
use ze_ospi.Sched.Conserve.{
  sched_update_queues_state_rr-queued, sched_update_queues_state_rr-current,
}
use ze_ospi.Sched.Untouched.{
  sched_update_queues_state_rr_ready-sem_array, sched_update_queues_state_rr-idle_task,
}
use ze_ospi.Process.{get_new_pid}
use ze_ospi.Duplicate.{
  Machine, Copy, Taken, Ending, finished, no_page, no_frame, endless, take_frames, copy_user_data,
  copy_heap,
}
use ze_ospi.Duplicate.Data.{copy_user_data-Kept, copy_user_data-no_page}
use ze_ospi.Duplicate.Heap.{ended, copy_heap-ended}
use ze_ospi.Sbrk.{page}
use ze_ospi.Fork.{
  with_mm, with_kernel, before_heap, before_data, parent_slot, child_slot, start_copy, with_copy,
  after_copy, finish, fork_heap, fork_data, fork_frames, fork_from, sys_fork, forked,
}

module _ (task_at : ℕ → ℕ) (ret_from_fork empty_ph_page : ℕ) where
  after_copy-cases :
      (P : ℤ × Machine → Type 0) (c : Copy) (s : Machine) (next : Machine → ℤ × Machine)
      → ended c.ending ≡ true
      → P (next (with_copy c s))
      → P (neg enepte, with_copy c s)
      → P (neg enmphp, with_copy c s)
      → P (after_copy task_at ret_from_fork empty_ph_page c s next)
  after_copy-cases P c s next e a b d = go c.ending e
    where
      go :
          (x : Ending)
          → ended x ≡ true
          → P (elim x [
            | finished ↦ next (with_copy c s)
            | no_page ↦ (neg enepte, with_copy c s)
            | no_frame ↦ (neg enmphp, with_copy c s)
            | endless ↦ (pos 0, with_copy c s)
          ])
      go finished e = a
      go no_page e = b
      go no_frame e = d
      go endless e = absurd (false≢true e)

  data_ended :
      (cur new : ℕ) (s : Copy)
      → ended (copy_user_data empty_ph_page cur new 42 0 28 s).ending ≡ true
  data_ended cur new s = elim (copy_user_data-no_page empty_ph_page cur new 41 s) [
    | inl (q, lo, hi, u) ↦
        rw
          (copy_user_data-Kept empty_ph_page cur new 20 42 0 28 q s refl (omega arith) (omega arith)
            (omega arith) lo hi u (λ z. refl)).0
          refl
    | inr is ↦ rw is refl
  ]

  module _ (new : ℕ) (ts : List ℕ) (k0 : Kernel) where
    -- The state differs from the first one in the tasks, and in that `new` has been taken.
    abbrev Drawn : Machine → Type 0
    Drawn s = s.system.kernel ≡ record k0 { freequeue = ts; task = s.system.kernel.task }

    -- Either the child is in the ready queue, or the task for it is lost.
    abbrev pub Ends : ℕ → ℤ × Machine → Type 0
    Ends u (r, s) =
        (s.system.kernel.sem_array ≡ k0.sem_array)
        × (s.system.kernel.idle_task ≡ k0.idle_task)
        × (((r ≡ pos (add32 k0.last_pid 1)) × (places s.system.kernel u ≡ places k0 u))
            ⊎ (((r ≡ neg enepte) ⊎ (r ≡ neg enmphp))
                × (places s.system.kernel u + (if new == u then 1 else 0) ≡ places k0 u)))

    module _ (u : ℕ) (drawn : k0.freequeue ≡ new ∷ ts) (ne : u ≢ k0.idle_task) where
      lost-Ends :
          (r : ℤ) (s : Machine) → Drawn s → (r ≡ neg enepte) ⊎ (r ≡ neg enmphp) → Ends u (r, s)
      unfolding queued
      lost-Ends r s d e = (
        ap (λ (k : Kernel). k.sem_array) d,
        ap (λ (k : Kernel). k.idle_task) d,
        inr (e, rw d (omega (arith, ap (count u) drawn))),
      )

      finish-Ends :
          (last_sp : ℕ) (s : Machine)
          → Drawn s
          → Ends u (finish task_at ret_from_fork empty_ph_page last_sp new s)
      unfolding get_new_pid
      finish-Ends last_sp s d =
          let (pid, k) = get_new_pid s.system.kernel in
          let k' = with_task new (forked task_at ret_from_fork empty_ph_page last_sp new pid k) k in
          let at : queued k' u
              ≡ queued (record k0 { freequeue = ts; task = s.system.kernel.task }) u =
            unfold queued in (ap (λ (k : Kernel). queued k u) d) in
          let taken : queued k' u + (if new == u then 1 else 0) ≡ queued k0 u =
            unfold queued in (omega (arith, at, ap (count u) drawn)) in
          let same : (k'.current ≡ k0.current) × (k'.idle_task ≡ k0.idle_task) =
            (ap (λ (k : Kernel). k.current) d, ap (λ (k : Kernel). k.idle_task) d) in
          (
            sched_update_queues_state_rr_ready-sem_array new k'
                ∙ ap (λ (k : Kernel). k.sem_array) d,
            sched_update_queues_state_rr-idle_task ready new k' ∙ same.1,
            inl (
              ap (λ (k : Kernel). pos (add32 k.last_pid 1)) d,
              ground (
                arith,
                taken,
                same,
                sched_update_queues_state_rr-queued ready new k' u tt,
                sched_update_queues_state_rr-current ready new k',
              ),
            ),
          )

      heap-Ends :
          (last_sp : ℕ) (s : Machine)
          → Drawn s
          → Ends u (fork_heap task_at ret_from_fork empty_ph_page last_sp new s)
      unfolding fork_heap before_heap
      heap-Ends last_sp s d =
          let cur = parent_slot s in
          let dir = (s.system.kernel.task new).dir_pages_base_addr in
          let s' = before_heap new s in
          let pb =
            s'.system.mm.program_breaks
              (s.system.kernel.task s.system.kernel.current).program_break in
          let c = copy_heap empty_ph_page cur dir pb 514 28 (page (pb + 2 ^ 12)) (start_copy s') in
          let d' : Drawn (with_copy c s') =
            ap (λ (k : Kernel). record k { task = s'.system.kernel.task }) d in
          after_copy-cases (Ends u) c s' (finish task_at ret_from_fork empty_ph_page last_sp new)
            (copy_heap-ended empty_ph_page cur dir pb (start_copy s'))
            (finish-Ends last_sp (with_copy c s') d')
            (lost-Ends (neg enepte) (with_copy c s') d' (inl refl))
            (lost-Ends (neg enmphp) (with_copy c s') d' (inr refl))

      data-Ends :
          (last_sp : ℕ) (frames : ℕ → ℕ) (s : Machine)
          → Drawn s
          → Ends u (fork_data task_at ret_from_fork empty_ph_page last_sp new frames s)
      unfolding fork_data before_data
      data-Ends last_sp frames s d =
          let s' = before_data new frames s in
          let c =
            copy_user_data empty_ph_page (parent_slot s) (child_slot s) 42 0 28 (start_copy s') in
          let d' : Drawn (with_copy c s') =
            ap (λ (k : Kernel). record k { task = s'.system.kernel.task }) d in
          after_copy-cases (Ends u) c s' (fork_heap task_at ret_from_fork empty_ph_page last_sp new)
            (data_ended (parent_slot s) (child_slot s) (start_copy s'))
            (heap-Ends last_sp (with_copy c s') d')
            (lost-Ends (neg enepte) (with_copy c s') d' (inl refl))
            (lost-Ends (neg enmphp) (with_copy c s') d' (inr refl))

      frames-Ends :
          (last_sp : ℕ) (t : Taken) (s : Machine)
          → Drawn s
          → Ends u (fork_frames task_at ret_from_fork empty_ph_page last_sp new t s)
      frames-Ends last_sp t s d =
          let s' = with_mm (record s.system.mm { phys_mem = t.phys_mem }) s in
          elim (Bool-cases t.enough) [
            | inl e ↦ rw e (data-Ends last_sp t.frames s' d)
            | inr e ↦ rw e (lost-Ends (neg enmphp) s' d (inr refl))
          ]

  fork_from-Ends :
      (xs : List ℕ) (last_sp : ℕ) (frames : ℕ → ℕ) (s : Machine) (u : ℕ)
      → s.system.kernel.freequeue ≡ xs
      → u ≢ s.system.kernel.idle_task
      → let r = fork_from task_at ret_from_fork empty_ph_page xs last_sp frames s in
        ((xs ≡ []) × (r ≡ (neg entask, s)))
        ⊎ ((new : ℕ) × (ts : List ℕ) × (xs ≡ new ∷ ts) × Ends new ts s.system.kernel u r)
  fork_from-Ends [] last_sp frames s u e ne = inl (refl, refl)
  fork_from-Ends (new ∷ ts) last_sp frames s u e ne =
      let t = take_frames 20 0 frames s.system.mm.phys_mem in
      let s' = with_kernel (record s.system.kernel { freequeue = ts }) s in
      inr (new, ts, refl, frames-Ends new ts s.system.kernel u e ne last_sp t s' refl)

  -- `sys_fork` comes to its end in one of three ways. With an empty free queue it returns -ENTASK and
  -- changes nothing. Otherwise it takes the first task of the free queue, and either returns the next
  -- PID and leaves every task, but the idle one, in as many places as before, or it returns -ENEPTE or
  -- -ENMPHP and the task that it took is in one place less. The semaphores and the idle task stay.
  -- What a copy of a heap does to the kernel's own data is not followed.
  pub sys_fork-ends :
      (last_sp : ℕ) (frames : ℕ → ℕ) (s : Machine) (u : ℕ)
      → u ≢ s.system.kernel.idle_task
      → let (r, s') = sys_fork task_at ret_from_fork empty_ph_page last_sp frames s in
        let k = s.system.kernel in
        ((k.freequeue ≡ []) × (r ≡ neg entask) × (s' ≡ s))
        ⊎ ((new : ℕ) × (ts : List ℕ) × (k.freequeue ≡ new ∷ ts)
            × (s'.system.kernel.sem_array ≡ k.sem_array)
            × (s'.system.kernel.idle_task ≡ k.idle_task)
            × (((r ≡ pos (add32 k.last_pid 1)) × (places s'.system.kernel u ≡ places k u))
                ⊎ (((r ≡ neg enepte) ⊎ (r ≡ neg enmphp))
                    × (places s'.system.kernel u + (if new == u then 1 else 0) ≡ places k u))))
  unfolding sys_fork
  sys_fork-ends last_sp frames s u ne =
      elim (fork_from-Ends s.system.kernel.freequeue last_sp frames s u refl ne) [
        | inl (e, is) ↦ inl (e, ap (λ (p : ℤ × Machine). p.0) is, ap (λ (p : ℤ × Machine). p.1) is)
        | inr (new, ts, e, ends) ↦ inr (new, ts, e, ends.0, ends.1, ends.2)
      ]
