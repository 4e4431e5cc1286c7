-- ===== src/Fork/Places.antt =====
-- How `sys_fork` ends for a parent without a heap: the loop over the heap pages of sys.c copies to
-- addresses of the kernel, so that nothing is claimed of a kernel in which it has made a round.
use ze_ospi.Base.{
  ℕ, ◌+◌, ◌≤◌, ◌<◌, ◌≡◌, refl, sym, ap, ◌∙◌, ◌≢◌, ◌⊎◌, inl, inr, List, [], ◌∷◌, arith, ltb,
  Bool-cases, ltb→lt, ltb→le, ◌==◌, if◌then◌else◌, ℤ, pos, negsuc, neg,
}
use ze_ospi.Errno.{entask, enmphp, enepte}
use ze_ospi.Frames.Count.{free_frames}
use ze_ospi.Kernel.{add32}
use ze_ospi.Kernel.Places.{places}
use ze_ospi.Space.{heap_start}
use ze_ospi.Duplicate.{Machine, take_frames}
use ze_ospi.Duplicate.Data.{copy_user_data-Kept, copy_user_data-no_page}
use ze_ospi.Duplicate.Take.{take_frames-Given}
use ze_ospi.Fork.{
  with_mm, with_kernel, before_data, parent_slot, child_slot, start_copy, fork_data, fork_from,
  sys_fork,
}
use ze_ospi.Fork.Outcome.{sys_fork-ends}
use ze_ospi.Fork.Child.{fork_data-finished}

-- The running task has no heap.
abbrev pub HasNoHeap : Machine → Type 0
HasNoHeap s =
    s.system.mm.program_breaks (s.system.kernel.task s.system.kernel.current).program_break
    ≡ heap_start

abbrev is_enmphp : ℤ → ℕ
is_enmphp (pos n) = 0
is_enmphp (negsuc n) = if n + 1 == enmphp then 1 else 0

module _ (task_at : ℕ → ℕ) (ret_from_fork empty_ph_page : ℕ) where
  -- With its frames, the call fails for want of an unused page only.
  fork_data-frames :
      (last_sp new : ℕ) (frames : ℕ → ℕ) (s : Machine)
      → HasNoHeap s
      → is_enmphp ((fork_data task_at ret_from_fork empty_ph_page last_sp new frames s).0) ≡ 0
  unfolding fork_data
  fork_data-frames last_sp new frames s no_heap =
      let s1 = start_copy (before_data new frames s) in
      let cur = parent_slot s in
      elim (copy_user_data-no_page empty_ph_page cur (child_slot s) 41 s1) [
        | inl (q, lo, hi, u) ↦
            let done =
              copy_user_data-Kept empty_ph_page cur (child_slot s) 20 42 0 28 q s1 refl
                (omega arith) (omega arith) (omega arith) lo hi u (λ z. refl) in
            ap is_enmphp
              (fork_data-finished task_at ret_from_fork empty_ph_page last_sp new frames s no_heap
                (done.0)).1
        | inr is ↦ rw is refl
      ]

  fork_from-frames :
      (xs : List ℕ) (last_sp : ℕ) (frames : ℕ → ℕ) (s : Machine)
      → HasNoHeap s
      → 20 ≤ free_frames s.system.mm.phys_mem
      → is_enmphp ((fork_from task_at ret_from_fork empty_ph_page xs last_sp frames s).0) ≡ 0
  fork_from-frames [] last_sp frames s no_heap enough = refl
  fork_from-frames (new ∷ ts) last_sp frames s no_heap enough =
      let m = s.system.mm.phys_mem in
      let t = take_frames 20 0 frames m in
      let given = take_frames-Given 20 0 frames (s.system.mm.user_pt 0) m enough in
      let s0 =
        with_mm (record s.system.mm { phys_mem = t.phys_mem })
          (with_kernel (record s.system.kernel { freequeue = ts }) s) in
      rw given.enough (fork_data-frames last_sp new t.frames s0 no_heap)

  short_of_frames :
      (last_sp : ℕ) (frames : ℕ → ℕ) (s : Machine)
      → HasNoHeap s
      → (sys_fork task_at ret_from_fork empty_ph_page last_sp frames s).0 ≡ neg enmphp
      → free_frames s.system.mm.phys_mem < 20
  unfolding sys_fork
  short_of_frames last_sp frames s no_heap e =
      elim (Bool-cases (ltb (free_frames s.system.mm.phys_mem) 20)) [
        | inl short ↦ ltb→lt (free_frames s.system.mm.phys_mem) 20 short
        | inr enough ↦
            let other =
              fork_from-frames s.system.kernel.freequeue last_sp frames s no_heap
                (ltb→le (free_frames s.system.mm.phys_mem) 20 enough) in
            absurd (omega (arith, sym (ap is_enmphp e) ∙ other))
      ]

  -- For a parent without a heap, `sys_fork` comes to its end in one of three ways. With an empty free
  -- queue it returns -ENTASK and changes nothing. Otherwise it takes the first task of the free queue,
  -- and either returns the next PID and leaves every task, but the idle one, in as many places as
  -- before; or it returns -ENEPTE, or -ENMPHP if fewer than 20 frames are free, and the task that it
  -- took is in one place less. The semaphores and the idle task stay.
  pub sys_fork-places :
      (last_sp : ℕ) (frames : ℕ → ℕ) (s : Machine) (u : ℕ)
      → u ≢ s.system.kernel.idle_task
      → HasNoHeap s
      → let (r, s') = sys_fork task_at ret_from_fork empty_ph_page last_sp frames s in
        let k = s.system.kernel in
        ((k.freequeue ≡ []) × (r ≡ neg entask) × (s' ≡ s))
        ⊎ ((new : ℕ) × (ts : List ℕ) × (k.freequeue ≡ new ∷ ts)
            × (s'.system.kernel.sem_array ≡ k.sem_array)
            × (s'.system.kernel.idle_task ≡ k.idle_task)
            × (((r ≡ pos (add32 k.last_pid 1)) × (places s'.system.kernel u ≡ places k u))
                ⊎ (((r ≡ neg enepte) ⊎ ((r ≡ neg enmphp) × (free_frames s.system.mm.phys_mem < 20)))
                    × (places s'.system.kernel u + (if new == u then 1 else 0) ≡ places k u))))
  sys_fork-places last_sp frames s u ne no_heap =
      elim (sys_fork-ends task_at ret_from_fork empty_ph_page last_sp frames s u ne) [
        | inl none_free ↦ inl none_free
        | inr (new, ts, e, sems, idle, inl made) ↦ inr (new, ts, e, sems, idle, inl made)
        | inr (new, ts, e, sems, idle, inr (inl no_page, less)) ↦
            inr (new, ts, e, sems, idle, inr (inl no_page, less))
        | inr (new, ts, e, sems, idle, inr (inr no_frame, less)) ↦ inr (
          new,
          ts,
          e,
          sems,
          idle,
          inr (inr (no_frame, short_of_frames last_sp frames s no_heap no_frame), less),
        )
      ]
