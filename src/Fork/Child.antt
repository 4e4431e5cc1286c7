-- ===== src/Fork/Child.antt =====
-- The memory of the child that `sys_fork` makes.
use ze_ospi.Base.{
  ℕ, ◌+◌, ◌^◌, ◌≤◌, ◌<◌, ◌≡◌, refl, ap, ◌∙◌, ◌≢◌, List, ◌∷◌, arith, false, eq→==, pos,
}
use ze_ospi.Frames.{free_mark}
use ze_ospi.Frames.Count.{free_frames}
use ze_ospi.Paging.{nr_tasks, data_page}
use ze_ospi.Space.{heap_start, get_newpb, allocate_page_dir}
use ze_ospi.Sbrk.{page}
use ze_ospi.Duplicate.{Machine, take_frames, finished, copy_user_data, heap_page}
use ze_ospi.Space.Fresh.{Mapped, map_pages-Mapped, user_pages-base}
use ze_ospi.Duplicate.Search.{IsUnused}
use ze_ospi.Duplicate.Heap.{copy_heap-empty}
use ze_ospi.Sched.{ready, sched_update_queues_state_rr}
use ze_ospi.Duplicate.Child.{Child, copy_user_data-Child}
use ze_ospi.Duplicate.Take.{take_frames-Given}
use ze_ospi.Space.Slots.{find_slot_lem}
use ze_ospi.Space.{map_pages}
use ze_ospi.Process.{get_new_pid}
use ze_ospi.Kernel.{Kernel, add32}
use ze_ospi.Fork.{
  with_copy, with_mm, with_kernel, before_heap, before_data, parent_slot, child_slot, start_copy,
  fork_heap, fork_data, sys_fork,
}

module _ (task_at : ℕ → ℕ) (ret_from_fork empty_ph_page : ℕ) where
  child_dir :
      (new : ℕ) (k : Kernel)
      → ((sched_update_queues_state_rr ready new k).task new).dir_pages_base_addr
        ≡ (k.task new).dir_pages_base_addr
  unfolding sched_update_queues_state_rr
  child_dir new k = ground arith

  -- Without a heap there is nothing to copy after the user data.
  fork_heap-empty :
      (last_sp new : ℕ) (s : Machine)
      → s.system.mm.program_breaks (s.system.kernel.task s.system.kernel.current).program_break
        ≡ heap_start
      → let (r, s') = fork_heap task_at ret_from_fork empty_ph_page last_sp new s in
        ((s'.system.kernel.task new).dir_pages_base_addr
          ≡ (s.system.kernel.task new).dir_pages_base_addr)
        × (r ≡ pos (add32 s.system.kernel.last_pid 1))
        × (s'.system.mm.user_pt ≡ s.system.mm.user_pt)
        × (s'.system.mm.phys_mem ≡ s.system.mm.phys_mem)
        × (s'.ram ≡ s.ram)
  unfolding fork_heap before_heap get_newpb get_new_pid
  fork_heap-empty last_sp new s e =
      let k = s.system.kernel in
      let t = k.task k.current in
      let s' = before_heap new s in
      let pb = s'.system.mm.program_breaks t.program_break in
      let at : pb ≡ heap_start = ground (arith, e) in
      let no_heap : heap_page pb 28 ≡ false = rw at refl in
      let is =
        copy_heap-empty empty_ph_page t.dir_pages_base_addr (k.task new).dir_pages_base_addr pb 513
          28 (page (pb + 2 ^ 12)) (start_copy s') no_heap in
      rw is (child_dir new _ ∙ rw (eq→== new new refl) refl, refl, refl, refl, refl)

  pub fork_data-finished :
      (last_sp new : ℕ) (frames : ℕ → ℕ) (s : Machine)
      → s.system.mm.program_breaks (s.system.kernel.task s.system.kernel.current).program_break
        ≡ heap_start
      → let s1 = before_data new frames s in
        let c =
          copy_user_data empty_ph_page (parent_slot s) (child_slot s) 42 0 28 (start_copy s1) in
        c.ending ≡ finished
        → let (r, s') = fork_data task_at ret_from_fork empty_ph_page last_sp new frames s in
          ((s'.system.kernel.task new).dir_pages_base_addr ≡ child_slot s)
          × (r ≡ pos (add32 s.system.kernel.last_pid 1))
          × (s'.system.mm.user_pt ≡ c.tables)
          × (s'.system.mm.phys_mem ≡ c.phys_mem)
          × (s'.ram ≡ c.ram)
  unfolding fork_data before_data allocate_page_dir
  fork_data-finished last_sp new frames s pb e =
      let s1 = before_data new frames s in
      let c = copy_user_data empty_ph_page (parent_slot s) (child_slot s) 42 0 28 (start_copy s1) in
      let same : (s1.system.kernel.task s1.system.kernel.current).program_break
          ≡ (s.system.kernel.task s.system.kernel.current).program_break =
        ground arith in
      let (d, r, tables, mem, ram) =
        fork_heap-empty last_sp new (with_copy c s1) (ap s.system.mm.program_breaks same ∙ pb) in
      rw e (d ∙ rw (eq→== new new refl) refl, r, tables, mem, ram)

  -- If the free queue has a task, 20 frames are free, a page of the parent from 28 on is not in use, a
  -- directory has no references but the parent's has, the parent has no heap, and its data pages lie
  -- in frames in use, then `sys_fork` returns the next PID, and the child's directory, tables and
  -- frames are as `Child` says.
  pub sys_fork-Child :
      (last_sp new q d : ℕ) (ts : List ℕ) (frames : ℕ → ℕ) (s : Machine)
      → s.system.kernel.freequeue ≡ new ∷ ts
      → 20 ≤ free_frames s.system.mm.phys_mem
      → 28 ≤ q
      → q < 256
      → IsUnused empty_ph_page (s.system.mm.user_pt (parent_slot s)) q
      → d < nr_tasks
      → s.system.mm.assigned_base_dir d ≡ 0
      → s.system.mm.assigned_base_dir (parent_slot s) ≢ 0
      → s.system.mm.program_breaks (s.system.kernel.task s.system.kernel.current).program_break
        ≡ heap_start
      → ((k : ℕ)
          → k < 20
          → s.system.mm.phys_mem (s.system.mm.user_pt (parent_slot s) (8 + k)).pbase_addr
            ≢ free_mark)
      → let (r, s') = sys_fork task_at ret_from_fork empty_ph_page last_sp frames s in
        let dir = (s'.system.kernel.task new).dir_pages_base_addr in
        (r ≡ pos (add32 s.system.kernel.last_pid 1))
        × (s.system.mm.assigned_base_dir dir ≡ 0)
        × Child empty_ph_page
            (parent_slot s)
            dir
            s.system.mm.user_pt
            s.system.mm.phys_mem
            s.ram
            s'.system.mm.user_pt
            s'.system.mm.phys_mem
            s'.ram
  unfolding sys_fork
  sys_fork-Child last_sp new q d ts frames s queue enough lo hi u hd zd busy pb used =
      let m = s.system.mm.phys_mem in
      let pt = s.system.mm.user_pt (child_slot s) in
      let (pt', m') = map_pages data_page 20 0 pt m in
      let mapped = map_pages-Mapped data_page 20 0 pt m (λ f h. (user_pages-base f h).1) enough in
      let given = take_frames-Given 20 0 frames pt m enough in
      let slot =
        find_slot_lem nr_tasks 0 d s.system.mm.assigned_base_dir (omega arith) (omega arith) zd in
      let apart : parent_slot s ≢ child_slot s =
        unfold allocate_page_dir in (λ e. busy (ap s.system.mm.assigned_base_dir e ∙ slot.0)) in
      let t = take_frames 20 0 frames m in
      let mapped' : Mapped data_page 20 0 pt m pt' t.phys_mem = rw given.phys_mem mapped in
      let (done, m_same, c) =
        copy_user_data-Child empty_ph_page (parent_slot s) (child_slot s) q s.system.mm.user_pt
          s.ram t.frames apart lo hi u mapped' (λ k h. given.frames k (omega arith) h) used in
      let s0 =
        with_mm (record s.system.mm { phys_mem = t.phys_mem })
          (with_kernel (record s.system.kernel { freequeue = ts }) s) in
      let (at_dir, is, tables, mem, ram) =
        fork_data-finished last_sp new t.frames s0 pb
          (unfold before_data allocate_page_dir in done) in
      let zero_there : s.system.mm.assigned_base_dir (child_slot s) ≡ 0 =
        unfold allocate_page_dir in slot.0 in
      let there : child_slot s0 ≡ child_slot s = unfold allocate_page_dir in refl in
      rw (queue, given.enough)
        (
          is,
          rw at_dir (rw there zero_there),
          rw (at_dir, tables, mem, ram) (unfold before_data allocate_page_dir in (rw m_same c)),
        )
