-- ===== src/Fork.antt =====
-- sys.c, `sys_fork` as a whole.
pub mod Outcome
pub mod Child
pub mod Short
pub mod Places
use ze_ospi.Base.{ℕ, ◌+◌, ◌*◌, ◌/◌, ◌^◌, List, [], ◌∷◌, if◌then◌else◌, ℤ, pos, neg}
use ze_ospi.Errno.{entask, enmphp, enepte}
use ze_ospi.Kernel.{Task, st_ready, Kernel, with_task, sub32}
use ze_ospi.Utils.{num_pag_data}
use ze_ospi.Sched.{ready, sched_update_queues_state_rr}
use ze_ospi.Space.{Mm, set_at, allocate_page_dir, get_newpb}
use ze_ospi.Sbrk.{page}
use ze_ospi.Process.{get_new_pid, proc_first_free_pag}
use ze_ospi.Duplicate.{
  Machine, set_table, Taken, take_frames, Copy, finished, no_page, no_frame, endless,
  copy_user_data, copy_heap, child_table, data_rounds, heap_rounds,
}

-- The memory as a loop leaves it.
abbrev pub with_copy : Copy → Machine → Machine
with_copy c s = record {
  system = record s.system {
    mm = record s.system.mm { phys_mem = c.phys_mem; user_pt = c.tables };
  };
  ram = c.ram;
}

abbrev pub with_kernel : Kernel → Machine → Machine
with_kernel k s = record s { system = record s.system { kernel = k } }

abbrev pub with_mm : Mm → Machine → Machine
with_mm mm s = record s { system = record s.system { mm = mm } }

abbrev pub start_copy : Machine → Copy
start_copy s = record {
  ending = finished;
  tables = s.system.mm.user_pt;
  phys_mem = s.system.mm.phys_mem;
  ram = s.ram;
}

-- `*(new->program_break) = *(current->program_break)`
abbrev pub share_break : Task → Task → Mm → Mm
share_break new cur mm = record mm {
  program_breaks = set_at mm.program_breaks new.program_break (mm.program_breaks cur.program_break);
}

-- The break of the child is set to the parent's.
unfoldable pub before_heap : (new : ℕ) → Machine → Machine
before_heap new s =
    let k = s.system.kernel in
    let (p, mm) = get_newpb (k.task new) s.system.mm in
    with_mm (share_break p (k.task k.current) mm) (with_kernel (with_task new p k) s)

abbrev pub parent_slot : Machine → ℕ
parent_slot s = (s.system.kernel.task s.system.kernel.current).dir_pages_base_addr

-- The directory that the child gets.
abbrev pub child_slot : Machine → ℕ
child_slot s =
    (allocate_page_dir (s.system.kernel.task s.system.kernel.current)
      s.system.mm).0.dir_pages_base_addr

-- From the copy of the stack to the entries of the data pages.
unfoldable pub before_data : (new : ℕ) → (frames : ℕ → ℕ) → Machine → Machine
before_data new frames s =
    let k = s.system.kernel in
    let (p, mm) = allocate_page_dir (k.task k.current) s.system.mm in
    let dir = p.dir_pages_base_addr in
    let tables =
      set_table mm.user_pt dir (child_table frames (mm.user_pt (parent_slot s)) (mm.user_pt dir)) in
    with_mm (record mm { user_pt = tables }) (with_kernel (with_task new p k) s)

module _ (task_at : ℕ → ℕ) (ret_from_fork empty_ph_page : ℕ) where
  -- The fields that are set at the end.
  abbrev pub forked : (last_sp new pid : ℕ) → Kernel → Task
  forked last_sp new pid k =
      let t = k.task k.current in
      let p = k.task new in
      record p {
        kernel_sp = task_at new + 4 * (sub32 last_sp (task_at k.current) / 4);
        kernel_lr = ret_from_fork;
        user_sp = t.user_sp;
        user_lr = t.user_lr;
        process_state = st_ready;
        statistics = record p.statistics { tics = 0; cs = 0 };
        pid = pid;
      }

  -- From "Setting the returning state" on.
  abbrev pub finish : (last_sp new : ℕ) → Machine → ℤ × Machine
  finish last_sp new s =
      let (pid, k) = get_new_pid s.system.kernel in
      (
        pos pid,
        with_kernel
            (sched_update_queues_state_rr ready new (with_task new (forked last_sp new pid k) k)) s,
      )

  -- What follows a loop, by how it ended.
  abbrev pub after_copy : Copy → Machine → (Machine → ℤ × Machine) → ℤ × Machine
  after_copy c s next = elim c.ending [
    | finished ↦ next (with_copy c s)
    | no_page ↦ (neg enepte, with_copy c s)
    | no_frame ↦ (neg enmphp, with_copy c s)
    | endless ↦ (pos 0, with_copy c s)
  ]

  -- "Copy Heap data". The copy takes the user's page numbers for addresses, so that it lands in frames
  -- of the kernel: `ram` has it, and the kernel's state, which is kept apart, has not.
  unfoldable pub fork_heap : (last_sp new : ℕ) → Machine → ℤ × Machine
  fork_heap last_sp new s =
      let k = s.system.kernel in
      let t = k.task k.current in
      let s' = before_heap new s in
      let pb = s'.system.mm.program_breaks t.program_break in
      after_copy
        (copy_heap empty_ph_page t.dir_pages_base_addr (k.task new).dir_pages_base_addr pb
          heap_rounds proc_first_free_pag (page (pb + 2 ^ 12)) (start_copy s'))
        s' (finish last_sp new)

  -- "Copy user data"
  unfoldable pub fork_data : (last_sp new : ℕ) → (ℕ → ℕ) → Machine → ℤ × Machine
  fork_data last_sp new frames s =
      let s' = before_data new frames s in
      after_copy
        (copy_user_data empty_ph_page (parent_slot s) (child_slot s) data_rounds 0
          proc_first_free_pag (start_copy s'))
        s' (fork_heap last_sp new)

  abbrev pub fork_frames : (last_sp new : ℕ) → Taken → Machine → ℤ × Machine
  fork_frames last_sp new taken s =
      let s' = with_mm (record s.system.mm { phys_mem = taken.phys_mem }) s in
      if taken.enough then fork_data last_sp new taken.frames s' else (neg enmphp, s')

  -- The array `frames` is on the stack, and not initialised.
  abbrev pub fork_from : List ℕ → (last_sp : ℕ) → (ℕ → ℕ) → Machine → ℤ × Machine
  fork_from [] last_sp frames s = (neg entask, s)
  fork_from (new ∷ ts) last_sp frames s =
      fork_frames last_sp new (take_frames num_pag_data 0 frames s.system.mm.phys_mem)
        (with_kernel (record s.system.kernel { freequeue = ts }) s)

  unfoldable pub sys_fork : (last_sp : ℕ) → (ℕ → ℕ) → Machine → ℤ × Machine
  sys_fork last_sp frames s = fork_from s.system.kernel.freequeue last_sp frames s
