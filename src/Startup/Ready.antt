-- ===== src/Startup/Ready.antt =====
-- What the start of the kernel leaves.
use ze_ospi.Base.{
  ℕ, ◌+◌, ◌-◌, ◌*◌, ◌/◌, ◌%◌, ◌^◌, ◌<◌, ◌≤◌, ◌≡◌, refl, ◌∙◌, arith, List, [], ◌∷◌, ◌++◌, true,
  false, chars, lt→ltb, inr, count_up,
}
use ze_ospi.Utils.{move}
use ze_ospi.Utils.Copy.{copy_data_lem}
use ze_ospi.Output.{printk}
use ze_ospi.Devices.{irq_base, load, set_interruptions, enable_interrupt_peripheral}
use ze_ospi.Devices.Map.{frame_at, devices-kernel_frame}
use ze_ospi.Duplicate.{kernel_frame}
use ze_ospi.Kernel.Stack.{initial_kernel_stack, stack_at, kernel_stack_size}
use ze_ospi.Paging.Empty.{word_at, init_empty_pages_lem}
use ze_ospi.Paging
use ze_ospi.Space
use ze_ospi.Boot.{init_mm}
use ze_ospi.Boot.Start.{main-queues, main-directories}
use ze_ospi.Processor.{usr, irq, svc, bank, execute_all, execute, set_worlds_stacks}
use ze_ospi.Processor.Gate.{enter_user, set_worlds_stacks_lem}
use ze_ospi.Processor.Mmu as Mmu
use ze_ospi.Processor.Mmu.{
  reg, ttb0, ttb1, control_reg, mrc, mmu_change_dir, flush_remapped, set_exception_base,
}
use ze_ospi.Processor.Mmu.Order.{Watch, watch, start_mmu_lem}
use ze_ospi.Startup.{
  Linked, Computer, kernel_start, ph_user_start, sys_size, usr_size, set_initial_stack, print_text,
  memory_started, devices_started, tasks_made, user_copied, start,
}

free_directory :
    (empty_ph_page sl_ptable empty_sl_ptable i : ℕ) (c : Computer)
    → i < 2
    → (init_mm empty_ph_page sl_ptable empty_sl_ptable c.board.tables c.dirs
          c.system.mm).assigned_base_dir
        i
      ≡ 0
unfolding init_mm Paging.init_dir_pages count_up Space.init_pb
free_directory empty_ph_page sl_ptable empty_sl_ptable i c h = ground (arith, h)

module _ (l : Linked) (chosen : ℕ) (arr : List ℕ) (c : Computer) where
  abbrev pub started : Computer
  started = start l chosen arr c

  start-sent : started.sent ≡ c.sent ++ chars "Kernel Loaded!\n" ++ chars "Entering user mode...\n"
  unfolding start print_text devices_started memory_started tasks_made user_copied printk
  start-sent = refl

  pub start-memory :
      usr_size c.memory < 2 ^ 31
      → kernel_start + sys_size c.memory + usr_size c.memory ≤ ph_user_start
      → started.memory
        ≡ move (usr_size c.memory) (kernel_start + sys_size c.memory) ph_user_start c.memory
  unfolding start print_text devices_started memory_started tasks_made user_copied
  start-memory small before =
      rw (lt→ltb (usr_size c.memory) (2 ^ 31) small)
        (copy_data_lem (kernel_start + sys_size c.memory) ph_user_start (usr_size c.memory) c.memory
          (inr (omega (arith, before))) (omega (arith, before)) (omega (arith, small))).0

  start-frames : (i p : ℕ) → i < 10 → p < 256 → frame_at started.board.tables i p ≡ kernel_frame p
  unfolding start print_text devices_started memory_started tasks_made user_copied
  start-frames i p hi hp =
      devices-kernel_frame l.empty_ph_page i p c.board.registers c.board.tables hi hp

  start-interrupts :
      (load (irq_base + 0x210) started.board.registers ≡ 2 ^ 29)
      × (load (irq_base + 0x218) started.board.registers ≡ 1)
  unfolding start print_text devices_started memory_started tasks_made user_copied set_interruptions
      enable_interrupt_peripheral
  start-interrupts = (refl, refl)

  start-pattern :
      (k : ℕ)
      → k < 512
      → (word_at k 0 started.empty.1 ≡ 0x01234567) × (word_at k 4 started.empty.1 ≡ 0x89abcdef)
  unfolding start print_text devices_started memory_started tasks_made user_copied
  start-pattern k h =
      let (_, low, high) =
        init_empty_pages_lem l.empty_ph_page c.empty.0 c.empty.1 0 k (omega arith) h in
      (low, high)

  start-processor :
      c.processor.mode ≡ svc
      → l.task + 10 * 2 ^ 12 ≤ 2 ^ 32
      → let u = started.processor in
        (u.pc ≡ 0x100000)
        × (u.mode ≡ usr)
        × (u.flags / 4 % 2 ≡ 0)
        × (u.sp (bank usr) ≡ 0x11BFF0)
        × (u.sp irq ≡ initial_kernel_stack l.task - 0x500)
        × (u.sp svc ≡ initial_kernel_stack l.task)
  unfolding start print_text devices_started memory_started tasks_made user_copied set_initial_stack
      execute_all execute
  start-processor kernel below =
      let stack = initial_kernel_stack l.task in
      let p = set_initial_stack stack c.processor in
      let q = set_worlds_stacks stack p in
      let top : p.sp svc ≡ stack = rw kernel refl in
      let (mode, _, at, _) =
        set_worlds_stacks_lem stack p svc kernel (omega arith) (omega (arith, below)) in
      let (pc, user, on, sp, isp, _, _, ksp) =
        enter_user stack p q kernel (omega arith) (omega (arith, below)) mode
          (omega (arith, at, top)) (omega (arith, at, top, below)) (λ m ne. refl) in
      (pc, user, on, sp, isp, ksp ∙ at ∙ top)

  start-tables :
      (mrc ttb0 started.coprocessor ≡ l.fl_ptable + 4096 * 4)
      × (mrc ttb1 started.coprocessor ≡ l.fl_ptable + 4096 * 4)
      × ((started.system.kernel.task 1).dir_pages_base_addr ≡ 1)
  unfolding start print_text devices_started memory_started tasks_made user_copied mmu_change_dir
      flush_remapped
  start-tables =
      let mm =
        init_mm l.empty_ph_page l.sl_ptable l.empty_sl_ptable c.board.tables c.dirs c.system.mm in
      let (_, dir, cpu) =
        main-directories (λ i. stack_at l.task i (kernel_stack_size - 1)) l.cpu_idle arr
          c.system.kernel mm
          (free_directory l.empty_ph_page l.sl_ptable l.empty_sl_ptable 0 c (omega arith))
          (free_directory l.empty_ph_page l.sl_ptable l.empty_sl_ptable 1 c (omega arith)) in
      (rw cpu (omega arith), rw cpu (omega arith), dir)

  -- The state in which the user's program begins.
  pub record IsReady (before : Watch) : Type 0 where
    -- The processor is in user mode at the program's first instruction, with its stack, and takes
    -- interrupts on a stack of their own; the kernel's is empty.
    pub at_user : (started.processor.pc ≡ 0x100000) × (started.processor.mode ≡ usr)
    pub interruptible : started.processor.flags / 4 % 2 ≡ 0
    pub user_stack : started.processor.sp (bank usr) ≡ 0x11BFF0
    pub stacks :
        (started.processor.sp irq ≡ initial_kernel_stack l.task - 0x500)
        × (started.processor.sp svc ≡ initial_kernel_stack l.task)
    -- The memory unit translates by the tables of task 1, and the exceptions have their table.
    pub translated :
        (mrc ttb0 started.coprocessor ≡ l.fl_ptable + 4096 * 4)
        × (mrc ttb1 started.coprocessor ≡ l.fl_ptable + 4096 * 4)
        × ((started.system.kernel.task 1).dir_pages_base_addr ≡ 1)
        × (mrc control_reg started.coprocessor % 2 ≡ 1)
        × ((watch before started.coprocessor.writes).stale ≡ false)
        × (mrc (reg 0 12 0 0) started.coprocessor ≡ l.exception_vector_table)
    -- Each task has the kernel's pages, and the devices' in the places that the kernel keeps for them.
    pub frames : (i p : ℕ) → i < 10 → p < 256 → frame_at started.board.tables i p ≡ kernel_frame p
    -- The unused pages are at the frame of the pattern.
    pub pattern :
        (k : ℕ)
        → k < 512
        → (word_at k 0 started.empty.1 ≡ 0x01234567) × (word_at k 4 started.empty.1 ≡ 0x89abcdef)
    -- The interrupts of the UART and of the timer are on.
    pub devices :
        (load (irq_base + 0x210) started.board.registers ≡ 2 ^ 29)
        × (load (irq_base + 0x218) started.board.registers ≡ 1)
    -- Task 1 runs, task 0 idles, and the others are free.
    pub tasks :
        (started.system.kernel.current ≡ 1)
        × (started.system.kernel.idle_task ≡ 0)
        × (started.system.kernel.freequeue ≡ 2 ∷ 3 ∷ 4 ∷ 5 ∷ 6 ∷ 7 ∷ 8 ∷ 9 ∷ [])
        × (started.system.kernel.readyqueue ≡ [])
    -- The program stands at the user's first address, and no other byte has changed, but for what the
    -- other fields stand for.
    pub image :
        started.memory
        ≡ move (usr_size c.memory) (kernel_start + sys_size c.memory) ph_user_start c.memory
    pub messages :
        started.sent ≡ c.sent ++ chars "Kernel Loaded!\n" ++ chars "Entering user mode...\n"

  -- From its first instruction in the kernel's mode, with translation off, `main` brings the computer to
  -- the state in which the user's program begins: `IsReady` says which. The array of the tasks is to lie
  -- below 2 ^ 32; the two programs are to end at the devices' pages, at 0xF0000, at most, and the
  -- user's is to fit into the 28 pages that have frames.
  pub start-IsReady :
      (before : Watch)
      → c.processor.mode ≡ svc
      → l.task + 10 * 2 ^ 12 ≤ 2 ^ 32
      → mrc control_reg c.coprocessor % 2 ≡ 0
      → (watch before c.coprocessor.writes).on ≡ false
      → (watch before c.coprocessor.writes).sound ≡ true
      → kernel_start + sys_size c.memory + usr_size c.memory ≤ 0xF0000
      → usr_size c.memory ≤ 28 * 2 ^ 12
      → IsReady before
  unfolding start print_text devices_started memory_started tasks_made user_copied
      set_exception_base flush_remapped mmu_change_dir Mmu.start_mmu Mmu.enable_icache
  start-IsReady before kernel below off no_mmu sound below_devices fits =
      let (pc, user, on, sp, isp, ksp) = start-processor kernel below in
      let vectors = set_exception_base l.exception_vector_table c.coprocessor in
      let still : (watch before vectors.writes).sound ≡ true = ground (arith, no_mmu, sound) in
      let (_, _, _, enabled, _, _, base, _, _, _) =
        start_mmu_lem (l.fl_ptable + 4096 * 4) chosen vectors before off no_mmu still in
      let table = start-tables in
      let (free, ready, _, _, idle, current, _, _, _) =
        main-queues (λ i. stack_at l.task i (kernel_stack_size - 1)) l.cpu_idle arr c.system.kernel
          (init_mm l.empty_ph_page l.sl_ptable l.empty_sl_ptable c.board.tables c.dirs
            c.system.mm) in
      record {
        at_user = (pc, user);
        interruptible = on;
        user_stack = sp;
        stacks = (isp, ksp);
        translated = (table.0, table.1, table.2, enabled, refl, base);
        frames = start-frames;
        pattern = start-pattern;
        devices = start-interrupts;
        tasks = (current, idle, free, ready);
        image = start-memory (omega (arith, fits)) (omega (arith, below_devices));
        messages = start-sent;
      }
