-- ===== src/Startup.antt =====
-- system.c: the whole of `main`, from the first instruction of the kernel to the first one of the user's
-- program, over the processor, the coprocessor, the devices, the memory and the kernel's data. The
-- linker's addresses are arguments: those of the arrays `task`, `fl_ptable`, `sl_ptable`,
-- `empty_sl_ptable` and `empty_ph_page`, of the table of the exceptions, and of `cpu_idle`.
pub mod Ready
use ze_ospi.Base.{
  ℕ, ◌+◌, ◌-◌, ◌*◌, ◌^◌, ltb, if◌then◌else◌, List, [], ◌∷◌, ◌++◌, length, get_or, chars,
}
use ze_ospi.Utils.{Memory, copy_data}
use ze_ospi.Output.{printk}
use ze_ospi.Paging.{PageTable, Dirs, init_table_pages}
use ze_ospi.Paging.Empty.{FrameBytes, init_empty_pages}
use ze_ospi.Devices.{Board, init_gpio, init_uart, init_timer, set_interruptions}
use ze_ospi.Kernel.Stack.{stack_at, kernel_stack_size, initial_kernel_stack}
use ze_ospi.Boot.{System, init_mm}
use ze_ospi.Boot
use ze_ospi.Processor.{
  Processor, op0, mov_sp, clear_lr, execute_all, set_worlds_stacks, return_gate, user_sp,
  l_user_start,
}
use ze_ospi.Processor.Mmu.{
  Coprocessor, start_mmu, set_exception_base, mmu_change_dir, flush_remapped,
}

pub record Linked : Type 0 where
  pub task : ℕ
  pub fl_ptable : ℕ
  pub sl_ptable : ℕ
  pub empty_sl_ptable : ℕ
  pub empty_ph_page : ℕ
  pub exception_vector_table : ℕ
  pub cpu_idle : ℕ

-- The memory is that of task 1, whose addresses the kernel uses from `init_mm` on, in the pages that
-- have a frame of their own: not those of the devices, from 0xF0000 on, nor those behind the 28 pages of
-- the user, which share the empty frame. The kernel's variables, tables and stacks, which lie in the
-- kernel's part of it, are the other fields. `sent` is what the UART has sent.
pub record Computer : Type 0 where
  pub processor : Processor
  pub coprocessor : Coprocessor
  pub board : Board
  pub dirs : Dirs
  -- `empty_sl_ptable` and the bytes of `empty_ph_page`.
  pub empty : PageTable × FrameBytes
  pub system : System
  pub memory : Memory
  pub sent : List ℕ

-- include/mm_address.h
abbrev pub kernel_start : ℕ
kernel_start = 0x10000

abbrev pub ph_user_start : ℕ
ph_user_start = 0x100000

-- `*p_sys_size` and `*p_usr_size`: the words behind the kernel's first one.
abbrev pub word_of : Memory → ℕ → ℕ
word_of m a = m a + 256 * (m (a + 1) + 256 * (m (a + 2) + 256 * m (a + 3)))

abbrev pub sys_size : Memory → ℕ
sys_size m = word_of m (kernel_start + 4)

abbrev pub usr_size : Memory → ℕ
usr_size m = word_of m (kernel_start + 8)

unfoldable pub set_initial_stack : (stack : ℕ) → Processor → Processor
set_initial_stack stack p = execute_all (mov_sp op0 ∷ clear_lr ∷ []) (record p { operand0 = stack })

-- `copy_data` takes the size as an `int`, and copies nothing if that is negative.
abbrev pub int_size : ℕ → ℕ
int_size n = if ltb n (2 ^ 31) then n else 0

-- `printk` of a text that the compiler has put somewhere, with a 0 behind it.
unfoldable pub print_text : (text : List ℕ) → Computer → Computer
print_text text c = record c { sent = c.sent ++ printk (length text + 1) 0 (λ a. get_or text a 0) }

module _ (l : Linked) where
  -- `init_mm`: `chosen` is what the register holds that the compiler takes for `creg`.
  unfoldable pub memory_started : (chosen : ℕ) → Computer → Computer
  memory_started chosen c =
      let tables = init_table_pages l.empty_ph_page c.board.tables in
      record c {
        coprocessor = start_mmu (l.fl_ptable + 1 * 4096 * 4) chosen c.coprocessor;
        board = record c.board { tables = tables };
        empty = init_empty_pages l.empty_ph_page c.empty;
        system = record c.system {
          mm =
              init_mm l.empty_ph_page l.sl_ptable l.empty_sl_ptable c.board.tables c.dirs
                c.system.mm;
        };
      }

  unfoldable pub devices_started : Computer → Computer
  devices_started c = record c {
    board = init_timer (init_uart (init_gpio c.board));
    coprocessor = flush_remapped (flush_remapped (flush_remapped c.coprocessor));
  }

  -- From `init_freequeue` to `circularbInit`. `init_task1` turns to the directory that task 1 has got.
  unfoldable pub tasks_made : (arr : List ℕ) → Computer → Computer
  tasks_made arr c =
      let system =
        Boot.main (λ i. stack_at l.task i (kernel_stack_size - 1)) l.cpu_idle arr c.system.kernel
          c.system.mm in
      record c {
        coprocessor = mmu_change_dir (l.fl_ptable + system.kernel.cpu.dir * 4096 * 4) c.coprocessor;
        system = system;
      }

  unfoldable pub user_copied : Computer → Computer
  user_copied c = record c {
    memory =
        copy_data (kernel_start + sys_size c.memory) ph_user_start (int_size (usr_size c.memory))
          c.memory;
  }

  unfoldable pub start : (chosen : ℕ) (arr : List ℕ) → Computer → Computer
  start chosen arr c =
      let stack = initial_kernel_stack l.task in
      let p = set_worlds_stacks stack (set_initial_stack stack c.processor) in
      let c1 = memory_started chosen (record c {
        processor = p;
        coprocessor = set_exception_base l.exception_vector_table c.coprocessor;
      }) in
      let c2 = print_text (chars "Kernel Loaded!\n") (devices_started c1) in
      let c3 = tasks_made arr c2 in
      let c4 = user_copied (record c3 {
        board = set_interruptions c3.board;
        coprocessor = flush_remapped c3.coprocessor;
      }) in
      let c5 = print_text (chars "Entering user mode...\n") c4 in
      record c5 { processor = return_gate user_sp l_user_start c5.processor }
