-- ===== src/Kernel.antt =====
-- The state of the running kernel: include/sched.h, include/sem.h, include/stats.h and the globals
-- of sched.c, system.c and timer.c. A task is named by its index in the array `task`, and a
-- queue is the list of the tasks in it (the module Links is about the pointers behind it).
pub mod Places
pub mod Stack
use ze_ospi.Base.{
  ℕ, ◌+◌, ◌-◌, ◌%◌, ◌^◌, List, [], ◌∷◌, ◌++◌, Bool, ◌==◌, if◌then◌else◌, ℤ, pos, negsuc,
}
use ze_ospi.Cbuffer.{CircularBuffer}

-- `enum state_t`
pub data ProcessState : Type 0 where
  st_run st_ready st_blocked st_zombie : ProcessState

pub record Stats : Type 0 where
  pub tics : ℕ
  pub cs : ℕ
  pub remaining_quantum : ℕ

pub record KeyboardInfo : Type 0 where
  pub keybuffer : ℕ
  pub keystoread : ℕ
  pub keysread : ℕ

-- `struct task_struct` but for its `list` field, which the queues below stand for. The pointers
-- `dir_pages_base_addr` and `dir_count` are the index of the directory that they point to, and
-- `program_break` and `pb_count` that of the program break.
pub record Task : Type 0 where
  pub pid : ℕ
  pub dir_pages_base_addr : ℕ
  pub kernel_sp : ℕ
  pub kernel_lr : ℕ
  pub user_sp : ℕ
  pub user_lr : ℕ
  pub statistics : Stats
  pub process_state : ProcessState
  pub dir_count : ℕ
  pub kbinfo : KeyboardInfo
  pub program_break : ℕ
  pub pb_count : ℕ

-- `pid_owner` is -1 for a semaphore that is not in use.
pub record Sem : Type 0 where
  pub id : ℕ
  pub value : ℕ
  pub pid_owner : ℤ
  pub semqueue : List ℕ

-- The registers that `task_switch` saves and loads, and the directory that the MMU uses.
pub record Cpu : Type 0 where
  pub sp : ℕ
  pub lr : ℕ
  pub user_sp : ℕ
  pub user_lr : ℕ
  pub dir : ℕ

-- `current` is the task on whose stack the processor runs, which `current()` reads off `sp`.
pub record Kernel : Type 0 where
  pub task : ℕ → Task
  pub idle_task : ℕ
  pub current : ℕ
  pub freequeue : List ℕ
  pub readyqueue : List ℕ
  pub keyboardqueue : List ℕ
  pub last_pid : ℕ
  pub rr_quantum : ℕ
  pub sem_array : ℕ → Sem
  pub uart_read_buffer : CircularBuffer
  pub clock_time : ℕ
  pub cpu : Cpu

abbrev pub with_task : ℕ → Task → Kernel → Kernel
with_task i t k = record k { task = λ j. if i == j then t else k.task j }

abbrev pub with_sem : ℕ → Sem → Kernel → Kernel
with_sem n s k = record k { sem_array = λ m. if n == m then s else k.sem_array m }

-- What a system call does for its caller: it returns a value, or the caller waits in a queue and
-- goes on when it is scheduled again.
pub data Reply : Type 0 where
  returns : ℤ → Reply
  waits : Reply

-- `a - b` and `a + b` of `unsigned int`.
abbrev pub sub32 : ℕ → ℕ → ℕ
sub32 a b = (a + 2 ^ 32 - b) % 2 ^ 32

abbrev pub add32 : ℕ → ℕ → ℕ
add32 a b = (a + b) % 2 ^ 32
