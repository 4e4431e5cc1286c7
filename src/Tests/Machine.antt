-- ===== src/Tests/Machine.antt =====
-- A kernel with three tasks, the idle one, and one semaphore in use.
use ze_ospi.Base.{ℕ, arith, List, [], ◌∷◌, ◌==◌, if◌then◌else◌, pos, negsuc}
use ze_ospi.Cbuffer.{CircularBuffer}
use ze_ospi.Kernel.{st_ready, Task, Sem, Kernel}
use ze_ospi.Sem.Consistent.{IsConsistent}
use ze_ospi.Interrupt.{Registers}

abbrev pub no_keys : CircularBuffer
no_keys = record { start = 0; end = 0; size = 4; numelem = 0; buffer = 0 ∷ 0 ∷ 0 ∷ 0 ∷ [] }

abbrev task_of : ℕ → Task
task_of i = record {
  pid = i;
  dir_pages_base_addr = i;
  kernel_sp = 4000;
  kernel_lr = 0;
  user_sp = 0;
  user_lr = 0;
  statistics = record { tics = 0; cs = 0; remaining_quantum = 1000 };
  process_state = st_ready;
  dir_count = i;
  kbinfo = record { keybuffer = 0; keystoread = 0; keysread = 0 };
  program_break = i;
  pb_count = i;
}

abbrev sem_of : List ℕ → ℕ → Sem
sem_of waiting n =
    if n == 0
    then record { id = 0; value = 0; pid_owner = pos 1; semqueue = waiting }
    else record { id = n; value = 0; pid_owner = negsuc 0; semqueue = [] }

abbrev machine : List ℕ → List ℕ → ℕ → Kernel
machine others waiting quantum = record {
  task = task_of;
  idle_task = 0;
  current = 1;
  freequeue = [];
  readyqueue = others;
  keyboardqueue = [];
  last_pid = 3;
  rr_quantum = quantum;
  sem_array = sem_of waiting;
  uart_read_buffer = no_keys;
  clock_time = 0;
  cpu = record { sp = 8000; lr = 16; user_sp = 0; user_lr = 0; dir = 1 };
}

-- Task 1 runs, tasks 2 and 3 are ready.
abbrev pub three_ready : Kernel
three_ready = machine (2 ∷ 3 ∷ []) [] 1000

-- Task 1 runs at the end of its slice, tasks 2 and 3 are ready.
abbrev pub slice_over : Kernel
slice_over = machine (2 ∷ 3 ∷ []) [] 1

-- Task 1 runs, tasks 2 and 3 wait at its semaphore 0.
abbrev pub two_waiting : Kernel
two_waiting = machine [] (2 ∷ 3 ∷ []) 1000

abbrev pub timer : Registers
timer = record { irq_pend_b = 1; irq_pend_1 = 0; aux_mu_iir_reg = 0; aux_mu_io_reg = 0 }

pub three_ready-IsConsistent : IsConsistent three_ready
three_ready-IsConsistent n = record { unused = λ e. ground arith; closed = λ e. ground arith }
