-- ===== src/Tests/Programs.antt =====
-- The theorems on the processor and on the user's programs, at concrete inputs.
use ze_ospi.Base.{
  chars, ℕ, ◌+◌, ◌*◌, ◌/◌, ◌%◌, ◌-◌, ◌^◌, ◌<◌, ◌≤◌, ◌≡◌, ◌⊎◌, refl, List, [], ◌∷◌, ◌++◌, arith, suc,
  ltb, ◌==◌, ◌&&◌, if◌then◌else◌, false, true, some, pos, negsuc, neg,
}
use ze_ospi.Cbuffer.{circularb_is_empty}
use ze_ospi.Errno.{enomem, enmphp}
use ze_ospi.Kernel.{Task, Kernel}
use ze_ospi.Frames.{used_mark}
use ze_ospi.Paging.{data_page}
use ze_ospi.Space.{Mm, heap_start}
use ze_ospi.Sem.Consistent.{IsConsistent}
use ze_ospi.Events.{Event, call, wait, signal, run, step, sem_call}
use ze_ospi.Events.Permits.{IsProper}
use ze_ospi.Processor.{
  Processor, usr, irq, svc, abt, und, bank, set_worlds_stacks, return_gate, user_sp, l_user_start,
}
use ze_ospi.Processor.Gate.{enter_user}
use ze_ospi.Processor.Mmu.{Coprocessor, reg, control_reg, ttb0, ttb1, mrc, set_bit, start_mmu}
use ze_ospi.Processor.Mmu.Order.{Watch, watch, start_mmu_lem}
use ze_ospi.Utils.{Memory}
use ze_ospi.Startup.{Linked, Computer}
use ze_ospi.Startup.Ready.{IsReady, start-IsReady}
use ze_ospi.User as User
use ze_ospi.User.{Action, Response, spinning, sem_wait, exit, write}
use ze_ospi.User.Programs.{semaphores_test1, semaphores_test1sub_body, dinam_test}
use ze_ospi.User.Perror.{perror}
use ze_ospi.Sem.{
  sys_sem_init, init_at, sys_sem_wait, wait_at, wait_in_queue, sys_sem_signal, signal_at,
}
use ze_ospi.Sched.{
  sched_switch_process_rr, sched_update_queues_state_rr, choose, give_cpu, task_switch,
  task_switch_wrapper,
}
use ze_ospi.Processor
use ze_ospi.Devices.{RegisterMap, uart_tx_ready, uart_data_available}
use ze_ospi.Devices.Serial.{aux_mu_io_reg, uart_send_byte, uart_get_byte, serial-first}
use ze_ospi.User.Dynamic.{serve, calls_of, last_actions, dinam_test_lem}
use ze_ospi.User.Released.{initialised, semaphores_test1-releases}
use ze_ospi.Tests.Machine.{three_ready}

-- The kernel's mode after a reset, with interrupts off.
abbrev reset : Processor
reset = record {
  mode = svc;
  flags = 14;
  pc = 0;
  operand0 = 0;
  operand1 = 0;
  scratch = 0;
  sp = λ _. 0;
  lr = λ _. 0;
  word = λ _. 0;
}

-- The kernel's stack has been set, and used.
abbrev stacks_set : Processor
stacks_set =
    let p = set_worlds_stacks 0x20FFC reset in
    record p { sp = λ m. if m == svc then 0x20FE0 else p.sp m }

enter_user_example :
    let u = return_gate user_sp l_user_start stacks_set in
    (u.pc ≡ 0x100000)
    × (u.mode ≡ usr)
    × (u.flags / 4 % 2 ≡ 0)
    × (u.sp (bank usr) ≡ 0x11BFF0)
    × (u.sp irq ≡ 0x20FFC - 0x500)
    × (u.sp abt ≡ 0x20FFC - 0x200)
    × (u.sp und ≡ 0x20FFC - 0x200)
    × (u.sp svc ≡ 0x20FE0)
unfolding set_worlds_stacks Processor.execute_all Processor.execute
enter_user_example =
    enter_user 0x20FFC reset stacks_set refl (omega arith) (omega arith) refl (omega arith)
      (omega arith) (λ m ne. ground arith)

abbrev untouched : Coprocessor
untouched = record { before = λ r. 0x50078; writes = [] }

abbrev off : Watch
off = record { on = false; stale = true; sound = true }

abbrev no_frames : Mm
no_frames = record {
  phys_mem = λ _. used_mark;
  assigned_base_dir = λ _. 1;
  program_breaks = λ _. heap_start;
  pb_counter = λ _. 1;
  user_pt = λ _ _. data_page (pos 0);
}

abbrev pub linked : Linked
linked = record {
  task = 0x20000;
  fl_ptable = 0x30000;
  sl_ptable = 0x58000;
  empty_sl_ptable = 0x5D000;
  empty_ph_page = 0x5E000;
  exception_vector_table = 0x10100;
  cpu_idle = 0x10200;
}

-- The kernel takes 0x50000 bytes, and the program behind it 6.
abbrev loaded : Memory
loaded a =
    if a == 0x10006
    then 5
    else if a == 0x10008
    then 6
    else if ltb 0x10003 a && ltb a 0x1000C
    then 0
    else a % 251

abbrev pub computer : Computer
computer = record {
  processor = reset;
  coprocessor = untouched;
  board = record { registers = λ _. 0; tables = λ _ _ _. data_page (pos 0) };
  dirs = record {
    fl_ptable = λ _ _. record { accesstype = 0; ns = 0; domain = 0; p = 0; pbase_addr = 0 };
    assigned_base_dir = λ _. 0;
  };
  empty = ((λ _. data_page (pos 0)), λ _. 0);
  system = record { kernel = three_ready; mm = no_frames };
  memory = loaded;
  sent = [];
}

start-IsReady_example : IsReady linked 0x1001 [] computer off
start-IsReady_example =
    start-IsReady linked 0x1001 [] computer off refl (omega arith) (omega arith) refl refl
      (omega arith) (omega arith)

start_mmu_lem_example :
    let c' = start_mmu 0x24000 0x1001 untouched in
    (mrc ttb0 c' ≡ 0x24000)
    × (mrc ttb1 c' ≡ 0x24000)
    × (mrc control_reg c' ≡ set_bit 12 (set_bit 0 (set_bit 23 0x1001)))
    × (mrc control_reg c' % 2 ≡ 1)
    × (mrc control_reg c' / 2 ^ 12 % 2 ≡ 1)
    × (mrc control_reg c' / 2 ^ 23 % 2 ≡ 1)
    × (mrc (reg 0 12 0 0) c' ≡ 0x50078)
    × ((watch off c'.writes).on ≡ true)
    × ((watch off c'.writes).stale ≡ false)
    × ((watch off c'.writes).sound ≡ true)
start_mmu_lem_example = start_mmu_lem 0x24000 0x1001 untouched off (omega arith) refl refl

-- The device is ready from the third reading on.
abbrev busy_twice : ℕ → RegisterMap
busy_twice i a = if ltb i 2 then 0 else 0xFF

busy_first : (i : ℕ) → 0 ≤ i → i < 2 → (uart_tx_ready (busy_twice i) ≡ 0)
unfolding uart_tx_ready
busy_first i lo hi = ground arith

none_first : (i : ℕ) → 0 ≤ i → i < 2 → (uart_data_available (busy_twice i) ≡ 0)
unfolding uart_data_available
none_first i lo hi = ground arith

serial-first_example :
    ((r : RegisterMap) × (uart_send_byte 8 0 65 busy_twice ≡ some r) × (r aux_mu_io_reg ≡ 65))
    × (uart_get_byte 8 0 busy_twice ≡ some 0xFF)
unfolding uart_tx_ready uart_data_available
serial-first_example =
    serial-first 8 0 65 2 2 aux_mu_io_reg busy_twice busy_twice (omega arith) (omega arith)
      (omega arith) busy_first (omega arith) (omega arith) (omega arith) none_first

abbrev a_task : Task
a_task = three_ready.task 1

abbrev silent : Action → Response
silent x = record { ret = pos 0; bytes = [] }

dinam_test_lem_example :
    let r = User.run (serve 0x7000 a_task silent) (dinam_test 228 (pos 0)) no_frames in
    (k : ℕ) × (code : ℕ) × (r.log ≡ calls_of (suc k) ++ last_actions (k + 1) code)
    × (r.ending ≡ spinning)
    × (r.state.program_breaks 1 ≡ heap_start + k * 4096)
    × (heap_start + k * 4096 < 2 ^ 21)
    × ((code ≡ enomem) × (2 ^ 21 ≤ heap_start + (k + 1) * 4096) ⊎ code ≡ enmphp)
dinam_test_lem_example =
    dinam_test_lem 0x7000 a_task silent 228 (pos 0) no_frames (omega arith) (omega arith)

abbrev nothing : {S : Type 0} → Action → S → Response × S
nothing x s = (record { ret = pos 0; bytes = [] }, s)

-- The semaphore has been destroyed.
abbrev refused : Action → Unit {0} → Response × Unit {0}
refused x s = (record { ret = neg 14; bytes = [] }, s)

abbrev all_free : Kernel
all_free = record three_ready {
  sem_array = λ n. record { id = n; value = 0; pid_owner = negsuc 0; semqueue = [] };
}

all_free-IsConsistent : IsConsistent all_free
all_free-IsConsistent n = record { unused = λ e. refl; closed = λ e. refl }

-- Two tasks wait, one after the other, and the third signals twice.
abbrev waits_first : List Event
waits_first =
    call (wait (pos 0)) ∷ call (wait (pos 0)) ∷ call (signal (pos 0)) ∷ call (signal (pos 0)) ∷ []

waits_first-IsProper : IsProper 0 (initialised all_free) waits_first
unfolding step sem_call sys_sem_init init_at sys_sem_wait wait_at wait_in_queue sys_sem_signal
    signal_at sched_switch_process_rr sched_update_queues_state_rr choose give_cpu task_switch
    task_switch_wrapper circularb_is_empty
waits_first-IsProper = (omega arith, (omega arith, (omega arith, (omega arith, tt))))

semaphores_test1-releases_example :
    let k' = run (initialised all_free) waits_first in
    ((k'.sem_array 0).value ≡ 0) × ((k'.sem_array 0).semqueue ≡ [])
unfolding semaphores_test1 semaphores_test1sub_body perror
semaphores_test1-releases_example =
    semaphores_test1-releases nothing refused (chars "0123456789") (pos 0) (pos 0) tt tt all_free
      waits_first all_free-IsConsistent refl waits_first-IsProper refl refl
