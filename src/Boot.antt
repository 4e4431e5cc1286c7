-- ===== src/Boot.antt =====
-- The start of the kernel: `main` of system.c with `init_mm` of mm.c and the functions of sched.c
-- that it calls. `&task[i].stack[KERNEL_STACK_SIZE-1]` and `cpu_idle` are addresses that the linker
-- fixes, as are those of the page tables.
pub mod Start
pub mod Places
use ze_ospi.Base.{ℕ, ◌+◌, List, [], ◌∷◌, ◌++◌, count_up}
use ze_ospi.Cbuffer.{circularb_init}
use ze_ospi.Frames.{init_frames}
use ze_ospi.Paging.{nr_tasks, Tables, init_table_pages, Dirs, init_dir_pages}
use ze_ospi.Kernel.{Task, Stats, st_run, st_ready, Kernel, with_task}
use ze_ospi.Sched.{default_rr_quantum}
use ze_ospi.Sem.{init_semarray}
use ze_ospi.Space.{Mm, init_pb, allocate_page_dir, get_newpb, set_user_pages}

unfoldable pub init_freequeue : Kernel → Kernel
init_freequeue k =
    count_up nr_tasks 0 (λ i k. record k { freequeue = k.freequeue ++ i ∷ [] })
      (record k { freequeue = [] })

unfoldable pub init_readyqueue : Kernel → Kernel
init_readyqueue k = record k { readyqueue = [] }

unfoldable pub init_keyboardqueue : Kernel → Kernel
init_keyboardqueue k = record k { keyboardqueue = [] }

-- The function pointers of the policy always hold the round robin's.
unfoldable pub init_sched_rr : Kernel → Kernel
init_sched_rr k =
    let t = k.task k.current in
    with_task k.current
      (record t {
        statistics = record t.statistics { remaining_quantum = default_rr_quantum };
        process_state = st_ready;
      })
      (record k { rr_quantum = default_rr_quantum })

-- The kernel's data with those of the memory management.
pub record System : Type 0 where
  pub kernel : Kernel
  pub mm : Mm

abbrev no_stats : ℕ → Stats
no_stats quantum = record { tics = 0; cs = 0; remaining_quantum = quantum }

module _ (stack_end : ℕ → ℕ) (cpu_idle : ℕ) where
  abbrev idle_from : List ℕ → System → System
  idle_from [] s = s
  idle_from (t ∷ ts) s =
      let (p, mm) = allocate_page_dir (s.kernel.task t) s.mm in
      record {
        kernel =
            with_task t
              (record p {
                pid = 0;
                kernel_sp = stack_end t;
                kernel_lr = cpu_idle;
                statistics = no_stats 0;
                process_state = st_ready;
              })
              (record s.kernel { freequeue = ts; idle_task = t });
        mm = mm;
      }

  -- The free queue is not empty here.
  unfoldable pub init_idle : System → System
  init_idle s = idle_from s.kernel.freequeue s

abbrev task1_from : List ℕ → System → System
task1_from [] s = s
task1_from (t ∷ ts) s =
    let (p, mm) = allocate_page_dir (s.kernel.task t) s.mm in
    let (q, mm') = get_newpb (record p { pid = 1 }) (set_user_pages (record p { pid = 1 }) mm) in
    record {
      kernel =
          with_task t
            (record q { statistics = no_stats default_rr_quantum; process_state = st_run })
            (record s.kernel {
              freequeue = ts;
              last_pid = 1;
              cpu = record s.kernel.cpu { dir = p.dir_pages_base_addr };
            });
      mm = mm';
    }

-- The free queue is not empty here.
unfoldable pub init_task1 : System → System
init_task1 s = task1_from s.kernel.freequeue s

-- What `init_mm` does to the data; `t` and `d` are the tables as they were.
unfoldable pub init_mm : (empty_ph_page sl_ptable empty_sl_ptable : ℕ) → Tables → Dirs → Mm → Mm
init_mm empty_ph_page sl_ptable empty_sl_ptable t d mm = init_pb (record mm {
  phys_mem = init_frames mm.phys_mem;
  assigned_base_dir = (init_dir_pages sl_ptable empty_sl_ptable d).assigned_base_dir;
  user_pt = λ slot. init_table_pages empty_ph_page t slot 1;
})

-- The initial stack lies in `task[1]`, and `init_timer` sets the clock to 0. `arr` is `uart_read_buff_arr`, of 1024 bytes, and `mm` what
-- `init_mm` leaves.
unfoldable pub main : (stack_end : ℕ → ℕ) (cpu_idle : ℕ) → List ℕ → Kernel → Mm → System
main stack_end cpu_idle arr k mm =
    let queues =
      init_keyboardqueue
        (init_readyqueue (init_freequeue (record k { current = 1; clock_time = 0 }))) in
    let sems = record queues { sem_array = init_semarray queues.sem_array } in
    let s =
      init_task1 (init_idle stack_end cpu_idle (record { kernel = init_sched_rr sems; mm = mm })) in
    record s { kernel = record s.kernel { uart_read_buffer = circularb_init arr 1024 } }
