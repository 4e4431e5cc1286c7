-- ===== src/Process.antt =====
-- sys.c: the calls that make and end tasks, other than fork, and the small ones. `task_at` gives the
-- address of a task's union, and `ret_from_fork` is a label of interrupt_asm.S.
pub mod Account
pub mod Frames
pub mod Checks
use ze_ospi.Base.{
  ℕ, zero, suc, ◌+◌, ◌-◌, ◌*◌, ◌/◌, ◌%◌, ◌^◌, List, [], ◌∷◌, ◌==◌, ◌&&◌, if◌then◌else◌, not, ℤ, pos,
  neg, count_up,
}
use ze_ospi.Errno.{ebadf, eacces, enosys, entask}
use ze_ospi.Frames.{PhysMem, free_frame}
use ze_ospi.Kernel.{Task, st_ready, Kernel, with_task, Reply, returns, waits, add32, sub32}
use ze_ospi.Paging.{PageTable, total_pages_entries}
use ze_ospi.Sched.{free, ready, sched_update_queues_state_rr, sched_switch_process_rr}
use ze_ospi.Space.{Mm, set_at}
use ze_ospi.Boot.{System}
use ze_ospi.Utils.{num_pag_code, num_pag_data}

-- `LECTURA` and `ESCRIPTURA`; a descriptor that is neither 0 nor 1 stands for any other.
abbrev pub lectura : ℕ
lectura = 0

abbrev pub escriptura : ℕ
escriptura = 1

unfoldable pub check_fd : (fd permissions : ℕ) → ℤ
check_fd fd permissions =
    if not (fd == 1) && not (fd == 0)
    then neg ebadf
    else if fd == 1 && not (permissions == escriptura)
    then neg eacces
    else if fd == 0 && not (permissions == lectura)
    then neg eacces
    else pos 0

pub sys_ni_syscall : ℤ
sys_ni_syscall = neg enosys

pub sys_getpid : Kernel → ℕ
sys_getpid k = (k.task k.current).pid

pub sys_gettime : Kernel → ℕ
sys_gettime k = k.clock_time

unfoldable pub sys_debug_tswitch : Kernel → Kernel
sys_debug_tswitch k = sched_switch_process_rr (sched_update_queues_state_rr ready k.current k)

-- `++lastPID`, the new value and the state.
unfoldable pub get_new_pid : Kernel → ℕ × Kernel
get_new_pid k = let pid = add32 k.last_pid 1 in (pid, record k { last_pid = pid })

-- `*p += 1` and `*p -= 1` on a Byte.
abbrev pub count_at : (ℕ → ℕ) → ℕ → ℕ → ℕ → ℕ
count_at f i d = set_at f i ((f i + d) % 2 ^ 8)

module _ (task_at : ℕ → ℕ) (ret_from_fork : ℕ) where
  -- The copy of the 4096 bytes at the running task makes the new task equal to it; the words of the
  -- kernel stack are not in the model.
  abbrev pub cloned : (function stack last_sp new : ℕ) → Kernel → Task
  cloned function stack last_sp new k =
      let t = k.task k.current in
      record t {
        kernel_sp = task_at new + 4 * (sub32 last_sp (task_at k.current) / 4);
        kernel_lr = ret_from_fork;
        user_sp = stack;
        user_lr = function;
        process_state = st_ready;
        statistics = record t.statistics { tics = 0; cs = 0 };
      }

  abbrev pub clone_from : List ℕ → (function stack last_sp : ℕ) → System → Reply × System
  clone_from [] function stack last_sp s = (returns (neg entask), s)
  clone_from (new ∷ ts) function stack last_sp s =
      let p = cloned function stack last_sp new s.kernel in
      let (pid, k) = get_new_pid (record s.kernel { freequeue = ts }) in
      (
        returns (pos pid),
        record {
          kernel =
              sched_update_queues_state_rr ready new (with_task new (record p { pid = pid }) k);
          mm = record s.mm {
            assigned_base_dir = count_at s.mm.assigned_base_dir p.dir_count 1;
            pb_counter = count_at s.mm.pb_counter p.pb_count 1;
          };
        },
      )

  unfoldable pub sys_clone : (function stack last_sp : ℕ) → System → Reply × System
  sys_clone function stack last_sp s = clone_from s.kernel.freequeue function stack last_sp s

-- `for (pag = lo; pag < lo + n; pag++) free_frame(pt[pag].bits.pbase_addr);`
unfoldable pub free_pages : (n lo : ℕ) → PageTable → PhysMem → PhysMem
free_pages n lo pt = count_up n lo (λ pag m. free_frame (pt pag).pbase_addr m)

-- include/mm_address.h
abbrev pub proc_first_free_pag : ℕ
proc_first_free_pag = num_pag_code + num_pag_data

-- The frames go back if the task is the last one on its directory.
unfoldable pub sys_exit : System → System
sys_exit s =
    let t = s.kernel.task s.kernel.current in
    let pt = s.mm.user_pt t.dir_pages_base_addr in
    record {
      kernel =
          sched_switch_process_rr (sched_update_queues_state_rr free s.kernel.current s.kernel);
      mm = record s.mm {
        phys_mem =
            if s.mm.assigned_base_dir t.dir_count == 1
            then free_pages (total_pages_entries - proc_first_free_pag) proc_first_free_pag pt
                s.mm.phys_mem
            else s.mm.phys_mem;
        assigned_base_dir = count_at s.mm.assigned_base_dir t.dir_count (2 ^ 8 - 1);
        pb_counter = count_at s.mm.pb_counter t.pb_count (2 ^ 8 - 1);
      };
    }
