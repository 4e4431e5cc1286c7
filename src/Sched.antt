-- ===== src/Sched.antt =====
-- sched.c: the round-robin scheduler and the switch of tasks.
pub mod Conserve
pub mod Untouched
pub mod Switch
use ze_ospi.Base.{
  ℕ, ◌+◌, ◌-◌, ◌%◌, ◌^◌, List, [], ◌∷◌, ◌++◌, Bool, true, false, not, ◌&&◌, ◌==◌, if◌then◌else◌,
}
use ze_ospi.Cbuffer.{circularb_is_empty}
use ze_ospi.Kernel.{
  ProcessState, st_run, st_ready, st_blocked, st_zombie, Stats, Task, Sem, Cpu, Kernel, with_task,
  with_sem, sub32, add32,
}

-- include/sched.h
abbrev pub default_rr_quantum : ℕ
default_rr_quantum = 1000

-- The queue that a `struct list_head *` points to.
pub data QueueName : Type 0 where
  free ready keyboard : QueueName
  semaphore : ℕ → QueueName

abbrev pub push_back : QueueName → ℕ → Kernel → Kernel
push_back free t k = record k { freequeue = k.freequeue ++ t ∷ [] }
push_back ready t k = record k { readyqueue = k.readyqueue ++ t ∷ [] }
push_back keyboard t k = record k { keyboardqueue = k.keyboardqueue ++ t ∷ [] }
push_back (semaphore n) t k =
    with_sem n (record (k.sem_array n) { semqueue = (k.sem_array n).semqueue ++ t ∷ [] }) k

unfoldable pub sched_update_data_rr : Kernel → Kernel
sched_update_data_rr k =
    let t = k.task k.current in
    with_task k.current
      (record t {
        statistics = record t.statistics {
          remaining_quantum = sub32 t.statistics.remaining_quantum 1;
          tics = add32 t.statistics.tics 1;
        };
      })
      (record k { rr_quantum = sub32 k.rr_quantum 1 })

unfoldable pub sched_change_needed_rr : Kernel → Bool
sched_change_needed_rr k = k.rr_quantum == 0

-- The state that a task gets with its place in a queue.
abbrev pub queue_state : QueueName → ProcessState
queue_state free = st_zombie
queue_state ready = st_ready
queue_state keyboard = st_blocked
queue_state (semaphore n) = st_blocked

-- A reader that has got some of its keys goes to the front of the keyboard queue.
abbrev pub insert : QueueName → ℕ → Kernel → Kernel
insert free t k = push_back free t k
insert ready t k = push_back ready t k
insert keyboard t k =
    if not ((k.task t).kbinfo.keysread == 0)
    then record k { keyboardqueue = t ∷ k.keyboardqueue }
    else push_back keyboard t k
insert (semaphore n) t k = push_back (semaphore n) t k

unfoldable pub sched_update_queues_state_rr : QueueName → ℕ → Kernel → Kernel
sched_update_queues_state_rr ls t k =
    let k' = with_task t (record (k.task t) { process_state = queue_state ls }) k in
    if not (t == k.idle_task) then insert ls t k' else k'

-- `task_switch`: the MMU gets the new task's directory if that is another one, the old task's
-- kernel registers are saved, and the new task's registers are loaded.
unfoldable pub task_switch : (new last_sp : ℕ) → Kernel → Kernel
task_switch new last_sp k =
    let dir_new = (k.task new).dir_pages_base_addr in
    let dir_current = (k.task k.current).dir_pages_base_addr in
    let saved =
      with_task k.current (record (k.task k.current) { kernel_sp = last_sp; kernel_lr = k.cpu.lr })
        k in
    let t = saved.task new in
    record saved {
      cpu = record {
        sp = t.kernel_sp;
        lr = t.kernel_lr;
        user_sp = t.user_sp;
        user_lr = t.user_lr;
        dir = if not (dir_new == dir_current) then dir_new else k.cpu.dir;
      };
      current = new;
    }

-- `task_switch_wrapper` stores the 13 registers r0 to r12 on the stack first.
unfoldable pub task_switch_wrapper : ℕ → Kernel → Kernel
unfolding task_switch
task_switch_wrapper new k = task_switch new (sub32 k.cpu.sp 52) k

-- The first task of a queue, and the kernel with that task taken out; or another choice.
abbrev pub take_first : List ℕ → (List ℕ → Kernel) → ℕ × Kernel → ℕ × Kernel
take_first [] rest other = other
take_first (t ∷ ts) rest other = (t, rest ts)

-- The task that is to run next: the first reader, if there are keys; else the first ready task; else
-- the idle task.
unfoldable pub choose : Kernel → ℕ × Kernel
choose k =
    let from_ready =
      take_first k.readyqueue (λ ts. record k { readyqueue = ts }) (k.idle_task, k) in
    if not (circularb_is_empty k.uart_read_buffer)
    then take_first k.keyboardqueue (λ ts. record k { keyboardqueue = ts }) from_ready
    else from_ready

abbrev pub with_quantum : Task → Task
with_quantum t = record t {
  statistics = record t.statistics { remaining_quantum = default_rr_quantum };
}

abbrev pub count_switch : Task → Task
count_switch t = record t {
  statistics = record t.statistics { cs = add32 t.statistics.cs 1 };
  process_state = st_run;
}

-- What `sched_switch_process_RR` does once it has chosen `t`.
unfoldable pub give_cpu : ℕ → Kernel → Kernel
give_cpu t k =
    let k1 = record (with_task t (with_quantum (k.task t)) k) { rr_quantum = default_rr_quantum } in
    if not (t == k.current)
    then (let k2 = with_task t (count_switch (k1.task t)) k1 in
        task_switch_wrapper t
          (with_task k.current (record (k2.task k.current) { process_state = st_ready }) k2))
    else k1

unfoldable pub sched_switch_process_rr : Kernel → Kernel
sched_switch_process_rr k = let (t, k') = choose k in give_cpu t k'
