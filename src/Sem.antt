-- ===== src/Sem.antt =====
-- sys.c, the semaphore system calls. A call runs without interruption up to its end or to the
-- switch of tasks in which its caller waits.
pub mod Behaviour
pub mod Conserve
pub mod Consistent
use ze_ospi.Base.{
  ℕ, ◌+◌, ◌-◌, ◌%◌, ◌^◌, List, [], ◌∷◌, Bool, true, false, Option, none, some, ltb, ◌==◌,
  if◌then◌else◌, ℤ, pos, negsuc, neg,
}
use ze_ospi.Errno.{einvsn, esinit, eninit, esdest, esnown}
use ze_ospi.Kernel.{Task, Sem, Kernel, with_sem, Reply, returns, waits, add32, sub32}
use ze_ospi.Kernel.Places.{sem_size}
use ze_ospi.Sched.{
  QueueName, ready, semaphore, sched_update_queues_state_rr, sched_switch_process_rr,
}

-- `!(n_sem < 0 || n_sem >= SEM_SIZE)`
abbrev pub sem_index : ℤ → Option ℕ
sem_index (pos n) = if ltb n sem_size then some n else none
sem_index (negsuc n) = none

-- `pid_owner == -1`
abbrev pub has_no_owner : Sem → Bool
has_no_owner s = elim s.pid_owner [ pos _ ↦ false | negsuc n ↦ n == 0 ]

-- `init_semarray`: the queue heads are left for `sys_sem_init`.
unfoldable pub init_semarray : (ℕ → Sem) → ℕ → Sem
init_semarray s i =
    if ltb i sem_size then record (s i) { id = i; pid_owner = negsuc 0; value = 0 } else s i

-- Each call below the range check, at a semaphore in range.
unfoldable pub init_at : ℕ → ℕ → Kernel → Reply × Kernel
init_at n value k =
    let s = k.sem_array n in
    if has_no_owner s
    then (
      returns (pos 0),
      with_sem n (record s { pid_owner = pos (k.task k.current).pid; value = value; semqueue = [] })
          k,
    )
    else (returns (neg esinit), k)

-- The end of `sys_sem_wait`, where a caller that has waited goes on.
unfoldable pub wait_end : ℕ → Kernel → ℤ
wait_end n k = if has_no_owner (k.sem_array n) then neg esdest else pos 0

-- If the scheduler chooses the caller again it goes on at once.
unfoldable pub wait_in_queue : ℕ → Kernel → Reply × Kernel
wait_in_queue n k =
    let k' = sched_switch_process_rr (sched_update_queues_state_rr (semaphore n) k.current k) in
    (if k'.current == k.current then returns (wait_end n k') else waits, k')

unfoldable pub wait_at : ℕ → Kernel → Reply × Kernel
wait_at n k =
    let s = k.sem_array n in
    if has_no_owner s
    then (returns (neg eninit), k)
    else if s.value == 0
    then wait_in_queue n k
    else (let k' = with_sem n (record s { value = sub32 s.value 1 }) k in
        (returns (wait_end n k'), k'))

-- Take the first waiter out of the queue and make it ready.
abbrev pub wake : ℕ → ℕ → List ℕ → Kernel → Kernel
wake n t ts k =
    sched_update_queues_state_rr ready t (with_sem n (record (k.sem_array n) { semqueue = ts }) k)

abbrev pub signal_queue : List ℕ → ℕ → Kernel → Kernel
signal_queue [] n k =
    with_sem n (record (k.sem_array n) { value = add32 (k.sem_array n).value 1 }) k
signal_queue (t ∷ ts) n k = wake n t ts k

unfoldable pub signal_at : ℕ → Kernel → Reply × Kernel
signal_at n k =
    let s = k.sem_array n in
    if has_no_owner s
    then (returns (neg eninit), k)
    else (returns (pos 0), signal_queue s.semqueue n k)

-- The loop of `sys_sem_destroy`, over the queue as it stands before.
pub wake_all : List ℕ → ℕ → Kernel → Kernel
wake_all [] n k = k
wake_all (t ∷ ts) n k = wake_all ts n (wake n t ts k)

abbrev pub is_owner : ℤ → ℕ → Bool
is_owner (pos p) pid = pid == p
is_owner (negsuc p) pid = false

unfoldable pub destroy_at : ℕ → Kernel → Reply × Kernel
destroy_at n k =
    let s = k.sem_array n in
    if has_no_owner s
    then (returns (neg eninit), k)
    else if is_owner s.pid_owner (k.task k.current).pid
    then (returns (pos 0), wake_all s.semqueue n (with_sem n (record s { pid_owner = negsuc 0 }) k))
    else (returns (neg esnown), k)

-- The range check before each call.
abbrev pub in_range : ℤ → (ℕ → Kernel → Reply × Kernel) → Kernel → Reply × Kernel
in_range n_sem call k = elim (sem_index n_sem) [
  | none ↦ (returns (neg einvsn), k)
  | some n ↦ call n k
]

unfoldable pub sys_sem_init : ℤ → ℕ → Kernel → Reply × Kernel
sys_sem_init n_sem value = in_range n_sem (λ n. init_at n value)

unfoldable pub sys_sem_wait : ℤ → Kernel → Reply × Kernel
sys_sem_wait n_sem = in_range n_sem wait_at

unfoldable pub sys_sem_signal : ℤ → Kernel → Reply × Kernel
sys_sem_signal n_sem = in_range n_sem signal_at

unfoldable pub sys_sem_destroy : ℤ → Kernel → Reply × Kernel
sys_sem_destroy n_sem = in_range n_sem destroy_at
