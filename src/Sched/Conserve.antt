-- ===== src/Sched/Conserve.antt =====
-- The scheduler of sched.c neither loses a task nor has one twice.
use ze_ospi.Base.{
  ℕ, ◌+◌, ◌<◌, ◌≡◌, refl, ap, ◌≢◌, inl, inr, List, [], ◌∷◌, ◌++◌, not, ◌&&◌, arith, ◌==◌,
  if◌then◌else◌, Bool-cases,
}
use ze_ospi.Cbuffer.{circularb_is_empty}
use ze_ospi.Kernel.{Kernel, with_task}
use ze_ospi.Kernel.Places.{count, count-append, count_sems-set, sem_size, queued, places}
use ze_ospi.Sched.{
  QueueName, free, ready, keyboard, semaphore, push_back, insert, queue_state, take_first,
  sched_update_queues_state_rr, task_switch_wrapper, choose, give_cpu, sched_switch_process_rr,
}

-- A semaphore queue is one of the 30.
abbrev pub IsQueueName : QueueName → Type 0
IsQueueName (semaphore n) = n < sem_size
IsQueueName q = Unit

push_back-queued :
    (q : QueueName) (t : ℕ) (k : Kernel) (u : ℕ)
    → IsQueueName q
    → queued (push_back q t k) u ≡ queued k u + (if t == u then 1 else 0)
unfolding queued
push_back-queued free t k u ok = ground (arith, count-append u k.freequeue (t ∷ []))
push_back-queued ready t k u ok = ground (arith, count-append u k.readyqueue (t ∷ []))
push_back-queued keyboard t k u ok = ground (arith, count-append u k.keyboardqueue (t ∷ []))
push_back-queued (semaphore n) t k u ok = ground (
  arith,
  count-append u (k.sem_array n).semqueue (t ∷ []),
  count_sems-set u sem_size n k.sem_array
      (record (k.sem_array n) { semqueue = (k.sem_array n).semqueue ++ t ∷ [] }) ok,
)

insert-queued :
    (q : QueueName) (t : ℕ) (k : Kernel) (u : ℕ)
    → IsQueueName q
    → queued (insert q t k) u ≡ queued k u + (if t == u then 1 else 0)
insert-queued free t k u ok = push_back-queued free t k u ok
insert-queued ready t k u ok = push_back-queued ready t k u ok
insert-queued keyboard t k u ok = elim (Bool-cases ((k.task t).kbinfo.keysread == 0)) [
  | inl none_read ↦ rw none_read (push_back-queued keyboard t k u ok)
  | inr some_read ↦ rw some_read (unfold queued in omega arith)
]
insert-queued (semaphore n) t k u ok = push_back-queued (semaphore n) t k u ok

-- `sched_update_queues_state_RR` puts a task into one place more, and the idle task into none.
pub sched_update_queues_state_rr-queued :
    (q : QueueName) (t : ℕ) (k : Kernel) (u : ℕ)
    → IsQueueName q
    → queued (sched_update_queues_state_rr q t k) u
      ≡ queued k u + (if not (t == k.idle_task) && t == u then 1 else 0)
unfolding sched_update_queues_state_rr queued
sched_update_queues_state_rr-queued q t k u ok = elim (Bool-cases (t == k.idle_task)) [
  | inl idle ↦ rw idle (omega arith)
  | inr other ↦
      rw other (
        insert-queued q t (with_task t (record (k.task t) { process_state = queue_state q }) k) u
          ok)
]

pub sched_update_queues_state_rr-current :
    (q : QueueName) (t : ℕ) (k : Kernel)
    → let k' = sched_update_queues_state_rr q t k in
      (k'.current ≡ k.current) × (k'.idle_task ≡ k.idle_task)
unfolding sched_update_queues_state_rr
sched_update_queues_state_rr-current free t k = ground arith
sched_update_queues_state_rr-current ready t k = ground arith
sched_update_queues_state_rr-current keyboard t k = ground arith
sched_update_queues_state_rr-current (semaphore n) t k = ground arith

-- A choice takes the chosen task, and no other, out of the queues.
abbrev Takes : Kernel → ℕ → ℕ × Kernel → Type 0
Takes k u (t, k') = queued k u ≡ queued k' u + (if t == u then 1 else 0)

take_ready-Takes :
    (xs : List ℕ) (k : Kernel) (u : ℕ) (other : ℕ × Kernel)
    → k.readyqueue ≡ xs
    → Takes k u other
    → Takes k u (take_first xs (λ ts. record k { readyqueue = ts }) other)
unfolding queued
take_ready-Takes [] k u other e h = h
take_ready-Takes (x ∷ xs) k u other e h = omega (arith, ap (count u) e)

take_keyboard-Takes :
    (xs : List ℕ) (k : Kernel) (u : ℕ) (other : ℕ × Kernel)
    → k.keyboardqueue ≡ xs
    → Takes k u other
    → Takes k u (take_first xs (λ ts. record k { keyboardqueue = ts }) other)
unfolding queued
take_keyboard-Takes [] k u other e h = h
take_keyboard-Takes (x ∷ xs) k u other e h = omega (arith, ap (count u) e)

choose-queued : (k : Kernel) (u : ℕ) → u ≢ k.idle_task → Takes k u (choose k)
unfolding choose
choose-queued k u ne =
    let idle : Takes k u (k.idle_task, k) = ground arith in
    let from_ready = take_ready-Takes k.readyqueue k u (k.idle_task, k) refl idle in
    elim (Bool-cases (circularb_is_empty k.uart_read_buffer)) [
      | inl no_keys ↦ rw no_keys from_ready
      | inr some_keys ↦ rw some_keys (take_keyboard-Takes k.keyboardqueue k u _ refl from_ready)
    ]

pub give_cpu-queued :
    (t : ℕ) (k : Kernel) (u : ℕ)
    → (queued (give_cpu t k) u ≡ queued k u) × ((give_cpu t k).current ≡ t)
unfolding give_cpu task_switch_wrapper queued
give_cpu-queued t k u = ground arith

-- Whoever `sched_switch_process_RR` chooses runs and has left its queue; every other task stays in
-- as many queues as it was in.
pub sched_switch_process_rr-places :
    (k : Kernel) (u : ℕ) → u ≢ k.idle_task → places (sched_switch_process_rr k) u ≡ queued k u
unfolding sched_switch_process_rr
sched_switch_process_rr-places k u ne =
    ground (arith, choose-queued k u ne, give_cpu-queued (choose k).0 (choose k).1 u)

-- When the running task goes into a queue and the scheduler then chooses who runs next, every task
-- but the idle one is in as many places as before, the queues and the processor together.
pub requeue-places :
    (q : QueueName) (k : Kernel) (u : ℕ)
    → IsQueueName q
    → u ≢ k.idle_task
    → places (sched_switch_process_rr (sched_update_queues_state_rr q k.current k)) u ≡ places k u
requeue-places q k u ok ne =
    let k' = sched_update_queues_state_rr q k.current k in
    let same = sched_update_queues_state_rr-current q k.current k in
    ground (
      arith,
      sched_update_queues_state_rr-queued q k.current k u ok,
      sched_switch_process_rr-places k' u (rw same.1 ne),
    )
