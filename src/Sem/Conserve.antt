-- ===== src/Sem/Conserve.antt =====
-- The semaphore calls of sys.c neither lose a task nor have one twice.
use ze_ospi.Base.{
  ℕ, ◌+◌, ◌<◌, ◌≡◌, refl, sym, ap, ◌∙◌, ◌≢◌, inl, inr, List, [], ◌∷◌, true, arith, eq→==, ◌==◌,
  if◌then◌else◌, Bool-cases, negsuc,
}
use ze_ospi.Kernel.{Sem, Kernel, with_sem}
use ze_ospi.Kernel.Places.{count, count_sems-set, sem_size, queued, places}
use ze_ospi.Sched.{ready, semaphore, sched_update_queues_state_rr}
use ze_ospi.Sched.Conserve.{
  sched_update_queues_state_rr-queued, sched_update_queues_state_rr-current, requeue-places,
}
use ze_ospi.Sched.Untouched.{requeue-idle_task}
use ze_ospi.Sem.{
  has_no_owner, init_at, wait_in_queue, wait_at, wake, signal_queue, signal_at, wake_all, is_owner,
  destroy_at,
}

-- A change of one semaphore that keeps its queue moves no task.
with_sem-places :
    (n : ℕ) (s : Sem) (k : Kernel) (u : ℕ)
    → n < sem_size
    → s.semqueue ≡ (k.sem_array n).semqueue
    → places (with_sem n s k) u ≡ places k u
unfolding queued
with_sem-places n s k u h e =
    omega (arith, count_sems-set u sem_size n k.sem_array s h, ap (count u) e)

wake-places :
    (n t : ℕ) (ts : List ℕ) (k : Kernel) (u : ℕ)
    → n < sem_size
    → u ≢ k.idle_task
    → (k.sem_array n).semqueue ≡ t ∷ ts
    → places (wake n t ts k) u ≡ places k u
wake-places n t ts k u h ne e =
    let s = record (k.sem_array n) { semqueue = ts } in
    let k' = with_sem n s k in
    let without : queued k' u + (if t == u then 1 else 0) ≡ queued k u =
      unfold queued in omega (arith, count_sems-set u sem_size n k.sem_array s h, ap (count u) e) in
    ground (
      arith,
      without,
      sched_update_queues_state_rr-queued ready t k' u tt,
      sched_update_queues_state_rr-current ready t k',
    )

pub wake-sem_array :
    (n t : ℕ) (ts : List ℕ) (k : Kernel)
    → let k' = wake n t ts k in
      ((m : ℕ)
        → k'.sem_array m
          ≡ (if n == m then record (k.sem_array n) { semqueue = ts } else k.sem_array m))
      × (k'.idle_task ≡ k.idle_task)
      × (k'.current ≡ k.current)
unfolding sched_update_queues_state_rr
wake-sem_array n t ts k = (λ m. ground arith, ground arith, ground arith)

wake_all-places :
    (xs : List ℕ) (n : ℕ) (k : Kernel) (u : ℕ)
    → n < sem_size
    → u ≢ k.idle_task
    → (k.sem_array n).semqueue ≡ xs
    → places (wake_all xs n k) u ≡ places k u
unfolding wake_all
wake_all-places [] n k u h ne e = refl
wake_all-places (t ∷ ts) n k u h ne e =
    let (sems, idle, _) = wake-sem_array n t ts k in
    wake_all-places ts n (wake n t ts k) u h (rw idle ne) (rw (sems n, eq→== n n refl) refl)
    ∙ wake-places n t ts k u h ne e

module _ (n : ℕ) (k : Kernel) (u : ℕ) (h : n < sem_size) (ne : u ≢ k.idle_task) where
  pub init_at-places :
      (value : ℕ)
      → (has_no_owner (k.sem_array n) ≡ true → (k.sem_array n).semqueue ≡ [])
      → places (init_at n value k).1 u ≡ places k u
  unfolding init_at
  init_at-places value empty = elim (Bool-cases (has_no_owner (k.sem_array n))) [
    | inl unused ↦ rw unused (with_sem-places n _ k u h (sym (empty unused)))
    | inr in_use ↦ rw in_use refl
  ]

  pub wait_at-places : places (wait_at n k).1 u ≡ places k u
  unfolding wait_at wait_in_queue
  wait_at-places = elim (Bool-cases (has_no_owner (k.sem_array n))) [
    | inl unused ↦ rw unused refl
    | inr in_use ↦ rw in_use (elim (Bool-cases ((k.sem_array n).value == 0)) [
      | inl closed ↦ rw closed (requeue-places (semaphore n) k u h ne)
      | inr open_ ↦ rw open_ (with_sem-places n _ k u h refl)
    ])
  ]

  signal_queue-places :
      (xs : List ℕ) → (k.sem_array n).semqueue ≡ xs → places (signal_queue xs n k) u ≡ places k u
  signal_queue-places [] e = with_sem-places n _ k u h refl
  signal_queue-places (t ∷ ts) e = wake-places n t ts k u h ne e

  pub signal_at-places : places (signal_at n k).1 u ≡ places k u
  unfolding signal_at
  signal_at-places = elim (Bool-cases (has_no_owner (k.sem_array n))) [
    | inl unused ↦ rw unused refl
    | inr in_use ↦ rw in_use (signal_queue-places (k.sem_array n).semqueue refl)
  ]

  pub destroy_at-places : places (destroy_at n k).1 u ≡ places k u
  unfolding destroy_at
  destroy_at-places = elim (Bool-cases (has_no_owner (k.sem_array n))) [
    | inl unused ↦ rw unused refl
    | inr in_use ↦
        rw in_use (elim (Bool-cases (is_owner (k.sem_array n).pid_owner (k.task k.current).pid)) [
          | inl mine ↦ rw mine (
              wake_all-places (k.sem_array n).semqueue n
                (with_sem n (record (k.sem_array n) { pid_owner = negsuc 0 }) k) u h ne
                (rw (eq→== n n refl) refl)
              ∙ with_sem-places n _ k u h refl)
          | inr foreign ↦ rw foreign refl
        ])
  ]

wake_all-idle_task : (xs : List ℕ) (n : ℕ) (k : Kernel) → (wake_all xs n k).idle_task ≡ k.idle_task
unfolding wake_all
wake_all-idle_task [] n k = refl
wake_all-idle_task (t ∷ ts) n k =
    wake_all-idle_task ts n (wake n t ts k) ∙ (wake-sem_array n t ts k).1

signal_queue-idle_task :
    (xs : List ℕ) (n : ℕ) (k : Kernel) → (signal_queue xs n k).idle_task ≡ k.idle_task
signal_queue-idle_task [] n k = refl
signal_queue-idle_task (t ∷ ts) n k = (wake-sem_array n t ts k).1

-- No semaphore call changes which task is the idle one.
pub idle_task-calls :
    (n : ℕ) (value : ℕ) (k : Kernel)
    → ((init_at n value k).1.idle_task ≡ k.idle_task)
      × ((wait_at n k).1.idle_task ≡ k.idle_task)
      × ((signal_at n k).1.idle_task ≡ k.idle_task)
      × ((destroy_at n k).1.idle_task ≡ k.idle_task)
unfolding init_at wait_at wait_in_queue signal_at destroy_at
idle_task-calls n value k = (
  ground arith,
  ground (arith, requeue-idle_task (semaphore n) k.current k),
  ground (arith, signal_queue-idle_task (k.sem_array n).semqueue n k),
  ground (
    arith,
    wake_all-idle_task (k.sem_array n).semqueue n
        (with_sem n (record (k.sem_array n) { pid_owner = negsuc 0 }) k),
  ),
)
