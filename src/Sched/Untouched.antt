-- ===== src/Sched/Untouched.antt =====
-- What the scheduler of sched.c leaves alone.
use ze_ospi.Base.{
  ℕ, ◌≡◌, refl, ◌∙◌, inl, inr, List, [], ◌∷◌, ◌++◌, not, ◌&&◌, arith, ◌==◌, if◌then◌else◌,
  Bool-cases,
}
use ze_ospi.Cbuffer.{circularb_is_empty}
use ze_ospi.Kernel.{Kernel}
use ze_ospi.Sched.{
  QueueName, free, ready, keyboard, semaphore, take_first, choose, give_cpu, task_switch_wrapper,
  sched_update_queues_state_rr, sched_switch_process_rr,
}

-- The semaphores and the choice of the idle task are the same.
abbrev pub SameRest : Kernel → Kernel → Type 0
SameRest k' k = (k'.sem_array ≡ k.sem_array) × (k'.idle_task ≡ k.idle_task)

-- What the queues have no part in is the same after a choice.
module _ {ℓ} {A : Type ℓ} (f : Kernel → A)
    (ready_free : (k : Kernel) (ts : List ℕ) → f (record k { readyqueue = ts }) ≡ f k)
    (keyboard_free : (k : Kernel) (ts : List ℕ) → f (record k { keyboardqueue = ts }) ≡ f k) where
  take_ready-keeps :
      (xs : List ℕ) (k : Kernel) (other : ℕ × Kernel)
      → f other.1 ≡ f k
      → f (take_first xs (λ ts. record k { readyqueue = ts }) other).1 ≡ f k
  take_ready-keeps [] k other e = e
  take_ready-keeps (x ∷ xs) k other e = ready_free k xs

  take_keyboard-keeps :
      (xs : List ℕ) (k : Kernel) (other : ℕ × Kernel)
      → f other.1 ≡ f k
      → f (take_first xs (λ ts. record k { keyboardqueue = ts }) other).1 ≡ f k
  take_keyboard-keeps [] k other e = e
  take_keyboard-keeps (x ∷ xs) k other e = keyboard_free k xs

  pub choose-keeps : (k : Kernel) → f (choose k).1 ≡ f k
  unfolding choose
  choose-keeps k =
      let from_ready = take_ready-keeps k.readyqueue k (k.idle_task, k) refl in
      elim (Bool-cases (circularb_is_empty k.uart_read_buffer)) [
        | inl no_keys ↦ rw no_keys from_ready
        | inr some_keys ↦ rw some_keys (take_keyboard-keeps k.keyboardqueue k _ from_ready)
      ]

choose-SameRest : (k : Kernel) → SameRest (choose k).1 k
choose-SameRest k = (
  choose-keeps (λ k. k.sem_array) (λ k ts. refl) (λ k ts. refl) k,
  choose-keeps (λ k. k.idle_task) (λ k ts. refl) (λ k ts. refl) k,
)

give_cpu-SameRest : (t : ℕ) (k : Kernel) → SameRest (give_cpu t k) k
unfolding give_cpu task_switch_wrapper
give_cpu-SameRest t k = ground arith

-- Choosing the next task changes no semaphore.
pub sched_switch_process_rr-SameRest : (k : Kernel) → SameRest (sched_switch_process_rr k) k
unfolding sched_switch_process_rr
sched_switch_process_rr-SameRest k =
    let (s, i) = give_cpu-SameRest (choose k).0 (choose k).1 in
    let (s', i') = choose-SameRest k in (s ∙ s', i ∙ i')

pub sched_switch_process_rr-sem_array :
    (k : Kernel) → (sched_switch_process_rr k).sem_array ≡ k.sem_array
sched_switch_process_rr-sem_array k = (sched_switch_process_rr-SameRest k).0

pub sched_update_queues_state_rr-idle_task :
    (q : QueueName) (t : ℕ) (k : Kernel)
    → (sched_update_queues_state_rr q t k).idle_task ≡ k.idle_task
unfolding sched_update_queues_state_rr
sched_update_queues_state_rr-idle_task free t k = ground arith
sched_update_queues_state_rr-idle_task ready t k = ground arith
sched_update_queues_state_rr-idle_task keyboard t k = ground arith
sched_update_queues_state_rr-idle_task (semaphore n) t k = ground arith

-- A task that is put into a queue and the choice of the next one leave the idle task alone.
pub requeue-idle_task :
    (q : QueueName) (t : ℕ) (k : Kernel)
    → (sched_switch_process_rr (sched_update_queues_state_rr q t k)).idle_task ≡ k.idle_task
requeue-idle_task q t k =
    (sched_switch_process_rr-SameRest (sched_update_queues_state_rr q t k)).1
    ∙ sched_update_queues_state_rr-idle_task q t k

-- Of the semaphores, `sched_update_queues_state_RR` changes the queue that it is given.
pub sched_update_queues_state_rr-sem_array :
    (n t : ℕ) (k : Kernel) (m : ℕ)
    → (sched_update_queues_state_rr (semaphore n) t k).sem_array m ≡ (
        if n == m && not (t == k.idle_task)
        then record (k.sem_array n) { semqueue = (k.sem_array n).semqueue ++ t ∷ [] }
        else k.sem_array m)
unfolding sched_update_queues_state_rr
sched_update_queues_state_rr-sem_array n t k m = ground arith

pub sched_update_queues_state_rr_ready-sem_array :
    (t : ℕ) (k : Kernel) → (sched_update_queues_state_rr ready t k).sem_array ≡ k.sem_array
unfolding sched_update_queues_state_rr
sched_update_queues_state_rr_ready-sem_array t k = ground arith
