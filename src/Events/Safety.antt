-- ===== src/Events/Safety.antt =====
-- Over every history of events no task is lost or doubled, and the semaphores stay consistent.
use ze_ospi.Base.{
  ℕ, ◌<◌, ◌≡◌, refl, ◌∙◌, ◌≢◌, inl, inr, List, [], ◌∷◌, ltb, ltb→lt, Bool-cases, ℤ, pos, negsuc,
}
use ze_ospi.Kernel.{Kernel, Reply}
use ze_ospi.Kernel.Places.{sem_size, places}
use ze_ospi.Sem.{
  in_range, init_at, wait_at, signal_at, destroy_at, sys_sem_init, sys_sem_wait, sys_sem_signal,
  sys_sem_destroy,
}
use ze_ospi.Sem.Conserve.{
  idle_task-calls, init_at-places, wait_at-places, signal_at-places, destroy_at-places,
}
use ze_ospi.Sem.Consistent.{
  IsConsistent, init_at-IsConsistent, wait_at-IsConsistent, signal_at-IsConsistent,
  destroy_at-IsConsistent,
}
use ze_ospi.Interrupt.Irq.{interrupt_request_routine-places, interrupt_request_routine-idle_task}
use ze_ospi.Events.{init, wait, signal, destroy, sem_call, Event, call, irq, step, run}

-- What holds before a call and after its work on each semaphore in range holds after the call.
pub in_range_cases {ℓ} :
    (P : Kernel → Type ℓ) (n_sem : ℤ) (c : ℕ → Kernel → Reply × Kernel) (k : Kernel)
    → P k
    → ((n : ℕ) → n < sem_size → P (c n k).1)
    → P (in_range n_sem c k).1
in_range_cases P (negsuc n) c k refused done = refused
in_range_cases P (pos n) c k refused done = elim (Bool-cases (ltb n sem_size)) [
  | inl ok ↦ rw (ok, in_range) (done n (ltb→lt n sem_size ok))
  | inr bad ↦ rw (bad, in_range) refused
]

pub step-IsConsistent : (e : Event) (k : Kernel) → IsConsistent k → IsConsistent (step k e)
unfolding step sem_call sys_sem_init sys_sem_wait sys_sem_signal sys_sem_destroy
step-IsConsistent (call (init n v)) k c =
    in_range_cases IsConsistent n (λ i. init_at i v) k c (λ i h. init_at-IsConsistent i k c v)
step-IsConsistent (call (wait n)) k c =
    in_range_cases IsConsistent n wait_at k c (λ i h. wait_at-IsConsistent i k c)
step-IsConsistent (call (signal n)) k c =
    in_range_cases IsConsistent n signal_at k c (λ i h. signal_at-IsConsistent i k c)
step-IsConsistent (call (destroy n)) k c =
    in_range_cases IsConsistent n destroy_at k c (λ i h. destroy_at-IsConsistent i k c)
step-IsConsistent (irq r) k c = λ n. rw (interrupt_request_routine-places r k).1 (c n)

-- Nobody waits at a semaphore that is not in use or that is open: no event changes that.
pub run-IsConsistent : (es : List Event) (k : Kernel) → IsConsistent k → IsConsistent (run k es)
unfolding run
run-IsConsistent [] k c = c
run-IsConsistent (e ∷ es) k c = run-IsConsistent es (step k e) (step-IsConsistent e k c)

-- The idle task stays the same task.
pub step-idle_task : (e : Event) (k : Kernel) → (step k e).idle_task ≡ k.idle_task
unfolding step sem_call sys_sem_init sys_sem_wait sys_sem_signal sys_sem_destroy
step-idle_task (call (init n v)) k =
    in_range_cases (λ k'. k'.idle_task ≡ k.idle_task) n (λ i. init_at i v) k refl
      (λ i h. (idle_task-calls i v k).0)
step-idle_task (call (wait n)) k =
    in_range_cases (λ k'. k'.idle_task ≡ k.idle_task) n wait_at k refl
      (λ i h. (idle_task-calls i 0 k).1)
step-idle_task (call (signal n)) k =
    in_range_cases (λ k'. k'.idle_task ≡ k.idle_task) n signal_at k refl
      (λ i h. (idle_task-calls i 0 k).2)
step-idle_task (call (destroy n)) k =
    in_range_cases (λ k'. k'.idle_task ≡ k.idle_task) n destroy_at k refl
      (λ i h. (idle_task-calls i 0 k).3)
step-idle_task (irq r) k = interrupt_request_routine-idle_task r k

pub step-places :
    (e : Event) (k : Kernel) (u : ℕ)
    → IsConsistent k
    → u ≢ k.idle_task
    → places (step k e) u ≡ places k u
unfolding step sem_call sys_sem_init sys_sem_wait sys_sem_signal sys_sem_destroy
step-places (call (init n v)) k u c ne =
    in_range_cases (λ k'. places k' u ≡ places k u) n (λ i. init_at i v) k refl
      (λ i h. init_at-places i k u h ne v (c i).unused)
step-places (call (wait n)) k u c ne =
    in_range_cases (λ k'. places k' u ≡ places k u) n wait_at k refl
      (λ i h. wait_at-places i k u h ne)
step-places (call (signal n)) k u c ne =
    in_range_cases (λ k'. places k' u ≡ places k u) n signal_at k refl
      (λ i h. signal_at-places i k u h ne)
step-places (call (destroy n)) k u c ne =
    in_range_cases (λ k'. places k' u ≡ places k u) n destroy_at k refl
      (λ i h. destroy_at-places i k u h ne)
step-places (irq r) k u c ne = (interrupt_request_routine-places r k).0 u ne

-- From a consistent state, no history of semaphore calls and interrupts loses a task or doubles
-- one: every task but the idle one is in as many places, the queues and the processor together, as
-- at the start.
pub run-places :
    (es : List Event) (k : Kernel) (u : ℕ)
    → IsConsistent k
    → u ≢ k.idle_task
    → places (run k es) u ≡ places k u
unfolding run
run-places [] k u c ne = refl
run-places (e ∷ es) k u c ne =
    run-places es (step k e) u (step-IsConsistent e k c) (rw (step-idle_task e k) ne)
    ∙ step-places e k u c ne
