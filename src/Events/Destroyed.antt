-- ===== src/Events/Destroyed.antt =====
-- What those that wait at a semaphore of sys.c get if its owner destroys it, when they run again.
use ze_ospi.Base.{
  ℕ, ◌≡◌, refl, sym, ap, ◌∙◌, ◌≢◌, inl, inr, List, [], ◌∷◌, ◌++◌, true, false, All, ltb, Bool-cases,
  ◌==◌, ==→eq, ne→==, pos, negsuc, neg,
}
use mathlib.Core.Bool.{false≢true}
use ze_ospi.Errno.{esdest}
use ze_ospi.Kernel.{Sem, Kernel, Reply, returns, st_ready}
use ze_ospi.Kernel.Places.{sem_size}
use ze_ospi.Sched.{semaphore, sched_update_queues_state_rr}
use ze_ospi.Sched.Untouched.{
  sched_switch_process_rr-sem_array, sched_update_queues_state_rr-sem_array,
}
use ze_ospi.Sem.{
  has_no_owner, is_owner, in_range, init_at, wait_at, wait_in_queue, wait_end, signal_queue,
  signal_at, destroy_at, sys_sem_init, sys_sem_wait, sys_sem_signal, sys_sem_destroy,
}
use ze_ospi.Sem.Conserve.{wake-sem_array}
use ze_ospi.Sem.Behaviour.{destroy_at-wakes}
use ze_ospi.Interrupt.Irq.{interrupt_request_routine-places}
use ze_ospi.Sem.Consistent.{destroyed}
use ze_ospi.Events.{init, wait, signal, destroy, sem_call, Event, call, irq, step, run}

-- No event initialises semaphore `n`.
abbrev pub Leaves : ℕ → Event → Type 0
Leaves n (call (init m v)) = m ≢ pos n
Leaves n (call (wait m)) = Unit
Leaves n (call (signal m)) = Unit
Leaves n (call (destroy m)) = Unit
Leaves n (irq r) = Unit

module _ (n : ℕ) where
  abbrev IsUnowned : Kernel → Type 0
  IsUnowned k = has_no_owner (k.sem_array n) ≡ true

  module _ (m : ℕ) (k : Kernel) (h : IsUnowned k) where
    -- A call at a semaphore in use is at another one.
    another : has_no_owner (k.sem_array m) ≡ false → (m == n) ≡ false
    another used = elim (Bool-cases (m == n)) [
      | inr other ↦ other
      | inl here ↦
          absurd
            (false≢true (sym used ∙ ap (λ i. has_no_owner (k.sem_array i)) (==→eq m n here) ∙ h))
    ]

    abbrev Keeps : Kernel → Type 0
    Keeps k' = k'.sem_array n ≡ k.sem_array n

    wait_at-Keeps : Keeps ((wait_at m k).1)
    unfolding wait_at wait_in_queue
    wait_at-Keeps = elim (Bool-cases (has_no_owner (k.sem_array m))) [
      | inl unused ↦ rw unused refl
      | inr used ↦ rw used (elim (Bool-cases ((k.sem_array m).value == 0)) [
        | inl zero ↦
            let k1 = sched_update_queues_state_rr (semaphore m) k.current k in
            rw zero (
              ap (λ (f : ℕ → Sem). f n) (sched_switch_process_rr-sem_array k1)
              ∙ sched_update_queues_state_rr-sem_array m k.current k n
              ∙ rw (another used) refl)
        | inr passes ↦ rw (passes, another used) refl
      ])
    ]

    signal_queue-Keeps : (xs : List ℕ) → (m == n) ≡ false → Keeps (signal_queue xs m k)
    signal_queue-Keeps [] other = rw other refl
    signal_queue-Keeps (t ∷ ts) other = (wake-sem_array m t ts k).0 n ∙ rw other refl

    signal_at-Keeps : Keeps ((signal_at m k).1)
    unfolding signal_at
    signal_at-Keeps = elim (Bool-cases (has_no_owner (k.sem_array m))) [
      | inl unused ↦ rw unused refl
      | inr used ↦ rw used (signal_queue-Keeps (k.sem_array m).semqueue (another used))
    ]

    init_at-Keeps : (v : ℕ) → m ≢ n → Keeps ((init_at m v k).1)
    unfolding init_at
    init_at-Keeps v ne = elim (Bool-cases (has_no_owner (k.sem_array m))) [
      | inl unused ↦ rw (unused, ne→== m n ne) refl
      | inr used ↦ rw used refl
    ]

    destroy_at-Keeps : Keeps ((destroy_at m k).1)
    unfolding destroy_at
    destroy_at-Keeps = elim (Bool-cases (has_no_owner (k.sem_array m))) [
      | inl unused ↦ rw unused refl
      | inr used ↦
          rw used (elim (Bool-cases (is_owner (k.sem_array m).pid_owner (k.task k.current).pid)) [
            | inl mine ↦ rw mine (destroyed m k n ∙ rw (another used) refl)
            | inr foreign ↦ rw foreign refl
          ])
    ]

    ranged :
        (c : ℕ → Kernel → Reply × Kernel) → Keeps ((c m k).1) → Keeps ((in_range (pos m) c k).1)
    ranged c kept = elim (Bool-cases (ltb m sem_size)) [
      | inl ok ↦ rw (ok, in_range) kept
      | inr bad ↦ rw (bad, in_range) refl
    ]

  -- A semaphore that nobody owns stays as it is until somebody initialises it.
  step-keeps :
      (e : Event) (k : Kernel) → IsUnowned k → Leaves n e → (step k e).sem_array n ≡ k.sem_array n
  unfolding step sem_call sys_sem_init sys_sem_wait sys_sem_signal sys_sem_destroy
  step-keeps (call (init (pos m) v)) k h ok =
      ranged m k h (λ i. init_at i v) (init_at-Keeps m k h v (λ e. ok (ap pos e)))
  step-keeps (call (init (negsuc m) v)) k h ok = refl
  step-keeps (call (wait (pos m))) k h ok = ranged m k h wait_at (wait_at-Keeps m k h)
  step-keeps (call (wait (negsuc m))) k h ok = refl
  step-keeps (call (signal (pos m))) k h ok = ranged m k h signal_at (signal_at-Keeps m k h)
  step-keeps (call (signal (negsuc m))) k h ok = refl
  step-keeps (call (destroy (pos m))) k h ok = ranged m k h destroy_at (destroy_at-Keeps m k h)
  step-keeps (call (destroy (negsuc m))) k h ok = refl
  step-keeps (irq r) k h ok = ap (λ (f : ℕ → Sem). f n) ((interrupt_request_routine-places r k).1)

  run-keeps :
      (es : List Event) (k : Kernel)
      → IsUnowned k
      → All (Leaves n) es
      → (run k es).sem_array n ≡ k.sem_array n
  unfolding run
  run-keeps [] k h all = refl
  run-keeps (e ∷ es) k h (ok, all) =
      let same = step-keeps e k h ok in run-keeps es (step k e) (rw same h) all ∙ same

-- When the owner destroys a semaphore at which the idle task does not wait, all who wait there become
-- ready, in the order in which they came, behind those that are ready already, and the queue is empty.
-- Whatever semaphore calls and interrupts follow, as long as nobody initialises the semaphore again a
-- waiter that goes on then returns the error of a destroyed semaphore.
pub destroy_at-wait_end :
    (n : ℕ) (k : Kernel) (es : List Event)
    → let s = k.sem_array n in
      has_no_owner s ≡ false
      → is_owner s.pid_owner (k.task k.current).pid ≡ true
      → All (λ t. t ≢ k.idle_task) s.semqueue
      → All (Leaves n) es
      → let k' = (destroy_at n k).1 in
        ((destroy_at n k).0 ≡ returns (pos 0))
        × (k'.readyqueue ≡ k.readyqueue ++ s.semqueue)
        × All (λ t. (k'.task t).process_state ≡ st_ready) s.semqueue
        × ((k'.sem_array n).semqueue ≡ [])
        × (wait_end n (run k' es) ≡ neg esdest)
unfolding wait_end
destroy_at-wait_end n k es owned mine busy leaves =
    let (ret, ready, all, empty, unowned) = destroy_at-wakes n k owned mine busy in
    let k' = (destroy_at n k).1 in
    let gone = run-keeps n es k' unowned leaves in
    (ret, ready, all, empty, rw (gone, has_no_owner, unowned) refl)
