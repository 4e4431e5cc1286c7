-- ===== src/Events/Permits.antt =====
-- A semaphore of sys.c against a counter of permits, over histories of events.
use ze_ospi.Base.{
  ℕ, ◌+◌, ◌^◌, ◌<◌, ◌≡◌, refl, ap, ◌≢◌, inl, inr, List, [], ◌∷◌, false, arith, length, ltb, ne→==,
  ltb→le, ◌==◌, if◌then◌else◌, Bool-cases, pos, negsuc,
}
use ze_ospi.Kernel.{Sem, Kernel, Reply}
use ze_ospi.Kernel.Places.{sem_size}
use ze_ospi.Sem.{
  has_no_owner, in_range, init_at, wait_at, signal_at, destroy_at, sys_sem_init, sys_sem_wait,
  sys_sem_signal, sys_sem_destroy,
}
use ze_ospi.Interrupt.Irq.{interrupt_request_routine-places}
use ze_ospi.Events.{init, wait, signal, destroy, sem_call, Event, call, irq, step, run}
use ze_ospi.Events.Moves.{
  Moves, still, wait_at-Moves, signal_at-Moves, init_at-Moves, destroy_at-Moves,
}

-- How many permits of semaphore `n` an event asks for, and how many it brings.
abbrev pub asks : ℕ → Event → ℕ
asks n (call (wait (pos m))) = if m == n then 1 else 0
asks n (call (wait (negsuc m))) = 0
asks n (call (init m v)) = 0
asks n (call (signal m)) = 0
asks n (call (destroy m)) = 0
asks n (irq r) = 0

abbrev pub brings : ℕ → Event → ℕ
brings n (call (signal (pos m))) = if m == n then 1 else 0
brings n (call (signal (negsuc m))) = 0
brings n (call (init m v)) = 0
brings n (call (wait m)) = 0
brings n (call (destroy m)) = 0
brings n (irq r) = 0

abbrev pub total : (Event → ℕ) → List Event → ℕ
total f [] = 0
total f (e ∷ es) = f e + total f es

-- The idle task never waits, semaphore `n` is not destroyed, and its value does not overflow.
abbrev pub IsAllowed : ℕ → Kernel → Event → Type 0
IsAllowed n k (call (wait m)) = k.current ≢ k.idle_task
IsAllowed n k (call (signal m)) = (k.sem_array n).value + 1 < 2 ^ 32
IsAllowed n k (call (destroy m)) = m ≢ pos n
IsAllowed n k (call (init m v)) = Unit
IsAllowed n k (irq r) = Unit

abbrev pub IsProper : ℕ → Kernel → List Event → Type 0
IsProper n k [] = Unit
IsProper n k (e ∷ es) = IsAllowed n k e × IsProper n (step k e) es

module _ (n : ℕ) (k : Kernel) (h : n < sem_size) (small : (k.sem_array n).value < 2 ^ 32) where
  -- A call on a semaphore out of range does nothing, and asks for nothing at semaphore `n`.
  ranged :
      (m : ℕ) (c : ℕ → Kernel → Reply × Kernel) (f g : ℕ)
      → ((m == n) ≡ false → (f ≡ 0) × (g ≡ 0))
      → Moves f g (k.sem_array n) ((c m k).1.sem_array n)
      → Moves f g (k.sem_array n) ((in_range (pos m) c k).1.sem_array n)
  ranged m c f g none_of done = elim (Bool-cases (ltb m sem_size)) [
    | inl ok ↦ rw (ok, in_range) done
    | inr bad ↦
        let le = ltb→le m sem_size bad in
        let zeros = none_of (ne→== m n (omega arith)) in
        rw (bad, in_range, zeros.0, zeros.1) (still small refl)
  ]

  step-Moves :
      (e : Event)
      → has_no_owner (k.sem_array n) ≡ false
      → IsAllowed n k e
      → Moves (asks n e) (brings n e) (k.sem_array n) ((step k e).sem_array n)
  unfolding step sem_call sys_sem_init sys_sem_wait sys_sem_signal sys_sem_destroy
  step-Moves (call (init (pos m) v)) owned ok =
      ranged m (λ i. init_at i v) 0 0 (λ _. (refl, refl)) (init_at-Moves n m k small owned v)
  step-Moves (call (init (negsuc m) v)) owned ok = still small refl
  step-Moves (call (wait (pos m))) owned ok =
      ranged m wait_at (if m == n then 1 else 0) 0 (λ e. (rw e refl, refl))
        (wait_at-Moves n m k small owned ok)
  step-Moves (call (wait (negsuc m))) owned ok = still small refl
  step-Moves (call (signal (pos m))) owned ok =
      ranged m signal_at 0 (if m == n then 1 else 0) (λ e. (refl, rw e refl))
        (signal_at-Moves n m k small owned ok)
  step-Moves (call (signal (negsuc m))) owned ok = still small refl
  step-Moves (call (destroy (pos m))) owned ok =
      ranged m destroy_at 0 0 (λ _. (refl, refl))
        (destroy_at-Moves n m k small owned (λ e. ok (ap pos e)))
  step-Moves (call (destroy (negsuc m))) owned ok = still small refl
  step-Moves (irq r) owned ok =
      still small (ap (λ (f : ℕ → Sem). f n) (interrupt_request_routine-places r k).1)

-- One of the 30 semaphores, in use and with a value below 2 ^ 32, counts permits. Over any history of semaphore calls and interrupts in which
-- the idle task never waits, no signal overflows it and it is not destroyed, the value at the start
-- and the signals make up the value at the end, the waits, and the waiters that have gone by then,
-- less those that have come.
pub run-permits :
    (es : List Event) (n : ℕ) (k : Kernel)
    → n < sem_size
    → (k.sem_array n).value < 2 ^ 32
    → has_no_owner (k.sem_array n) ≡ false
    → IsProper n k es
    → let s = k.sem_array n in
      let s' = (run k es).sem_array n in
      s'.value + total (asks n) es + length s.semqueue
      ≡ s.value + total (brings n) es + length s'.semqueue
unfolding run
run-permits [] n k h small owned proper = omega arith
run-permits (e ∷ es) n k h small owned proper =
    let m = step-Moves n k h small e owned proper.0 in
    let owned' : has_no_owner ((step k e).sem_array n) ≡ false = rw (m.owner, has_no_owner) owned in
    omega (arith, m.balance, run-permits es n (step k e) h m.small owned' proper.1)
