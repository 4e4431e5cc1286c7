-- ===== src/Events/Moves.antt =====
-- What one semaphore call of sys.c does to the permits of one semaphore.
use ze_ospi.Base.{
  ℕ, suc, ◌+◌, ◌^◌, ◌<◌, ◌≡◌, refl, sym, ap, ◌∙◌, ◌≢◌, inl, inr, List, [], ◌∷◌, true, false, arith,
  length, length-append, ==→eq, ==→ne, ne→==, ◌==◌, if◌then◌else◌, Bool-cases,
}
use mathlib.Core.Bool.{false≢true}
use ze_ospi.Kernel.{Sem, Kernel}
use ze_ospi.Sched.{semaphore, sched_update_queues_state_rr}
use ze_ospi.Sched.Untouched.{
  sched_switch_process_rr-sem_array, sched_update_queues_state_rr-sem_array,
}
use ze_ospi.Sem.{
  has_no_owner, is_owner, init_at, wait_in_queue, wait_at, signal_queue, signal_at, destroy_at,
}
use ze_ospi.Sem.Conserve.{wake-sem_array}
use ze_ospi.Sem.Consistent.{destroyed}

-- What one event does to a semaphore in use: it takes `taken` permits and gives `given`.
pub record Moves (taken given : ℕ) (s s' : Sem) : Type 0 where
  pub balance : s'.value + taken + length s.semqueue ≡ s.value + given + length s'.semqueue
  pub owner : s'.pid_owner ≡ s.pid_owner
  pub small : s'.value < 2 ^ 32

pub still : {s s' : Sem} → s.value < 2 ^ 32 → s' ≡ s → Moves 0 0 s s'
still {s} h e = record {
  balance = omega (arith, ap (λ (s : Sem). s.value) e, ap (λ (s : Sem). length s.semqueue) e);
  owner = ap (λ (s : Sem). s.pid_owner) e;
  small = omega (arith, ap (λ (s : Sem). s.value) e);
}

module _ (n m : ℕ) (k : Kernel) (small : (k.sem_array n).value < 2 ^ 32)
    (owned : has_no_owner (k.sem_array n) ≡ false) where
  wait_in_queue-Moves :
      k.current ≢ k.idle_task
      → Moves (if m == n then 1 else 0) 0 (k.sem_array n) ((wait_in_queue m k).1.sem_array n)
  unfolding wait_in_queue
  wait_in_queue-Moves busy =
      let k' = sched_update_queues_state_rr (semaphore m) k.current k in
      rw
        (
          sched_switch_process_rr-sem_array k',
          sched_update_queues_state_rr-sem_array m k.current k n,
          ne→== k.current k.idle_task busy,
        )
        (elim (Bool-cases (m == n)) [
          | inl here ↦
              rw (here, ==→eq m n here)
                (record {
                  balance = omega (arith, length-append (k.sem_array n).semqueue (k.current ∷ []));
                  owner = refl;
                  small = small;
                })
          | inr away ↦ rw away (still small refl)
        ])

  -- A semaphore that is not in use is another one.
  other : has_no_owner (k.sem_array m) ≡ true → (m == n) ≡ false
  other unused = elim (Bool-cases (m == n)) [
    | inl here ↦ absurd (
        false≢true
          (sym owned ∙ ap (λ i. has_no_owner (k.sem_array i)) (sym (==→eq m n here)) ∙ unused))
    | inr away ↦ away
  ]

  pub wait_at-Moves :
      k.current ≢ k.idle_task
      → Moves (if m == n then 1 else 0) 0 (k.sem_array n) ((wait_at m k).1.sem_array n)
  unfolding wait_at
  wait_at-Moves busy = elim (Bool-cases (has_no_owner (k.sem_array m))) [
    | inl unused ↦ rw (unused, other unused) (still small refl)
    | inr in_use ↦ rw in_use (elim (Bool-cases ((k.sem_array m).value == 0)) [
      | inl closed ↦ rw closed (wait_in_queue-Moves busy)
      | inr passes ↦ rw passes (elim (Bool-cases (m == n)) [
        | inl here ↦
            let ne : (k.sem_array n).value ≢ 0 =
              rw (← ==→eq m n here) (==→ne (k.sem_array m).value 0 passes) in
            rw (here, ==→eq m n here)
              (record { balance = omega arith; owner = refl; small = omega arith })
        | inr away ↦ rw away (still small refl)
      ])
    ])
  ]

  signal_queue-Moves :
      (xs : List ℕ)
      → (k.sem_array n).value + 1 < 2 ^ 32
      → (k.sem_array m).semqueue ≡ xs
      → Moves 0 (if m == n then 1 else 0) (k.sem_array n) ((signal_queue xs m k).sem_array n)
  signal_queue-Moves [] room e = elim (Bool-cases (m == n)) [
    | inl here ↦
        rw (here, ==→eq m n here)
          (record { balance = omega arith; owner = refl; small = omega arith })
    | inr away ↦ rw away (still small refl)
  ]
  signal_queue-Moves (t ∷ ts) room e =
      rw ((wake-sem_array m t ts k).0 n) (elim (Bool-cases (m == n)) [
        | inl here ↦
            let len : length (k.sem_array n).semqueue ≡ suc (length ts) =
              rw (← ==→eq m n here, e) refl in
            rw (here, ==→eq m n here)
              (record { balance = omega arith; owner = refl; small = small })
        | inr away ↦ rw away (still small refl)
      ])

  pub signal_at-Moves :
      (k.sem_array n).value + 1 < 2 ^ 32
      → Moves 0 (if m == n then 1 else 0) (k.sem_array n) ((signal_at m k).1.sem_array n)
  unfolding signal_at
  signal_at-Moves room = elim (Bool-cases (has_no_owner (k.sem_array m))) [
    | inl unused ↦ rw (unused, other unused) (still small refl)
    | inr in_use ↦ rw in_use (signal_queue-Moves (k.sem_array m).semqueue room refl)
  ]

  pub init_at-Moves : (v : ℕ) → Moves 0 0 (k.sem_array n) ((init_at m v k).1.sem_array n)
  unfolding init_at
  init_at-Moves v = elim (Bool-cases (has_no_owner (k.sem_array m))) [
    | inl unused ↦ rw (unused, other unused) (still small refl)
    | inr in_use ↦ rw in_use (still small refl)
  ]

  pub destroy_at-Moves : m ≢ n → Moves 0 0 (k.sem_array n) ((destroy_at m k).1.sem_array n)
  unfolding destroy_at
  destroy_at-Moves ne = elim (Bool-cases (has_no_owner (k.sem_array m))) [
    | inl unused ↦ rw unused (still small refl)
    | inr in_use ↦
        rw in_use (elim (Bool-cases (is_owner (k.sem_array m).pid_owner (k.task k.current).pid)) [
          | inl mine ↦ rw mine (still small (destroyed m k n ∙ rw (ne→== m n ne) refl))
          | inr foreign ↦ rw foreign (still small refl)
        ])
  ]
