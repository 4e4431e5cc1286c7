-- ===== src/Sem/Consistent.antt =====
-- The invariant of the semaphores of sys.c: nobody waits at a semaphore that is not in use or that
-- is open.
use ze_ospi.Base.{
  ℕ, ◌≡◌, refl, sym, ap, ◌∙◌, ◌≢◌, inl, inr, List, [], ◌∷◌, true, false, not, ◌&&◌, ==→eq, ==→ne,
  eq→==, ◌==◌, if◌then◌else◌, Bool-cases, negsuc,
}
use mathlib.Core.Bool.{false≢true}
use ze_ospi.Kernel.{Sem, Kernel, with_sem}
use ze_ospi.Sched.{semaphore, sched_update_queues_state_rr}
use ze_ospi.Sched.Untouched.{
  sched_switch_process_rr-sem_array, sched_update_queues_state_rr-sem_array,
}
use ze_ospi.Sem.{
  has_no_owner, is_owner, init_at, wait_in_queue, wait_at, wake, signal_queue, signal_at, wake_all,
  destroy_at,
}
use ze_ospi.Sem.Conserve.{wake-sem_array}

pub record IsSound (s : Sem) : Type 0 where
  pub unused : has_no_owner s ≡ true → s.semqueue ≡ []
  pub closed : s.value ≢ 0 → s.semqueue ≡ []

abbrev pub IsConsistent : Kernel → Type 0
IsConsistent k = (n : ℕ) → IsSound (k.sem_array n)

-- A step that leaves every semaphore sound or as it was.
keep :
    (f g : ℕ → Sem) (n : ℕ) (s : Sem)
    → ((m : ℕ) → g m ≡ (if n == m then s else f m))
    → IsSound s
    → ((m : ℕ) → IsSound (f m))
    → (m : ℕ) → IsSound (g m)
keep f g n s e ok c m = elim (Bool-cases (n == m)) [
  | inl here ↦ rw (e m, here) ok
  | inr away ↦ rw (e m, away) (c m)
]

cons-ne-nil : {x : ℕ} {xs : List ℕ} → x ∷ xs ≢ []
cons-ne-nil e = cc

emptied : (s : Sem) → s.semqueue ≡ [] → s ≡ record s { semqueue = [] }
emptied s e = λ i. record s { semqueue = e i }

pub wake_all-sem_array :
    (xs : List ℕ) (n : ℕ) (k : Kernel)
    → (k.sem_array n).semqueue ≡ xs
    → (m : ℕ)
    → (wake_all xs n k).sem_array m
      ≡ (if n == m then record (k.sem_array n) { semqueue = [] } else k.sem_array m)
unfolding wake_all
wake_all-sem_array [] n k e m = elim (Bool-cases (n == m)) [
  | inl here ↦ rw here (ap k.sem_array (sym (==→eq n m here)) ∙ emptied (k.sem_array n) e)
  | inr away ↦ rw away refl
]
wake_all-sem_array (t ∷ ts) n k e m =
    let sems = (wake-sem_array n t ts k).0 in
    let at : (wake n t ts k).sem_array n ≡ record (k.sem_array n) { semqueue = ts } =
      rw (sems n, eq→== n n refl) refl in
    wake_all-sem_array ts n (wake n t ts k) (rw at refl) m
    ∙ rw (at, sems m)
        (elim (Bool-cases (n == m)) [ inl here ↦ rw here refl | inr away ↦ rw away refl ])

pub destroyed :
    (n : ℕ) (k : Kernel) (m : ℕ)
    → (wake_all
          (k.sem_array n).semqueue
          n
          (with_sem n (record (k.sem_array n) { pid_owner = negsuc 0 }) k)).sem_array
        m
      ≡ (if n == m
          then record (k.sem_array n) { pid_owner = negsuc 0; semqueue = [] }
          else k.sem_array m)
destroyed n k m =
    let s = record (k.sem_array n) { pid_owner = negsuc 0 } in
    let at : (with_sem n s k).sem_array n ≡ s = rw (eq→== n n refl) refl in
    wake_all-sem_array (k.sem_array n).semqueue n (with_sem n s k) (rw at refl) m
    ∙ rw at (elim (Bool-cases (n == m)) [ inl here ↦ rw here refl | inr away ↦ rw away refl ])

module _ (n : ℕ) (k : Kernel) (c : IsConsistent k) where
  pub init_at-IsConsistent : (value : ℕ) → IsConsistent (init_at n value k).1
  unfolding init_at
  init_at-IsConsistent value = elim (Bool-cases (has_no_owner (k.sem_array n))) [
    | inl unused ↦
        rw unused
          (keep k.sem_array _ n _ (λ m. refl) (record { unused = λ _. refl; closed = λ _. refl }) c)
    | inr in_use ↦ rw in_use c
  ]

  wait_in_queue-IsConsistent :
      has_no_owner (k.sem_array n) ≡ false
      → (k.sem_array n).value ≡ 0
      → IsConsistent (wait_in_queue n k).1
  unfolding wait_in_queue
  wait_in_queue-IsConsistent in_use closed m =
      let k' = sched_update_queues_state_rr (semaphore n) k.current k in
      rw
        (
          sched_switch_process_rr-sem_array k',
          sched_update_queues_state_rr-sem_array n k.current k m,
        )
        (elim (Bool-cases (n == m && not (k.current == k.idle_task))) [
          | inl here ↦ rw here (record { unused = cc; closed = λ nz. absurd (nz closed) })
          | inr away ↦ rw away (c m)
        ])

  pub wait_at-IsConsistent : IsConsistent (wait_at n k).1
  unfolding wait_at
  wait_at-IsConsistent = elim (Bool-cases (has_no_owner (k.sem_array n))) [
    | inl unused ↦ rw unused c
    | inr in_use ↦ rw in_use (elim (Bool-cases ((k.sem_array n).value == 0)) [
      | inl closed ↦ rw closed (wait_in_queue-IsConsistent in_use (==→eq _ 0 closed))
      | inr passes ↦ rw passes (
          keep k.sem_array _ n _ (λ m. refl)
            (record { unused = λ u. (c n).unused u; closed = λ _. (c n).closed (==→ne _ 0 passes) })
            c)
    ])
  ]

  signal_queue-IsConsistent :
      (xs : List ℕ)
      → has_no_owner (k.sem_array n) ≡ false
      → (k.sem_array n).semqueue ≡ xs
      → IsConsistent (signal_queue xs n k)
  signal_queue-IsConsistent [] in_use e =
      keep k.sem_array _ n _ (λ m. refl) (record { unused = λ _. e; closed = λ _. e }) c
  signal_queue-IsConsistent (t ∷ ts) in_use e =
      keep k.sem_array _ n _ (wake-sem_array n t ts k).0
        (record {
          unused = λ u. absurd (false≢true (sym in_use ∙ u));
          closed = λ nz. absurd (cons-ne-nil (sym e ∙ (c n).closed nz));
        })
        c

  pub signal_at-IsConsistent : IsConsistent (signal_at n k).1
  unfolding signal_at
  signal_at-IsConsistent = elim (Bool-cases (has_no_owner (k.sem_array n))) [
    | inl unused ↦ rw unused c
    | inr in_use ↦ rw in_use (signal_queue-IsConsistent (k.sem_array n).semqueue in_use refl)
  ]

  pub destroy_at-IsConsistent : IsConsistent (destroy_at n k).1
  unfolding destroy_at
  destroy_at-IsConsistent = elim (Bool-cases (has_no_owner (k.sem_array n))) [
    | inl unused ↦ rw unused c
    | inr in_use ↦
        rw in_use (elim (Bool-cases (is_owner (k.sem_array n).pid_owner (k.task k.current).pid)) [
          | inl mine ↦ rw mine (
              keep k.sem_array _ n _ (destroyed n k)
                (record { unused = λ _. refl; closed = λ _. refl }) c)
          | inr foreign ↦ rw foreign c
        ])
  ]
