-- ===== src/User/Released.antt =====
-- `semaphores_test1` of user.c and its clones over the kernel's semaphores.
use ze_ospi.Base.{
  ℕ, ◌+◌, ◌*◌, ◌≡◌, refl, sym, ap, ◌∙◌, inl, inr, List, [], ◌∷◌, ◌++◌, true, false, arith, length,
  ◌==◌, ==→ne, ==→eq, if◌then◌else◌, Bool-cases, pos, negsuc, ℤ,
}
use ze_ospi.Kernel.{Kernel}
use ze_ospi.Sem.{has_no_owner, sys_sem_init, init_at}
use ze_ospi.Sem.Consistent.{IsConsistent}
use ze_ospi.Events
use ze_ospi.Events.{Event, call, init, step, run}
use ze_ospi.Events.Safety.{step-IsConsistent, run-IsConsistent}
use ze_ospi.Events.Permits.{asks, brings, total, IsProper, run-permits}
use ze_ospi.User as User
use ze_ospi.User.{Action, Response, semaphores_test1sub, clone, sem_wait, sem_signal}
use ze_ospi.User.Programs.{semaphores_test1sub_body, semaphores_test1}
use ze_ospi.User.Clones.{complaint, clone-log}

-- What an action counts for: a clone that it makes, a wait at semaphore 0, or a signal to it.
abbrev pub clones : Action → ℕ
clones (clone f stack) = 1
clones _ = 0

abbrev pub waits : Action → ℕ
waits (sem_wait n) = if n == 0 then 1 else 0
waits _ = 0

abbrev pub signals : Action → ℕ
signals (sem_signal n) = if n == 0 then 1 else 0
signals _ = 0

abbrev pub sum_of : (Action → ℕ) → List Action → ℕ
sum_of f [] = 0
sum_of f (x ∷ xs) = f x + sum_of f xs

module _ {S : Type 0} (answer : Action → S → Response × S) where
  -- The actions of the program's first task, and of a clone.
  abbrev pub parent_log : (pidc : List ℕ) (e : ℤ) (s : S) → List Action
  parent_log pidc e s = (User.run answer (semaphores_test1 pidc e) s).log

  abbrev pub clone_log : (e : ℤ) (s : S) → List Action
  clone_log e s = (User.run answer (semaphores_test1sub_body e) s).log

  complaint-waits :
      (r : ℤ) (xs : List Action) → sum_of waits (complaint answer r ++ xs) ≡ sum_of waits xs
  complaint-waits (pos n) xs = refl
  complaint-waits (negsuc n) xs = omega arith

  clone_log-waits : (e : ℤ) (s : S) → sum_of waits (clone_log e s) ≡ 1
  clone_log-waits e s = rw (clone-log answer e s, complaint-waits) refl

  parent_log-counts :
      (pidc : List ℕ) (e : ℤ) (s : S)
      → (sum_of clones (parent_log pidc e s) ≡ 2) × (sum_of signals (parent_log pidc e s) ≡ 2)
  unfolding semaphores_test1
  parent_log-counts pidc e s = (refl, refl)

-- The semaphore after the program's `sem_init(0,0)`.
abbrev pub initialised : Kernel → Kernel
initialised k = step k (call (init (pos 0) 0))

initialised-open :
    (k : Kernel)
    → has_no_owner (k.sem_array 0) ≡ true
    → let s = (initialised k).sem_array 0 in
      (s.value ≡ 0) × (s.semqueue ≡ []) × (has_no_owner s ≡ false)
unfolding step Events.sem_call sys_sem_init init_at
initialised-open k free = (ground (arith, free), ground (arith, free), ground (arith, free))

length-zero : (xs : List ℕ) → length xs ≡ 0 → xs ≡ []
length-zero [] e = refl
length-zero (x ∷ xs) e = absurd (omega arith)

-- At a consistent semaphore with as many permits as waiters there is neither.
all_gone :
    (k : Kernel)
    → IsConsistent k
    → (k.sem_array 0).value ≡ length (k.sem_array 0).semqueue
    → ((k.sem_array 0).value ≡ 0) × ((k.sem_array 0).semqueue ≡ [])
all_gone k c e = elim (Bool-cases ((k.sem_array 0).value == 0)) [
  | inl none_left ↦
      let zero_left = ==→eq (k.sem_array 0).value 0 none_left in
      (zero_left, length-zero (k.sem_array 0).semqueue (sym e ∙ zero_left))
  | inr some_left ↦
      let empty = (c 0).closed (==→ne (k.sem_array 0).value 0 some_left) in
      (e ∙ ap length empty, empty)
]

-- Whatever the kernel answers to the program's other calls, and however the waits of its clones, the
-- signals of its first task and interrupts follow one another after the semaphore was made: when each
-- clone has waited and the first task has signalled as often as its text says, no clone is left at
-- semaphore 0, and no permit. The semaphore is to be free at first, the kernel consistent, and in
-- between no signal overflows, nobody destroys the semaphore, and the idle task does not wait.
pub semaphores_test1-releases :
    {S T : Type 0} (parent : Action → S → Response × S) (child : Action → T → Response × T)
    (pidc : List ℕ) (e e' : ℤ) (s : S) (t : T) (k : Kernel) (es : List Event)
    → IsConsistent k
    → has_no_owner (k.sem_array 0) ≡ true
    → IsProper 0 (initialised k) es
    → total (asks 0) es
      ≡ sum_of clones (parent_log parent pidc e s) * sum_of waits (clone_log child e' t)
    → total (brings 0) es ≡ sum_of signals (parent_log parent pidc e s)
    → let k' = run (initialised k) es in
      ((k'.sem_array 0).value ≡ 0) × ((k'.sem_array 0).semqueue ≡ [])
semaphores_test1-releases parent child pidc e e' s t k es c free proper waited signalled =
    let (v, q, owned) = initialised-open k free in
    let (two, two') = parent_log-counts parent pidc e s in
    let one = clone_log-waits child e' t in
    let asked : total (asks 0) es ≡ 2 = rw (two, one) at waited in
    let balance = run-permits es 0 (initialised k) (omega arith) (omega (arith, v)) owned proper in
    let empty : length ((initialised k).sem_array 0).semqueue ≡ 0 = ap length q in
    all_gone (run (initialised k) es)
      (run-IsConsistent es (initialised k) (step-IsConsistent (call (init (pos 0) 0)) k c))
      (omega (arith, v, balance, asked, signalled, two', empty))
