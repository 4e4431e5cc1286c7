-- ===== src/Kernel/Places.antt =====
-- Where a task is: how often it stands in the queues, and whether it is the running one.
use ze_ospi.Base.{
  ℕ, zero, suc, ◌+◌, ◌<◌, ◌≤◌, ◌≡◌, refl, ap, ◌≢◌, List, [], ◌∷◌, ◌++◌, inl, inr, arith, ◌==◌,
  if◌then◌else◌, Bool-cases, ==→eq, eq→==, ==→ne,
}
use ze_ospi.Kernel.{Sem, Kernel}

abbrev pub count : ℕ → List ℕ → ℕ
count t [] = 0
count t (x ∷ xs) = (if x == t then 1 else 0) + count t xs

pub count-append : (t : ℕ) (xs ys : List ℕ) → count t (xs ++ ys) ≡ count t xs + count t ys
count-append t [] ys = omega arith
count-append t (x ∷ xs) ys = omega (arith, count-append t xs ys)

-- In the queues of the first `n` semaphores.
pub count_sems : ℕ → ℕ → (ℕ → Sem) → ℕ
count_sems t zero s = 0
count_sems t (suc n) s = count_sems t n s + count t (s n).semqueue

pub count_sems-set_beyond :
    (t n m : ℕ) (s : ℕ → Sem) (x : Sem)
    → n ≤ m
    → count_sems t n (λ i. if m == i then x else s i) ≡ count_sems t n s
unfolding count_sems
count_sems-set_beyond t zero m s x h = refl
count_sems-set_beyond t (suc n) m s x h =
    ground (arith, count_sems-set_beyond t n m s x (omega arith))

-- Changing one semaphore changes the sum by the change of its queue.
pub count_sems-set :
    (t n m : ℕ) (s : ℕ → Sem) (x : Sem)
    → m < n
    → count_sems t n (λ i. if m == i then x else s i) + count t (s m).semqueue
      ≡ count_sems t n s + count t x.semqueue
unfolding count_sems
count_sems-set t zero m s x h = absurd (omega arith)
count_sems-set t (suc n) m s x h = elim (Bool-cases (m == n)) [
  | inl last ↦
      let e : m ≡ n = ==→eq m n last in
      rw (e, eq→== n n refl) (omega (arith, count_sems-set_beyond t n n s x (omega arith)))
  | inr before ↦
      let ne : m ≢ n = ==→ne m n before in
      rw before (omega (arith, count_sems-set t n m s x (omega arith)))
]

-- Nobody waits at semaphores with empty queues.
pub count_sems-empty :
    (t n : ℕ) (s : ℕ → Sem) → ((m : ℕ) → (s m).semqueue ≡ []) → count_sems t n s ≡ 0
unfolding count_sems
count_sems-empty t zero s e = refl
count_sems-empty t (suc n) s e = omega (arith, count_sems-empty t n s e, ap (count t) (e n))

-- include/mm_address.h
abbrev pub sem_size : ℕ
sem_size = 30

unfoldable pub queued : Kernel → ℕ → ℕ
queued k t =
    count t k.freequeue
    + count t k.readyqueue
    + count t k.keyboardqueue
    + count_sems t sem_size k.sem_array

abbrev pub running : Kernel → ℕ → ℕ
running k t = if k.current == t then 1 else 0

-- The number of places that a task is in.
abbrev pub places : Kernel → ℕ → ℕ
places k t = queued k t + running k t
