-- ===== src/Sem/Behaviour.antt =====
-- What the semaphore calls of sys.c mean for those that wait.
use ze_ospi.Base.{
  ℕ, ◌≡◌, refl, sym, ap, ◌∙◌, ◌≢◌, List, [], ◌∷◌, ◌++◌, true, false, arith, All, eq→==, pos, negsuc,
}
use mathlib.Core.List.{append_assoc, append-nil}
use ze_ospi.Kernel.{Kernel, with_sem, returns, st_ready, Sem}
use ze_ospi.Sched.{sched_update_queues_state_rr}
use ze_ospi.Sem.{has_no_owner, is_owner, wake, wake_all, destroy_at}
use ze_ospi.Sem.Conserve.{wake-sem_array}
use ze_ospi.Sem.Consistent.{wake_all-sem_array}

wake-readyqueue :
    (n t : ℕ) (ts : List ℕ) (k : Kernel)
    → t ≢ k.idle_task
    → ((wake n t ts k).readyqueue ≡ k.readyqueue ++ t ∷ [])
      × ((u : ℕ)
          → (k.task u).process_state ≡ st_ready
          → ((wake n t ts k).task u).process_state ≡ st_ready)
      × (((wake n t ts k).task t).process_state ≡ st_ready)
unfolding sched_update_queues_state_rr
wake-readyqueue n t ts k busy = (ground arith, λ u e. ground arith, ground arith)

wake_all-readyqueue :
    (xs : List ℕ) (n : ℕ) (k : Kernel)
    → All (λ t. t ≢ k.idle_task) xs
    → let k' = wake_all xs n k in
      (k'.readyqueue ≡ k.readyqueue ++ xs)
      × ((u : ℕ) → (k.task u).process_state ≡ st_ready → (k'.task u).process_state ≡ st_ready)
      × All (λ t. (k'.task t).process_state ≡ st_ready) xs
unfolding wake_all
wake_all-readyqueue [] n k busy = (sym (append-nil k.readyqueue), λ u e. e, tt)
wake_all-readyqueue (t ∷ ts) n k busy =
    let k' = wake n t ts k in
    let (r, keeps, woken) = wake-readyqueue n t ts k busy.0 in
    let idle = (wake-sem_array n t ts k).1 in
    let (rs, keep_all, all) = wake_all-readyqueue ts n k' (rw idle busy.1) in
    (
      rs ∙ ap (λ zs. zs ++ ts) r ∙ append_assoc k.readyqueue (t ∷ []) ts,
      λ u e. keep_all u (keeps u e),
      (keep_all t woken, all),
    )

-- When the owner destroys a semaphore, all who wait there become ready, in the order in which they
-- came, behind those that are ready already, if none of them is the idle task. The queue is empty
-- then, and the semaphore has no owner.
pub destroy_at-wakes :
    (n : ℕ) (k : Kernel)
    → let s = k.sem_array n in
      has_no_owner s ≡ false
      → is_owner s.pid_owner (k.task k.current).pid ≡ true
      → All (λ t. t ≢ k.idle_task) s.semqueue
      → let k' = (destroy_at n k).1 in
        ((destroy_at n k).0 ≡ returns (pos 0))
        × (k'.readyqueue ≡ k.readyqueue ++ s.semqueue)
        × All (λ t. (k'.task t).process_state ≡ st_ready) s.semqueue
        × ((k'.sem_array n).semqueue ≡ [])
        × (has_no_owner (k'.sem_array n) ≡ true)
unfolding destroy_at
destroy_at-wakes n k owned mine busy =
    let s = k.sem_array n in
    let k1 = with_sem n (record s { pid_owner = negsuc 0 }) k in
    let (r, _, all) = wake_all-readyqueue s.semqueue n k1 busy in
    let e : k1.sem_array n ≡ record s { pid_owner = negsuc 0 } = rw (eq→== n n refl) refl in
    let sems = wake_all-sem_array s.semqueue n k1 (ap (λ (s : Sem). s.semqueue) e) n in
    rw (owned, mine, sems, eq→== n n refl) (refl, r, all, refl, refl)
