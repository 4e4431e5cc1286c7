-- ===== src/Interrupt/Quantum.antt =====
-- The time slices of interrupt.c and sched.c: what the ticks of one slice do.
use ze_ospi.Base.{
  ℕ, zero, suc, ◌+◌, ◌<◌, ◌≤◌, ◌≡◌, refl, sym, ap, ◌∙◌, ◌≢◌, List, [], ◌∷◌, ◌++◌, true, arith,
}
use ze_ospi.Cbuffer.{circularb_is_empty}
use ze_ospi.Kernel.{Kernel}
use ze_ospi.Sched.{
  ready, default_rr_quantum, take_first, choose, give_cpu, task_switch_wrapper,
  sched_update_data_rr, sched_change_needed_rr, sched_update_queues_state_rr,
  sched_switch_process_rr,
}
use ze_ospi.Sched.Conserve.{give_cpu-queued}
use ze_ospi.Interrupt.{clock_increase, timer_tick}

unfoldable pub ticks : ℕ → Kernel → Kernel
ticks zero k = k
ticks (suc n) k = ticks n (timer_tick k)

-- The running task and behind it those that are ready.
abbrev pub line : Kernel → List ℕ
line k = k.current ∷ k.readyqueue

-- The first task goes behind the others.
abbrev pub rotate : List ℕ → List ℕ
rotate [] = []
rotate (t ∷ ts) = ts ++ t ∷ []

-- What a slice needs of the rest of the kernel.
pub record Like (k k' : Kernel) : Type 0 where
  pub idle : k'.idle_task ≡ k.idle_task
  pub keys : k'.uart_read_buffer ≡ k.uart_read_buffer

pub Like-trans : {k k' k'' : Kernel} → Like k k' → Like k' k'' → Like k k''
Like-trans a b = record { idle = b.idle ∙ a.idle; keys = b.keys ∙ a.keys }

timer_tick-counts :
    (k : Kernel)
    → 1 < k.rr_quantum
    → k.rr_quantum ≤ default_rr_quantum
    → let k' = timer_tick k in (line k' ≡ line k) × (k'.rr_quantum + 1 ≡ k.rr_quantum) × Like k k'
unfolding timer_tick clock_increase sched_update_data_rr sched_change_needed_rr
timer_tick-counts k h l =
    (ground arith, ground arith, record { idle = ground arith; keys = ground arith })

choose-line :
    (k : Kernel) (t : ℕ) (ts : List ℕ)
    → circularb_is_empty k.uart_read_buffer ≡ true
    → k.readyqueue ≡ t ∷ ts
    → choose k ≡ (t, record k { readyqueue = ts })
unfolding choose
choose-line k t ts none e =
    rw none (ap (λ xs. take_first xs (λ ts. record k { readyqueue = ts }) (k.idle_task, k)) e)

give_cpu-line :
    (t : ℕ) (k : Kernel)
    → let k' = give_cpu t k in
      (k'.readyqueue ≡ k.readyqueue) × (k'.rr_quantum ≡ default_rr_quantum) × Like k k'
unfolding give_cpu task_switch_wrapper
give_cpu-line t k =
    (ground arith, ground arith, record { idle = ground arith; keys = ground arith })

switch-line :
    (k : Kernel) (t : ℕ) (ts : List ℕ)
    → circularb_is_empty k.uart_read_buffer ≡ true
    → k.readyqueue ≡ t ∷ ts
    → let k' = sched_switch_process_rr k in
      (line k' ≡ t ∷ ts) × (k'.rr_quantum ≡ default_rr_quantum) × Like k k'
unfolding sched_switch_process_rr
switch-line k t ts none e =
    let k1 = record k { readyqueue = ts } in
    let g = give_cpu-line t k1 in
    rw (choose-line k t ts none e) (
      (rw ((give_cpu-queued t k1 0).1, g.0) refl),
      g.1,
      record { idle = g.2.idle; keys = g.2.keys },
    )

requeue-line :
    (k : Kernel)
    → k.current ≢ k.idle_task
    → let k' = sched_update_queues_state_rr ready k.current k in
      (k'.readyqueue ≡ k.readyqueue ++ k.current ∷ []) × Like k k'
unfolding sched_update_queues_state_rr
requeue-line k busy = (ground arith, record { idle = ground arith; keys = ground arith })

-- The front of a line that is not empty.
rotated : (t : ℕ) (ts : List ℕ) → (u : ℕ) × (us : List ℕ) × (ts ++ t ∷ [] ≡ u ∷ us)
rotated t [] = (t, [], refl)
rotated t (x ∷ xs) = (x, xs ++ t ∷ [], refl)

timer_tick-rotates :
    (k : Kernel)
    → k.rr_quantum ≡ 1
    → k.current ≢ k.idle_task
    → circularb_is_empty k.uart_read_buffer ≡ true
    → let k' = timer_tick k in
      (line k' ≡ rotate (line k)) × (k'.rr_quantum ≡ default_rr_quantum) × Like k k'
unfolding timer_tick
timer_tick-rotates k h busy none =
    let k1 = sched_update_data_rr (clock_increase k) in
    let same : (k1.current ≡ k.current)
        × (k1.readyqueue ≡ k.readyqueue)
        × Like k k1
        × (sched_change_needed_rr k1 ≡ true) =
      unfold clock_increase sched_update_data_rr sched_change_needed_rr in
      (refl, refl, record { idle = refl; keys = refl }, ground arith) in
    let busy1 : k1.current ≢ k1.idle_task = (λ e. busy (sym same.0 ∙ e ∙ same.2.idle)) in
    let (q, l) = requeue-line k1 busy1 in
    let same_back : k1.readyqueue ++ k1.current ∷ [] ≡ k.readyqueue ++ k.current ∷ [] = cc in
    let (u, us, e) = rotated k1.current k1.readyqueue in
    let k2 = sched_update_queues_state_rr ready k1.current k1 in
    let likes = Like-trans same.2 l in
    let s = switch-line k2 u us (ap circularb_is_empty likes.keys ∙ none) (q ∙ e) in
    let lines : u ∷ us ≡ rotate (line k) = sym e ∙ same_back in
    rw same.3 (s.0 ∙ lines, s.1, Like-trans likes s.2)

-- All the ticks of a slice: the running task goes behind the ready ones, the next one runs, and
-- has a whole slice.
pub slice :
    (q : ℕ) (k : Kernel)
    → k.rr_quantum ≡ suc q
    → suc q ≤ default_rr_quantum
    → k.current ≢ k.idle_task
    → circularb_is_empty k.uart_read_buffer ≡ true
    → let k' = ticks (suc q) k in
      (line k' ≡ rotate (line k)) × (k'.rr_quantum ≡ default_rr_quantum) × Like k k'
unfolding ticks
slice zero k e h busy none = timer_tick-rotates k e busy none
slice (suc q) k e h busy none =
    let (l, r, same) = timer_tick-counts k (omega arith) (omega arith) in
    let c : (timer_tick k).current ≡ k.current = cc in
    let s =
      slice q (timer_tick k) (omega arith) (omega arith) (λ e. busy (sym c ∙ e ∙ same.idle))
        (ap circularb_is_empty same.keys ∙ none) in
    (s.0 ∙ ap rotate l, s.1, Like-trans same s.2)
