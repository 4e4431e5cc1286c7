-- ===== src/Interrupt/Rotate.antt =====
-- The round robin of interrupt.c and sched.c: how long a task that is ready waits at most.
use ze_ospi.Base.{
  ℕ, zero, suc, ◌+◌, ◌-◌, ◌*◌, ◌<◌, ◌≤◌, ◌≡◌, sym, ap, ◌∙◌, ◌≢◌, List, [], ◌∷◌, ◌++◌, true, arith,
  All, length,
}
use mathlib.Core.List.{append_assoc, append-nil}
use mathlib.Core.Path.{subst}
use ze_ospi.Cbuffer.{circularb_is_empty}
use ze_ospi.Kernel.{Kernel}
use ze_ospi.Sched.{default_rr_quantum}
use ze_ospi.Interrupt.{timer_tick}
use ze_ospi.Interrupt.Quantum.{ticks, line, rotate, slice}

ticks-add : (m n : ℕ) (k : Kernel) → ticks n (ticks m k) ≡ ticks (m + n) k
unfolding ticks
ticks-add zero n k = let e : n ≡ 0 + n = omega arith in ap (λ m. ticks m k) e
ticks-add (suc m) n k =
    let e : suc (m + n) ≡ suc m + n = omega arith in
    ticks-add m n (timer_tick k) ∙ ap (λ m. ticks m k) e

-- None of the tasks is the idle one.
abbrev pub AllBusy : ℕ → List ℕ → Type 0
AllBusy i = All (λ u. u ≢ i)

rotate-AllBusy : (i u : ℕ) (xs : List ℕ) → u ≢ i → AllBusy i xs → AllBusy i (xs ++ u ∷ [])
rotate-AllBusy i u [] b bs = (b, tt)
rotate-AllBusy i u (x ∷ xs) b bs = (bs.0, rotate-AllBusy i u xs b bs.1)

-- If neither the running task nor a ready one is the idle task, 1 to 1000 ticks of the slice are left
-- and no keys come, then each ready task runs after at most 1000 ticks for each task before it, the
-- running one included; the tasks behind it are then the next ones, and those that ran before it
-- follow in their order.
pub turn :
    (xs : List ℕ) (t : ℕ) (ys : List ℕ) (k : Kernel)
    → line k ≡ xs ++ t ∷ ys
    → AllBusy k.idle_task (line k)
    → 0 < k.rr_quantum
    → k.rr_quantum ≤ default_rr_quantum
    → circularb_is_empty k.uart_read_buffer ≡ true
    → (n : ℕ) × (n ≤ default_rr_quantum * length xs) × (line (ticks n k) ≡ t ∷ ys ++ xs)
unfolding ticks
turn [] t ys k e busy p l none = (0, omega arith, e ∙ ap (λ zs. t ∷ zs) (sym (append-nil ys)))
turn (x ∷ xs) t ys k e busy p l none =
    let (r, rest, same) = slice (k.rr_quantum - 1) k (omega arith) (omega arith) busy.0 none in
    let k' = ticks (suc (k.rr_quantum - 1)) k in
    let now : line k' ≡ xs ++ (t ∷ (ys ++ x ∷ [])) =
      r ∙ ap rotate e ∙ append_assoc xs (t ∷ ys) (x ∷ []) in
    let busy' : AllBusy k'.idle_task (line k') =
      subst (λ i. AllBusy i (line k')) (sym same.idle)
        (subst (AllBusy k.idle_task) (sym r)
          (rotate-AllBusy k.idle_task k.current k.readyqueue busy.0 busy.1)) in
    let (n, small, there) =
      turn xs t (ys ++ x ∷ []) k' now busy' (omega arith) (omega arith)
        (ap circularb_is_empty same.keys ∙ none) in
    (
      suc (k.rr_quantum - 1) + n,
      omega arith,
      ap line (sym (ticks-add (suc (k.rr_quantum - 1)) n k))
          ∙ there
          ∙ ap (λ zs. t ∷ zs) (append_assoc ys (x ∷ []) xs),
    )
