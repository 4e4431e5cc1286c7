-- ===== src/Space/Slots.antt =====
-- The slots of directories and program breaks in mm.c: a slot with no references is found, if any.
use ze_ospi.Base.{
  ℕ, zero, suc, ◌+◌, ◌<◌, ◌≤◌, ◌≡◌, refl, ◌≢◌, inl, inr, arith, ◌==◌, if◌then◌else◌, Bool-cases,
  ==→eq, ==→ne,
}
use ze_ospi.Kernel.{Task}
use ze_ospi.Paging.{nr_tasks}
use ze_ospi.Space.{Mm, heap_start, find_slot, allocate_page_dir, get_newpb}

pub find_slot_lem :
    (n i j : ℕ) (counter : ℕ → ℕ)
    → i ≤ j
    → j < i + n
    → counter j ≡ 0
    → (counter (find_slot n i counter) ≡ 0) × (find_slot n i counter ≤ j)
unfolding find_slot
find_slot_lem zero i j counter lo hi z = absurd (omega arith)
find_slot_lem (suc n) i j counter lo hi z = elim (Bool-cases (counter i == 0)) [
  | inl here ↦ rw (here, find_slot) (==→eq (counter i) 0 here, lo)
  | inr taken ↦
      let ne : counter i ≢ 0 = ==→ne (counter i) 0 taken in
      let apart : i ≢ j = λ e. ne (rw e z) in
      rw (taken, find_slot) (find_slot_lem n (i + 1) j counter (omega arith) (omega arith) z)
]

-- As long as one of the ten directories has no references, `allocate_page_dir` gives a task one that
-- has none, and it then has one; likewise `get_newpb` with the program breaks, and the break it gives
-- is at the start of the heap. No other slot changes.
pub allocate_page_dir_lem :
    (p : Task) (mm : Mm) (i j : ℕ)
    → i < nr_tasks
    → mm.assigned_base_dir i ≡ 0
    → j < nr_tasks
    → mm.pb_counter j ≡ 0
    → let (p', mm') = allocate_page_dir p mm in
      let (p'', mm'') = get_newpb p mm in
      (mm.assigned_base_dir p'.dir_pages_base_addr ≡ 0)
      × (p'.dir_pages_base_addr < nr_tasks)
      × (p'.dir_count ≡ p'.dir_pages_base_addr)
      × ((k : ℕ)
          → mm'.assigned_base_dir k
            ≡ (if p'.dir_pages_base_addr == k then 1 else mm.assigned_base_dir k))
      × (mm.pb_counter p''.program_break ≡ 0)
      × (p''.program_break < nr_tasks)
      × (p''.pb_count ≡ p''.program_break)
      × ((k : ℕ)
          → (mm''.pb_counter k ≡ (if p''.program_break == k then 1 else mm.pb_counter k))
            × (mm''.program_breaks k
                ≡ (if p''.program_break == k then heap_start else mm.program_breaks k)))
unfolding allocate_page_dir get_newpb
allocate_page_dir_lem p mm i j hi zi hj zj =
    let d = find_slot_lem nr_tasks 0 i mm.assigned_base_dir (omega arith) (omega arith) zi in
    let b = find_slot_lem nr_tasks 0 j mm.pb_counter (omega arith) (omega arith) zj in
    (d.0, omega (arith, d.1), refl, (λ k. refl), b.0, omega (arith, b.1), refl, (λ k. (refl, refl)))
