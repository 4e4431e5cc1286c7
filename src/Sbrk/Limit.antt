-- ===== src/Sbrk/Limit.antt =====
-- `sys_sbrk` of sys.c as its caller sees it.
use ze_ospi.Base.{
  ℕ, zero, suc, ◌+◌, ◌-◌, ◌*◌, ◌/◌, ◌%◌, ◌^◌, ◌<◌, ◌≤◌, ◌≡◌, refl, inl, inr, arith, true, false,
  ltb, Bool-cases, eq→==, lt→ltb, pos, negsuc, neg,
}
use ze_ospi.Errno.{enomem}
use ze_ospi.Frames.{PhysMem}
use ze_ospi.Frames.Count.{free_frames}
use ze_ospi.Kernel.{Task}
use ze_ospi.Paging.{PageTable}
use ze_ospi.Space.{Mm, heap_start}
use ze_ospi.Sbrk.{Heap, page, to_map, to_unmap, grow, shrink, sys_sbrk}
use ze_ospi.Sbrk.Grow.{Used, grow-Grown}

-- The pages between the start of the heap and the break are in use.
abbrev pub IsBacked : ℕ → ℕ → PageTable → Type 0
IsBacked empty pb pt = (j : ℕ) → 28 ≤ j → (256 + j) * 4096 < pb → Used empty pt j

module _ (empty pb target : ℕ) (pt : PageTable) (h : Heap) where
  IsBacked-grow :
      heap_start ≤ pb
      → pb ≤ target
      → target / 2 ^ 12 < 512
      → IsBacked empty pb pt
      → ((j : ℕ) → Used empty pt j → h.pt j ≡ pt j)
      → ((j : ℕ) → page pb ≤ j → to_map target j ≡ true → Used empty h.pt j)
      → IsBacked empty target h.pt
  IsBacked-grow lo le top backed stays mapped j hj below =
      elim (Bool-cases (ltb ((256 + j) * 4096) pb)) [
        | inl before ↦ let used = backed j hj (ground arith) in rw (stays j used) used
        | inr behind ↦
            let b : pb ≤ (256 + j) * 4096 = ground arith in mapped j (omega arith) (ground arith)
      ]

-- Raising a break that is not below the start of the heap, when all pages of the heap below it are in
-- use, the sum fits 32 bits and the empty page lies below 1 MB: within the address space, if enough
-- frames are free, the call returns the old break, sets the new one, and all pages of the heap below
-- that are in use; pages that were in use keep their entries. Beyond the end of the address space it
-- returns an error and changes nothing.
pub sys_sbrk-raises :
    (empty n : ℕ) (t : Task) (mm : Mm)
    → let pb = mm.program_breaks t.program_break in
      let pt = mm.user_pt t.dir_pages_base_addr in
      let (r, mm') = sys_sbrk empty (pos (suc n)) t mm in
      empty < 2 ^ 20
      → heap_start ≤ pb
      → pb + suc n < 2 ^ 32
      → IsBacked empty pb pt
      → ((pb + suc n) / 2 ^ 12 < 512
          → (pb + suc n) / 2 ^ 12 < page pb + 256 + free_frames mm.phys_mem
          → (r ≡ pos pb)
            × (mm'.program_breaks t.program_break ≡ pb + suc n)
            × IsBacked empty (pb + suc n) (mm'.user_pt t.dir_pages_base_addr)
            × ((j : ℕ) → Used empty pt j → mm'.user_pt t.dir_pages_base_addr j ≡ pt j))
        × (512 ≤ (pb + suc n) / 2 ^ 12 → (r ≡ neg enomem) × (mm' ≡ mm))
unfolding sys_sbrk
sys_sbrk-raises empty n t mm kernel lo small backed =
    let pb = mm.program_breaks t.program_break in
    let pt = mm.user_pt t.dir_pages_base_addr in
    let exact : (pb + suc n) % 2 ^ 32 ≡ pb + suc n = omega arith in
    let g = grow-Grown empty (pb + suc n) kernel 256 (page pb) pt mm.phys_mem in
    rw exact (
      (λ top enough.
          let g' = g (omega arith) in
          rw
            (
              lt→ltb ((pb + suc n) / 2 ^ 12) 512 top,
              g'.succeeds enough,
              eq→== t.dir_pages_base_addr t.dir_pages_base_addr refl,
              eq→== t.program_break t.program_break refl,
            )
            (
              refl,
              refl,
              IsBacked-grow empty pb (pb + suc n) pt
                  (grow empty 256 (pb + suc n) (page pb) pt mm.phys_mem) lo (omega arith) top backed
                  g'.stays (g'.mapped (g'.succeeds enough)),
              g'.stays,
            )),
      (λ over. ground arith),
    )

shrink-none :
    (empty n target i : ℕ) (pt : PageTable) (m : PhysMem)
    → to_unmap target i ≡ false
    → shrink empty n target i pt m ≡ record { done = true; pt = pt; frames = m }
unfolding shrink
shrink-none empty zero target i pt m e = refl
shrink-none empty (suc n) target i pt m e = rw (e, shrink)

-- Lowering the break by more than its address, and by at most 2 ^ 31, is not refused: the difference
-- wraps round, no frame is given up, and the break ends at a high address.
pub sys_sbrk-wraps :
    (empty n : ℕ) (t : Task) (mm : Mm)
    → let pb = mm.program_breaks t.program_break in
      let (r, mm') = sys_sbrk empty (negsuc n) t mm in
      pb < suc n
      → suc n ≤ 2 ^ 31
      → (r ≡ pos pb)
        × (mm'.program_breaks t.program_break ≡ 2 ^ 32 + pb - suc n)
        × (mm'.phys_mem ≡ mm.phys_mem)
unfolding sys_sbrk
sys_sbrk-wraps empty n t mm below int_ =
    let pb = mm.program_breaks t.program_break in
    let target = (pb + 2 ^ 32 - suc n) % 2 ^ 32 in
    let none : to_unmap target (page pb) ≡ false = ground arith in
    rw (shrink-none empty 256 target (page pb) (mm.user_pt t.dir_pages_base_addr) mm.phys_mem none)
      (ground arith)
