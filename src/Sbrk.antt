-- ===== src/Sbrk.antt =====
-- sys.c, `sys_sbrk`. `empty_ph_page` is the address of the empty page. The source compares a page
-- number with `end`, which is `((pb+increment)>>OFFSET_BITS)-(1<<PAGE_BITS)` as an int; here both
-- sides have 256 added, so that nothing is negative.
pub mod Grow
pub mod Limit
use ze_ospi.Base.{
  ℕ, zero, suc, ◌+◌, ◌-◌, ◌*◌, ◌/◌, ◌%◌, ◌^◌, Bool, true, false, not, ◌&&◌, ◌||◌, ltb, leb, ◌==◌,
  if◌then◌else◌, ℤ, pos, negsuc, neg,
}
use ze_ospi.Errno.{enmphp, enomem, ehlimi}
use ze_ospi.Frames.{PhysMem, alloc_frame, free_frame}
use ze_ospi.Kernel.{Task}
use ze_ospi.Paging.{PageTable, check_used_page, set_ss_pag, del_ss_pag}
use ze_ospi.Space.{Mm, set_at}

-- include/mm_address.h
abbrev pub page : ℕ → ℕ
page x = x / 2 ^ 12 % 2 ^ 8

abbrev pub offset : ℕ → ℕ
offset x = x % 2 ^ 12

-- `i < end || (i == end && 0 != OFFSET(pb+increment))`
abbrev pub to_map : (target i : ℕ) → Bool
to_map target i =
    ltb (i + 256) (target / 2 ^ 12) || (i + 256 == target / 2 ^ 12 && not (offset target == 0))

-- `i > new_pb || (i == new_pb && 0 == OFFSET(pb+increment))`
abbrev pub to_unmap : (target i : ℕ) → Bool
to_unmap target i =
    ltb (target / 2 ^ 12) (i + 256) || (i + 256 == target / 2 ^ 12 && offset target == 0)

-- Whether the loop came to its end, the table and the frames.
pub record Heap : Type 0 where
  pub done : Bool
  pub pt : PageTable
  pub frames : PhysMem

abbrev pub with_frame : ℤ × PhysMem → (ℕ → PhysMem → Heap) → PageTable → Heap
with_frame (pos f, m) next pt = next f m
with_frame (negsuc e, m) next pt = record { done = false; pt = pt; frames = m }

module _ (empty_ph_page : ℕ) where
  -- The loop that maps pages, from `i` on.
  unfoldable pub grow : (rounds target i : ℕ) → PageTable → PhysMem → Heap
  grow zero target i pt m = record { done = true; pt = pt; frames = m }
  grow (suc n) target i pt m = elim (to_map target i) [
    | false ↦ record { done = true; pt = pt; frames = m }
    | true ↦ elim (check_used_page empty_ph_page (pt i)) [
      | true ↦ grow n target (i + 1) pt m
      | false ↦ with_frame (alloc_frame m) (λ f m. grow n target (i + 1) (set_ss_pag pt i f) m) pt
    ]
  ]

  -- The loop that unmaps pages, from `i` down. It ends above page 27, so `i` stays positive.
  unfoldable pub shrink : (rounds target i : ℕ) → PageTable → PhysMem → Heap
  shrink zero target i pt m = record { done = true; pt = pt; frames = m }
  shrink (suc n) target i pt m = elim (to_unmap target i) [
    | false ↦ record { done = true; pt = pt; frames = m }
    | true ↦
        shrink n target (i - 1) (del_ss_pag empty_ph_page pt i) (free_frame (pt i).pbase_addr m)
  ]

  -- The memory with the heap as a loop leaves it, and with a new break.
  abbrev pub with_heap : Task → Heap → Mm → Mm
  with_heap t h mm = record mm {
    phys_mem = h.frames;
    user_pt = λ s. if t.dir_pages_base_addr == s then h.pt else mm.user_pt s;
  }

  abbrev pub with_break : Task → ℕ → Mm → Mm
  with_break t pb mm = record mm { program_breaks = set_at mm.program_breaks t.program_break pb }

  -- `target` is `pb+increment`. Each loop makes at most 256 rounds: a page number is below 256.
  abbrev pub sbrk_up : Task → (pb target : ℕ) → Mm → ℤ × Mm
  sbrk_up t pb target mm =
      if ltb (target / 2 ^ 12) (256 + 256)
      then (let h = grow 256 target (page pb) (mm.user_pt t.dir_pages_base_addr) mm.phys_mem in
          if h.done
          then (pos pb, with_break t target (with_heap t h mm))
          else (neg enmphp, with_heap t h mm))
      else (neg enomem, mm)

  abbrev pub sbrk_down : Task → (pb target : ℕ) → Mm → ℤ × Mm
  sbrk_down t pb target mm =
      if leb (28 + 256) (target / 2 ^ 12)
      then (
        pos pb,
        with_break t target (
            with_heap t (shrink 256 target (page pb) (mm.user_pt t.dir_pages_base_addr) mm.phys_mem)
              mm),
      )
      else (neg ehlimi, mm)

  unfoldable pub sys_sbrk : ℤ → Task → Mm → ℤ × Mm
  sys_sbrk (pos zero) t mm = (pos (mm.program_breaks t.program_break), mm)
  sys_sbrk (pos (suc n)) t mm =
      let pb = mm.program_breaks t.program_break in sbrk_up t pb ((pb + suc n) % 2 ^ 32) mm
  sys_sbrk (negsuc n) t mm =
      let pb = mm.program_breaks t.program_break in
      sbrk_down t pb ((pb + 2 ^ 32 - suc n) % 2 ^ 32) mm
