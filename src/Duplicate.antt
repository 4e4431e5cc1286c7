-- ===== src/Duplicate.antt =====
-- sys.c, the loops of `sys_fork` over frames and pages. Logical pages are named by their number: those below 256 are the kernel's,
-- and page `256 + k` is entry `k` of the task's table.
-- The translation buffer, which `mmu_change_dir` empties, is not in the model.
pub mod Search
pub mod Data
pub mod Contents
pub mod Take
pub mod Child
pub mod Heap
use ze_ospi.Base.{
  ℕ, zero, suc, ◌+◌, ◌-◌, ◌*◌, ◌/◌, ◌%◌, ◌^◌, List, [], ◌∷◌, Bool, true, false, not, ◌&&◌, ◌||◌,
  ltb, ◌==◌, if◌then◌else◌, ℤ, pos, negsuc, neg, count_up,
}
use ze_ospi.Errno.{entask, enmphp, enepte}
use ze_ospi.Frames.{PhysMem, alloc_frame, free_frame}
use ze_ospi.Kernel.{Task, st_ready, Kernel, with_task, sub32}
use ze_ospi.Paging.{
  SlEntry, PageTable, put, total_pages_entries, set_ss_pag, del_ss_pag, check_used_page, entry,
  of_entry,
}
use ze_ospi.Utils.{num_pag_code, num_pag_data}
use ze_ospi.Sched.{ready, sched_update_queues_state_rr}
use ze_ospi.Space.{Mm, set_at, allocate_page_dir, get_newpb}
use ze_ospi.Sbrk.{page, offset}
use ze_ospi.Process.{get_new_pid, proc_first_free_pag}
use ze_ospi.Boot.{System}

-- The bytes of the frames, by frame and offset.
abbrev pub Ram : Type 0
Ram = ℕ → ℕ → ℕ

-- The kernel's data, and the frames behind them.
pub record Machine : Type 0 where
  pub system : System
  pub ram : Ram

abbrev pub UserTables : Type 0
UserTables = ℕ → PageTable

abbrev pub set_table : UserTables → ℕ → PageTable → UserTables
set_table tables slot pt s = if slot == s then pt else tables s

-- `while (pag != 0) free_frame(frames[--pag]);`
unfoldable pub rollback : (pag : ℕ) → (ℕ → ℕ) → PhysMem → PhysMem
rollback zero frames m = m
rollback (suc pag) frames m = rollback pag frames (free_frame (frames pag) m)

-- Whether all the frames were there, the array `frames` and the map.
pub record Taken : Type 0 where
  pub enough : Bool
  pub frames : ℕ → ℕ
  pub phys_mem : PhysMem

abbrev pub with_new : {A : Type 0} → ℤ × PhysMem → (ℕ → PhysMem → A) → (PhysMem → A) → A
with_new (pos f, m) found missing = found f m
with_new (negsuc e, m) found missing = missing m

-- The loop over the frames with `n` rounds left, at `pag`.
unfoldable pub take_frames : (n pag : ℕ) → (ℕ → ℕ) → PhysMem → Taken
take_frames zero pag frames m = record { enough = true; frames = frames; phys_mem = m }
take_frames (suc n) pag frames m =
    with_new (alloc_frame m) (λ f m. take_frames n (pag + 1) (set_at frames pag f) m)
      (λ m. record { enough = false; frames = frames; phys_mem = rollback pag frames m })

-- The kernel's pages lie in the frames of the same numbers, but for the four of the devices.
abbrev pub kernel_frame : ℕ → ℕ
kernel_frame p =
    if p == 0xF0
    then 0x20215
    else if p == 0xF1 || p == 0xF3
    then 0x2000B
    else if p == 0xF2
    then 0x20200
    else p

-- The frame behind a logical page.
abbrev pub frame_of : PageTable → ℕ → ℕ
frame_of pt p = if ltb p 0x100 then kernel_frame p else (pt (p - 0x100)).pbase_addr

-- `copy_data` of a whole page, from one logical page to another.
abbrev pub copy_page : PageTable → (from to : ℕ) → Ram → Ram
copy_page pt from to ram f = if frame_of pt to == f then ram (frame_of pt from) else ram f

-- How a loop over the pages ends; `endless` if it has not come to its end.
pub data Ending : Type 0 where
  finished no_page no_frame endless : Ending

pub record Copy : Type 0 where
  pub ending : Ending
  pub tables : UserTables
  pub phys_mem : PhysMem
  pub ram : Ram

-- `pag < PAGE(pb) || (pag == PAGE(pb) && (0 != OFFSET(pb)))`
abbrev pub heap_page : (pb pag : ℕ) → Bool
heap_page pb pag = ltb pag (page pb) || (pag == page pb && not (offset pb == 0))

-- `for (pag = pag-1; pag >= USR_P_HEAPSTART; pag--) free_frame(pt[pag]…)`, `n` pages below `pag`.
unfoldable pub free_heap : (n pag : ℕ) → PageTable → PhysMem → PhysMem
free_heap zero pag pt m = m
free_heap (suc n) pag pt m = free_heap n (pag - 1) pt (free_frame (pt (pag - 1)).pbase_addr m)

module _ (empty_ph_page : ℕ) where
  -- `while (check_used_page(&pt[free_pag]) && free_pag < TOTAL_PAGES_ENTRIES) free_pag++;`
  unfoldable pub find_page : (rounds free_pag : ℕ) → PageTable → ℕ
  find_page zero free_pag pt = free_pag
  find_page (suc n) free_pag pt =
      elim (check_used_page empty_ph_page (pt free_pag) && ltb free_pag total_pages_entries) [
        | true ↦ find_page n (free_pag + 1) pt
        | false ↦ free_pag
      ]

  -- A page of the running task is mapped to `frame` for a moment, and page `from` copied there.
  abbrev pub mapped : (frame free_pag : ℕ) → PageTable → PageTable
  mapped frame free_pag pt = set_ss_pag pt free_pag frame

  -- The copy of one data page through the unused page `fp`. `cur` and `new` are the slots of the
  -- two tables.
  abbrev pub copied : (cur new pag fp : ℕ) → Copy → Copy
  copied cur new pag fp s =
      let pt = mapped (s.tables new (num_pag_code + pag)).pbase_addr fp (s.tables cur) in
      record s {
        tables = set_table s.tables cur (del_ss_pag empty_ph_page pt fp);
        ram = copy_page pt (0x100 + num_pag_code + pag) (0x100 + fp) s.ram;
      }

  -- The loop over the data pages.
  unfoldable pub copy_user_data : (cur new rounds pag free_pag : ℕ) → Copy → Copy
  copy_user_data cur new zero pag free_pag s = record s { ending = endless }
  copy_user_data cur new (suc n) pag free_pag s = elim (ltb pag num_pag_data) [
    | false ↦ record s { ending = finished }
    | true ↦
        let fp = find_page total_pages_entries free_pag (s.tables cur) in
        elim (fp == total_pages_entries) [
          | true ↦ elim (ltb 0 pag) [
            | true ↦ copy_user_data cur new n pag proc_first_free_pag s
            | false ↦ record s { ending = no_page }
          ]
          | false ↦ copy_user_data cur new n (pag + 1) (fp + 1) (copied cur new pag fp s)
        ]
  ]

  -- One heap page: the child's page is mapped to frame `f`, and then copied through page `fp`. The
  -- addresses are `pag<<12` and `free_pag<<12`, without the 0x100 of `copied`.
  abbrev pub heap_copied : (cur new pag fp f : ℕ) → PhysMem → Copy → Copy
  heap_copied cur new pag fp f m s =
      let tables = set_table s.tables new (set_ss_pag (s.tables new) pag f) in
      let pt = mapped (tables new pag).pbase_addr fp (tables cur) in
      record s {
        tables = set_table tables cur (del_ss_pag empty_ph_page pt fp);
        phys_mem = m;
        ram = copy_page pt pag fp s.ram;
      }

  -- The loop over the heap pages.
  unfoldable pub copy_heap : (cur new pb rounds pag free_pag : ℕ) → Copy → Copy
  copy_heap cur new pb zero pag free_pag s = record s { ending = endless }
  copy_heap cur new pb (suc n) pag free_pag s = elim (heap_page pb pag) [
    | false ↦ record s { ending = finished }
    | true ↦
        let fp = find_page total_pages_entries free_pag (s.tables cur) in
        elim (fp == total_pages_entries) [
          | true ↦ elim (ltb proc_first_free_pag pag) [
            | true ↦ copy_heap cur new pb n pag (page (pb + 2 ^ 12)) s
            | false ↦ record s { ending = no_page }
          ]
          | false ↦
              with_new (alloc_frame s.phys_mem)
                (λ f m.
                  copy_heap cur new pb n (pag + 1) (fp + 1) (heap_copied cur new pag fp f m s))
                (λ m. record s {
                  ending = no_frame;
                  phys_mem = free_heap (pag - proc_first_free_pag) pag (s.tables new) m;
                })
        ]
  ]

-- The loops over the code pages and over the child's data pages.
unfoldable pub child_table : (frames : ℕ → ℕ) → PageTable → PageTable → PageTable
unfolding entry of_entry
child_table frames pt_current pt_new =
    count_up num_pag_data 0 (λ pag pt. set_ss_pag pt (num_pag_code + pag) (frames pag))
      (count_up num_pag_code 0 (λ pag pt. put pt pag (of_entry (entry (pt_current pag)))) pt_new)

-- The rounds of the loops: each page takes two at most.
abbrev pub data_rounds : ℕ
data_rounds = 2 * num_pag_data + 2

abbrev pub heap_rounds : ℕ
heap_rounds = 2 * total_pages_entries + 2
