-- ===== src/Tests/Forks.antt =====
-- The theorems on fork, at a concrete machine.
use ze_ospi.Base.{
  ℕ, ◌+◌, ◌^◌, ◌<◌, ◌≤◌, ◌≡◌, ◌≢◌, ◌⊎◌, refl, ap, ◌∙◌, List, [], ◌∷◌, arith, ltb, ◌==◌,
  if◌then◌else◌, pos, neg, false, ◌*◌,
}
use ze_ospi.Errno.{entask, enmphp, enepte}
use ze_ospi.Kernel.{add32}
use ze_ospi.Kernel.Places.{places}
use ze_ospi.Frames.{init_frames, used_mark, alloc_frame, alloc_from}
use ze_ospi.Frames.Alloc.{init_frames_lem}
use ze_ospi.Frames.Count.{free_from, free_frames, free_frames-init_frames}
use ze_ospi.Paging.{
  SlEntry, set_empty_page, check_used_page, data_page, entry, of_entry, set_ss_pag, del_ss_pag,
}
use ze_ospi.Space.{heap_start}
use ze_ospi.Sbrk.{page}
use ze_ospi.Sem.Consistent.{IsConsistent}
use ze_ospi.Boot.{main}
use ze_ospi.Duplicate.{Machine, Copy, finished, find_page, copy_heap}
use ze_ospi.Duplicate.Heap.{copy_heap-ram}
use ze_ospi.Duplicate.Child.{Child}
use ze_ospi.Events.{irq}
use ze_ospi.Life.{by_event, by_exit, Deed, by_action, by_fork, history}
use ze_ospi.Life.Forks.{history-main}
use ze_ospi.Fork.{sys_fork}
use ze_ospi.Fork.Places.{sys_fork-places}
use ze_ospi.Fork.Child.{sys_fork-Child}
use ze_ospi.Fork.Short.{sys_fork-short}
use ze_ospi.Tests.Machine.{three_ready, timer}

-- Pages 0 to 27 lie in frame 100, and the others are empty.
abbrev table_of_parent : ℕ → SlEntry
table_of_parent k = if ltb k 28 then data_page (pos 100) else set_empty_page 0x7000

abbrev forking : (ℕ → ℕ) → Machine
forking phys_mem = record {
  system = record {
    kernel = record three_ready { freequeue = 4 ∷ 5 ∷ [] };
    mm = record {
      phys_mem = phys_mem;
      assigned_base_dir = λ i. if ltb i 4 then 1 else 0;
      program_breaks = λ _. heap_start;
      pb_counter = λ i. if ltb i 4 then 1 else 0;
      user_pt = λ _. table_of_parent;
    };
  };
  ram = λ f o. f + o;
}

abbrev with_memory : Machine
with_memory = forking (init_frames (λ _. 7))

abbrev without_memory : Machine
without_memory = forking (λ _. used_mark)

sys_fork-places_example :
    let (r, s') = sys_fork (λ t. 4096 * t) 77 0x7000 4500 (λ _. 0) with_memory in
    let k = with_memory.system.kernel in
    ((k.freequeue ≡ []) × (r ≡ neg entask) × (s' ≡ with_memory))
    ⊎ ((new : ℕ) × (ts : List ℕ) × (k.freequeue ≡ new ∷ ts)
        × (s'.system.kernel.sem_array ≡ k.sem_array)
        × (s'.system.kernel.idle_task ≡ k.idle_task)
        × (((r ≡ pos (add32 k.last_pid 1)) × (places s'.system.kernel 4 ≡ places k 4))
            ⊎ (((r ≡ neg enepte)
                  ⊎ ((r ≡ neg enmphp) × (free_frames with_memory.system.mm.phys_mem < 20)))
                × (places s'.system.kernel 4 + (if new == 4 then 1 else 0) ≡ places k 4))))
sys_fork-places_example =
    sys_fork-places (λ t. 4096 * t) 77 0x7000 4500 (λ _. 0) with_memory 4 (omega arith) refl

page_40 : check_used_page 0x7000 (table_of_parent 40) ≡ false
unfolding check_used_page
page_40 = ground arith

in_frame_100 : (k : ℕ) → k < 20 → (table_of_parent (8 + k)).pbase_addr ≡ 100
unfolding data_page
in_frame_100 k h = ground arith

in_use : (k : ℕ) → k < 20 → init_frames (λ _. 7) (table_of_parent (8 + k)).pbase_addr ≡ used_mark
in_use k h = ap (init_frames (λ _. 7)) (in_frame_100 k h) ∙ init_frames_lem (λ _. 7) 100

sys_fork-Child_example :
    let (r, s') = sys_fork (λ t. 4096 * t) 77 0x7000 4500 (λ _. 0) with_memory in
    let dir = (s'.system.kernel.task 4).dir_pages_base_addr in
    (r ≡ pos 4)
    × (with_memory.system.mm.assigned_base_dir dir ≡ 0)
    × Child 0x7000 1 dir with_memory.system.mm.user_pt
        (init_frames (λ _. 7))
        with_memory.ram
        s'.system.mm.user_pt
        s'.system.mm.phys_mem
        s'.ram
sys_fork-Child_example =
    sys_fork-Child (λ t. 4096 * t) 77 0x7000 4500 4 40 6 (5 ∷ []) (λ _. 0) with_memory refl
      (omega (arith, free_frames-init_frames (λ _. 7))) (omega arith) (omega arith) page_40
      (omega arith) refl (omega arith) refl (λ k h e. omega (arith, e, in_use k h))

no_frames : free_frames (λ _. used_mark) ≡ 0
unfolding free_frames free_from
no_frames = refl

sys_fork-short_example :
    let (r, s') = sys_fork (λ t. 4096 * t) 77 0x7000 4500 (λ _. 0) without_memory in
    (r ≡ neg enmphp)
    × ((j : ℕ) → j ≢ 256 → s'.system.mm.phys_mem j ≡ used_mark)
    × (s'.ram ≡ without_memory.ram)
    × (s'.system.mm.user_pt ≡ without_memory.system.mm.user_pt)
sys_fork-short_example =
    sys_fork-short (λ t. 4096 * t) 77 0x7000 4500 4 (5 ∷ []) (λ _. 0) without_memory refl
      (omega (arith, no_frames))

-- The heap has one page and a half.
abbrev heap_of_two : Copy
heap_of_two = record {
  ending = finished;
  tables = λ _. table_of_parent;
  phys_mem = λ _. 0;
  ram = λ f o. f + o;
}

copy_heap-ram_example :
    (copy_heap 0x7000 1 4 0x11d800 514 28 (page (0x11d800 + 2 ^ 12)) heap_of_two).ram 300
    ≡ heap_of_two.ram 300
copy_heap-ram_example =
    copy_heap-ram 0x7000 1 4 0x11d800 514 28 (page (0x11d800 + 2 ^ 12)) 300 heap_of_two
      (omega arith) (omega arith) (omega arith)

-- Pages 28 and 29 of the kernel are copied to its pages 30 and 31.
kernel_overwritten :
    (copy_heap 0x7000 1 4 0x11d800 514 28 (page (0x11d800 + 2 ^ 12)) heap_of_two).ram 30
    ≡ heap_of_two.ram 28
unfolding copy_heap find_page check_used_page alloc_frame alloc_from entry set_empty_page data_page
    set_ss_pag del_ss_pag of_entry
kernel_overwritten = refl

-- The start, a fork, a tick of the timer, a fork, and an exit.
abbrev deeds : List Deed
deeds =
    by_fork 4500 (λ _. 0)
    ∷ by_action (by_event (irq timer))
    ∷ by_fork 4500 (λ _. 0)
    ∷ by_action by_exit
    ∷ []

history-main_example :
    let start : Machine = record {
      system = main (λ i. i) 0 [] three_ready with_memory.system.mm;
      ram = with_memory.ram;
    } in
    let s = history (λ t. 4096 * t) 77 0x7000 start deeds in
    (places s.system.kernel 2 ≤ 1) × IsConsistent s.system.kernel
history-main_example =
    history-main (λ t. 4096 * t) 77 0x7000 (λ i. i) 0 [] three_ready with_memory.system.mm
      with_memory.ram (λ n. ground arith) deeds 2 (omega arith) (omega arith)
