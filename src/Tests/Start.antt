-- ===== src/Tests/Start.antt =====
-- The theorems on the start of the kernel, on the address spaces and on the wrappers.
use ze_ospi.Base.{
  suc, ◌-◌, ◌/◌, ◌^◌, neg, ℕ, ◌+◌, ◌*◌, ◌<◌, ◌≤◌, ◌≡◌, ◌≢◌, List, [], ◌∷◌, arith, ◌==◌,
  if◌then◌else◌, ltb, ℤ, pos, negsuc,
}
use ze_ospi.Errno.{enomem}
use ze_ospi.Sbrk.{sys_sbrk, page}
use ze_ospi.Sbrk.Grow.{Used}
use ze_ospi.Sbrk.Limit.{IsBacked, sys_sbrk-raises, sys_sbrk-wraps}
use ze_ospi.Kernel.{Task}
use ze_ospi.Kernel.Places.{places}
use ze_ospi.Frames.{free_mark, used_mark, init_frames}
use ze_ospi.Frames.Count.{free_frames, free_frames-init_frames}
use ze_ospi.Paging.{code_page, data_page}
use ze_ospi.Sem.Consistent.{IsConsistent}
use ze_ospi.Space.{Mm, heap_start, set_user_pages}
use ze_ospi.Space.Fresh.{set_user_pages_lem}
use ze_ospi.Events.{init, wait, call, irq}
use ze_ospi.Boot.{System, main}
use ze_ospi.Life.{Action, by_event, by_clone, by_exit, live}
use ze_ospi.Life.Always.{live-main}
use ze_ospi.Process.{sys_exit}
use ze_ospi.Process.Frames.{maps_to, sys_exit-frames}
use ze_ospi.Libc.{
  Handler, write_handler, read_handler, fork_handler, get_stats_handler, clone_handler,
  sem_init_handler, sem_wait_handler, sem_signal_handler, sem_destroy_handler, sbrk_handler, write,
  read, fork, get_stats, clone, sem_init, sem_wait, sem_signal, sem_destroy, sbrk,
}
use ze_ospi.Libc.Calls.{Reports, wrappers-Reports}
use ze_ospi.Tests.Machine.{three_ready, timer}

abbrev no_memory : Mm
no_memory = record {
  phys_mem = init_frames (λ _. 7);
  assigned_base_dir = λ i. if i == 0 then 1 else 0;
  program_breaks = λ _. 0;
  pb_counter = λ i. if i == 0 then 1 else 0;
  user_pt = λ _ _. data_page (pos 0);
}

abbrev life : List Action
life =
    by_event (call (init (pos 0) 0))
    ∷ by_clone 5000 9000 12000
    ∷ by_event (call (wait (pos 0)))
    ∷ by_event (irq timer)
    ∷ by_exit
    ∷ []

-- At the start of the machine nobody waits at its semaphores.
live-main_example :
    let s = live (λ t. 4096 * t) 77 (main (λ i. i) 0 [] three_ready no_memory) life in
    (places s.kernel 2 ≡ 1) × IsConsistent s.kernel
live-main_example =
    live-main (λ t. 4096 * t) 77 (λ i. i) 0 [] three_ready no_memory (λ n. ground arith) life 2
      (omega arith) (omega arith)

abbrev some_task : Task
some_task = three_ready.task 1

set_user_pages_lem_example :
    let mm' = set_user_pages some_task no_memory in
    let pt = mm'.user_pt 1 in
    ((k : ℕ)
      → k < 28
      → (pt k ≡ (
          if ltb k 8 then code_page (pos (pt k).pbase_addr) else data_page (pos (pt k).pbase_addr)))
        × (init_frames (λ _. 7) (pt k).pbase_addr ≡ free_mark)
        × (mm'.phys_mem (pt k).pbase_addr ≡ used_mark))
    × ((j k : ℕ) → j < k → k < 28 → (pt j).pbase_addr ≢ (pt k).pbase_addr)
    × ((k : ℕ) → 28 ≤ k → pt k ≡ data_page (pos 0))
    × ((s : ℕ) → s ≢ 1 → mm'.user_pt s ≡ λ _. data_page (pos 0))
    × (free_frames (init_frames (λ _. 7)) ≡ free_frames mm'.phys_mem + 28)
set_user_pages_lem_example =
    set_user_pages_lem some_task no_memory (omega (arith, free_frames-init_frames (λ _. 7)))

-- A kernel that counts its calls, and answers every one but the first with error 3.
abbrev counting : Handler → List ℕ → ℕ → ℤ × ℕ
counting h args n = (if n == 0 then pos 5 else negsuc 2, n + 1)

wrappers-Reports_example :
    Reports counting write_handler (1 ∷ 2 ∷ 3 ∷ []) (write counting 1 2 3)
    × Reports counting read_handler (1 ∷ 2 ∷ 3 ∷ []) (read counting 1 2 3)
    × Reports counting fork_handler [] (fork counting)
    × Reports counting get_stats_handler (1 ∷ 2 ∷ []) (get_stats counting 1 2)
    × Reports counting clone_handler (1 ∷ 2 ∷ []) (clone counting 1 2)
    × Reports counting sem_init_handler (1 ∷ 2 ∷ []) (sem_init counting 1 2)
    × Reports counting sem_wait_handler (1 ∷ []) (sem_wait counting 1)
    × Reports counting sem_signal_handler (1 ∷ []) (sem_signal counting 1)
    × Reports counting sem_destroy_handler (1 ∷ []) (sem_destroy counting 1)
    × Reports counting sbrk_handler (1 ∷ []) (sbrk counting 1)
wrappers-Reports_example = wrappers-Reports counting 1 2 3

-- Task 1 is the only one on a directory whose page 30 is at frame 300.
abbrev last_one : System
last_one = record {
  kernel = three_ready;
  mm = record no_memory {
    phys_mem = λ _. used_mark;
    assigned_base_dir = λ _. 1;
    pb_counter = λ _. 1;
    user_pt = λ _ k. if k == 30 then data_page (pos 300) else data_page (pos 0);
  };
}

sys_exit-frames_example :
    let s' = sys_exit last_one in
    (s'.mm.phys_mem 300 ≡ free_mark)
    × (s'.mm.assigned_base_dir 1 + 1 ≡ 1)
    × (s'.mm.pb_counter 1 + 1 ≡ 1)
    × (s'.mm.user_pt ≡ last_one.mm.user_pt)
unfolding maps_to data_page
sys_exit-frames_example =
    sys_exit-frames last_one 300 (omega arith) (omega arith) (omega arith) (omega arith)

-- The heap of task 1 is empty.
abbrev empty_heap : Mm
empty_heap = record no_memory { program_breaks = λ _. heap_start }

sys_sbrk-raises_example :
    let (r, mm') = sys_sbrk 0x7000 (pos (suc 4999)) some_task empty_heap in
    ((heap_start + suc 4999) / 2 ^ 12 < 512
      → (heap_start + suc 4999) / 2 ^ 12 < page heap_start + 256 + free_frames empty_heap.phys_mem
      → (r ≡ pos heap_start)
        × (mm'.program_breaks 1 ≡ heap_start + suc 4999)
        × IsBacked 0x7000 (heap_start + suc 4999) (mm'.user_pt 1)
        × ((j : ℕ)
            → Used 0x7000 (empty_heap.user_pt 1) j
            → mm'.user_pt 1 j ≡ empty_heap.user_pt 1 j))
    × (512 ≤ (heap_start + suc 4999) / 2 ^ 12 → (r ≡ neg enomem) × (mm' ≡ empty_heap))
sys_sbrk-raises_example =
    sys_sbrk-raises 0x7000 4999 some_task empty_heap (omega arith) (omega arith) (omega arith)
      (λ j a b. absurd (omega arith))

sys_sbrk-wraps_example :
    let (r, mm') = sys_sbrk 0x7000 (negsuc 1999999) some_task empty_heap in
    (r ≡ pos heap_start)
    × (mm'.program_breaks 1 ≡ 2 ^ 32 + heap_start - 2000000)
    × (mm'.phys_mem ≡ empty_heap.phys_mem)
sys_sbrk-wraps_example =
    sys_sbrk-wraps 0x7000 1999999 some_task empty_heap (omega arith) (omega arith)
