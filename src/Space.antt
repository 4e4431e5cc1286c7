-- ===== src/Space.antt =====
-- mm.c: the directories, program breaks and user pages that a task gets. The pointers of a task to
-- them are indices into the arrays.
pub mod Slots
pub mod Fresh
pub mod Release
use ze_ospi.Base.{
  ℕ, zero, suc, ◌+◌, ◌-◌, ◌*◌, ◌^◌, true, false, ltb, ◌==◌, if◌then◌else◌, count_up, ℤ,
}
use ze_ospi.Frames.{PhysMem, alloc_frame}
use ze_ospi.Paging.{nr_tasks, SlEntry, PageTable, put, code_page, data_page}
use ze_ospi.Utils.{num_pag_code, num_pag_data}
use ze_ospi.Kernel.{Task}

-- `user_pt` is the second table of each directory, which `get_PT(t,1)` leads to.
pub record Mm : Type 0 where
  pub phys_mem : PhysMem
  pub assigned_base_dir : ℕ → ℕ
  pub program_breaks : ℕ → ℕ
  pub pb_counter : ℕ → ℕ
  pub user_pt : ℕ → PageTable

-- `(0x100+USR_P_HEAPSTART)<<12`
abbrev pub heap_start : ℕ
heap_start = (0x100 + (num_pag_code + num_pag_data)) * 2 ^ 12

abbrev pub set_at : (ℕ → ℕ) → ℕ → ℕ → ℕ → ℕ
set_at f i v j = if i == j then v else f j

unfoldable pub init_pb : Mm → Mm
init_pb mm =
    count_up nr_tasks 0
      (λ i mm. record mm {
        program_breaks = set_at mm.program_breaks i heap_start;
        pb_counter = set_at mm.pb_counter i 0;
      })
      mm

-- `for (i = 0; i < NR_TASKS && !found; ++i) found = (counter[i] == 0); --i;` with `n` rounds left.
unfoldable pub find_slot : ℕ → ℕ → (ℕ → ℕ) → ℕ
find_slot zero i counter = i - 1
find_slot (suc n) i counter = elim (counter i == 0) [
  | true ↦ i
  | false ↦ find_slot n (i + 1) counter
]

unfoldable pub allocate_page_dir : Task → Mm → Task × Mm
allocate_page_dir p mm =
    let i = find_slot nr_tasks 0 mm.assigned_base_dir in
    (
      record p { dir_pages_base_addr = i; dir_count = i },
      record mm { assigned_base_dir = set_at mm.assigned_base_dir i 1 },
    )

unfoldable pub get_newpb : Task → Mm → Task × Mm
get_newpb p mm =
    let i = find_slot nr_tasks 0 mm.pb_counter in
    (
      record p { program_break = i; pb_count = i },
      record mm {
        program_breaks = set_at mm.program_breaks i heap_start;
        pb_counter = set_at mm.pb_counter i 1;
      },
    )

-- One of the loops of `set_user_pages`: `n` pages from `lo` on.
unfoldable pub map_pages : (ℤ → SlEntry) → (n lo : ℕ) → PageTable → PhysMem → PageTable × PhysMem
map_pages page zero lo pt m = (pt, m)
map_pages page (suc n) lo pt m =
    let (frame, m') = alloc_frame m in map_pages page n (lo + 1) (put pt lo (page frame)) m'

unfoldable pub set_user_pages : Task → Mm → Mm
set_user_pages task mm =
    let slot = task.dir_pages_base_addr in
    let (pt, m) = map_pages code_page num_pag_code 0 (mm.user_pt slot) mm.phys_mem in
    let (pt', m') = map_pages data_page num_pag_data num_pag_code pt m in
    record mm { phys_mem = m'; user_pt = λ s. if slot == s then pt' else mm.user_pt s }
