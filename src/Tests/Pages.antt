-- ===== src/Tests/Pages.antt =====
-- The theorems on the frames and the page tables, at concrete inputs.
use ze_ospi.Base.{◌+◌, ◌<◌, ◌≡◌, ◌≢◌, ◌⊎◌, [], ◌∷◌, arith, none, some}
use ze_ospi.Frames.{PhysMem, mark, free_mark, used_mark}
use ze_ospi.Frames.Count.{free_frames, alloc_many, alloc_many_lem}
use ze_ospi.Frames.Leak.{alloc, free, serve_all, serve_all_256}
use ze_ospi.Paging.{SlEntry, entry, of_entry, PageTable, Dirs}
use ze_ospi.Paging.Entry.{entry-of_entry}

abbrev all_free : PhysMem
all_free _ = free_mark

-- The first candidate is in use.
abbrev one_used : PhysMem
one_used = mark all_free 256 used_mark

alloc_many_lem_example :
    ((m' : PhysMem) × (alloc_many 3 one_used ≡ some m')
      × (free_frames one_used ≡ free_frames m' + 3))
    ⊎ ((alloc_many 3 one_used ≡ none) × (free_frames one_used < 3))
alloc_many_lem_example = alloc_many_lem 3 one_used

serve_all_256_example : serve_all one_used (free 256 ∷ alloc ∷ free 258 ∷ []) 256 ≢ free_mark
serve_all_256_example = serve_all_256 one_used (free 256 ∷ alloc ∷ free 258 ∷ []) (omega arith)

abbrev some_entry : SlEntry
some_entry = record {
  xn = 1;
  setbit = 1;
  b = 0;
  c = 0;
  ap = 3;
  tex = 0;
  apx = 0;
  s = 1;
  ng = 1;
  pbase_addr = 300;
}

entry-of_entry_example : entry (of_entry 0x12cc33) ≡ 0x12cc33
entry-of_entry_example = entry-of_entry 0x12cc33 (omega arith)

abbrev same_table : PageTable
same_table _ = some_entry

abbrev some_dirs : Dirs
some_dirs = record {
  assigned_base_dir = λ _. 1;
  fl_ptable = λ _ _. record { accesstype = 0; ns = 0; domain = 0; p = 0; pbase_addr = 0 };
}
