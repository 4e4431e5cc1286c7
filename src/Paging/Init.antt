-- ===== src/Paging/Init.antt =====
-- The address space that `init_table_pages` and `init_dir_pages` of mm.c set up for every task.
use ze_ospi.Base.{
  ℕ, ◌+◌, ◌-◌, ◌*◌, ◌%◌, ◌^◌, ◌≤◌, ◌<◌, ◌≡◌, refl, ◌∙◌, ◌&&◌, arith, ltb, leb, ◌==◌, if◌then◌else◌,
  count_up, look-count_up,
}
use ze_ospi.Paging.{
  SlEntry, nr_tasks, num_dir_entries, total_dir_entries, total_pages_entries, num_pag_kernel,
  set_empty_page, kernel_page, Tables, put_at, init_table_pages, FlEntry, sl_address, dir_entry,
  Directory, put_dir, Dirs, init_dir_pages, get_pt,
}

page_loop :
    (v : ℕ → SlEntry) (n i' j' : ℕ) (t : Tables) (i j k : ℕ)
    → count_up n 0 (λ k t. put_at t i' j' k (v k)) t i j k
      ≡ (if ltb k n && (i' == i && j' == j) then v k else t i j k)
page_loop v n i' j' t i j k =
    look-count_up (λ (t : Tables) k. t i j k) (λ k e. if i' == i && j' == j then v k else e)
      (λ k t. put_at t i' j' k (v k)) (λ m t k. ground arith) n 0 t k
    ∙ ground arith

abbrev blank : ℕ → ℕ → ℕ → Tables → Tables
blank empty i' j' = count_up total_pages_entries 0 (λ k t. put_at t i' j' k (set_empty_page empty))

dir_loop :
    (empty i' : ℕ) (t : Tables) (i j k : ℕ)
    → count_up num_dir_entries 0 (blank empty i') t i j k
      ≡ (if ltb j 2 && (ltb k 256 && i' == i) then set_empty_page empty else t i j k)
dir_loop empty i' t i j k =
    look-count_up (λ (t : Tables) j. t i j k)
      (λ j e. if ltb k 256 && i' == i then set_empty_page empty else e) (blank empty i')
      (λ j' t j. page_loop (λ _. set_empty_page empty) 256 i' j' t i j k ∙ ground arith)
      num_dir_entries 0 t j
    ∙ ground arith

-- After `init_table_pages` each of the ten tasks sees the kernel's 256 pages at their own frames,
-- for privileged access only, and every page of its own directory entry is the empty page; nothing
-- else changes.
pub init_table_pages_lem :
    (empty_ph_page : ℕ) (t : Tables) (i j k : ℕ)
    → init_table_pages empty_ph_page t i j k ≡ (
        if ltb i 10 && (ltb j 2 && ltb k 256)
        then (if 0 == j then kernel_page k else set_empty_page empty_ph_page)
        else t i j k)
unfolding init_table_pages
init_table_pages_lem empty t i j k =
    look-count_up (λ (t : Tables) i. t i j k)
      (λ i e.
        if ltb j 2 && ltb k 256
        then (if 0 == j then kernel_page k else set_empty_page empty)
        else e)
      (λ i t.
        count_up num_pag_kernel 0 (λ k t. put_at t i 0 k (kernel_page k))
          (count_up num_dir_entries 0 (blank empty i) t))
      (λ i' t i.
        page_loop kernel_page 256 i' 0 (count_up num_dir_entries 0 (blank empty i') t) i j k
        ∙ ground (arith, dir_loop empty i' t i j k))
      nr_tasks 0 t i
    ∙ ground arith

dir_entries :
    (n lo i' : ℕ) (v : ℕ → FlEntry) (f : Directory) (i j : ℕ)
    → count_up n lo (λ j f. put_dir f i' j (v j)) f i j
      ≡ (if leb lo j && ltb j (lo + n) && i' == i then v j else f i j)
dir_entries n lo i' v f i j =
    look-count_up (λ (f : Directory) j. f i j) (λ j e. if i' == i then v j else e)
      (λ j f. put_dir f i' j (v j)) (λ m f j. ground arith) n lo f j
    ∙ ground arith

module _ (sl_ptable empty_sl_ptable : ℕ) where
  -- The body of the loop over the tasks.
  abbrev task_dirs : ℕ → Dirs → Dirs
  task_dirs i d = record {
    assigned_base_dir = λ k. if i == k then 0 else d.assigned_base_dir k;
    fl_ptable =
        count_up (total_dir_entries - num_dir_entries) num_dir_entries
          (λ j f. put_dir f i j (dir_entry empty_sl_ptable))
          (count_up num_dir_entries 0 (λ j f. put_dir f i j (dir_entry (sl_address sl_ptable i j)))
            d.fl_ptable);
  }

  abbrev entry_at : ℕ → ℕ → FlEntry
  entry_at i j = if ltb j 2 then dir_entry (sl_address sl_ptable i j) else dir_entry empty_sl_ptable

  task_dirs_lem :
      (i' : ℕ) (d : Dirs) (i j : ℕ)
      → (task_dirs i' d).fl_ptable i j ≡ (
          if i' == i
          then (if ltb j 4096 then entry_at i j else d.fl_ptable i j)
          else d.fl_ptable i j)
  task_dirs_lem i' d i j =
      dir_entries 4094 2 i' (λ _. dir_entry empty_sl_ptable)
        (count_up num_dir_entries 0 (λ j f. put_dir f i' j (dir_entry (sl_address sl_ptable i' j)))
          d.fl_ptable)
        i j
      ∙ ground
          (arith, dir_entries 2 0 i' (λ j. dir_entry (sl_address sl_ptable i' j)) d.fl_ptable i j)

  dirs_entries :
      (d : Dirs) (i j : ℕ)
      → (init_dir_pages sl_ptable empty_sl_ptable d).fl_ptable i j
        ≡ (if ltb i 10 && ltb j 4096 then entry_at i j else d.fl_ptable i j)
  unfolding init_dir_pages
  dirs_entries d i j =
      look-count_up (λ (d : Dirs) i. d.fl_ptable i j)
        (λ i e. if ltb j 4096 then entry_at i j else e) task_dirs (λ i' d i. task_dirs_lem i' d i j)
        nr_tasks 0 d i
      ∙ ground arith

  dirs_counts :
      (d : Dirs) (i : ℕ)
      → (init_dir_pages sl_ptable empty_sl_ptable d).assigned_base_dir i
        ≡ (if ltb i 10 then 0 else d.assigned_base_dir i)
  unfolding init_dir_pages
  dirs_counts d i =
      look-count_up (λ (d : Dirs) i. d.assigned_base_dir i) (λ i e. 0) task_dirs (λ i' d i. refl)
        nr_tasks 0 d i
      ∙ ground arith

  -- After `init_dir_pages` no directory is assigned, `get_PT` finds a task's own two tables through
  -- its directory, and every other directory entry leads to the table of empty pages, if the linker
  -- has put the tables on boundaries of 1 KB below 2 ^ 32.
  pub get_pt-init_dir_pages :
      (d : Dirs) (i j : ℕ)
      → i < 10
      → j < 4096
      → sl_ptable % 1024 ≡ 0
      → empty_sl_ptable % 1024 ≡ 0
      → sl_ptable + 20 * 1024 ≤ 2 ^ 32
      → empty_sl_ptable < 2 ^ 32
      → let d' = init_dir_pages sl_ptable empty_sl_ptable d in
        (d'.assigned_base_dir i ≡ 0)
        × (get_pt d'.fl_ptable i j
            ≡ (if ltb j 2 then sl_address sl_ptable i j else empty_sl_ptable))
  unfolding get_pt
  get_pt-init_dir_pages d i j hi hj al al' room room' =
      (ground (arith, dirs_counts d i), ground (arith, dirs_entries d i j))
