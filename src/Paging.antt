-- ===== src/Paging.antt =====
-- mm.c, paging management: the entries of the page tables, the tables that `init_mm` builds, and
-- the operations on one page. include/types.h gives the entries' bits.
pub mod Entry
pub mod Init
pub mod Empty
use ze_ospi.Base.{
  ℕ, zero, suc, ◌+◌, ◌-◌, ◌*◌, ◌/◌, ◌%◌, ◌^◌, Bool, not, ltb, ◌==◌, if◌then◌else◌, count_up, ℤ, pos,
  negsuc,
}

-- include/mm_address.h and include/sched.h
abbrev pub nr_tasks : ℕ
nr_tasks = 10

abbrev pub num_dir_entries : ℕ
num_dir_entries = 2

abbrev pub total_dir_entries : ℕ
total_dir_entries = 2 ^ 12

abbrev pub total_pages_entries : ℕ
total_pages_entries = 2 ^ 8

abbrev pub num_pag_kernel : ℕ
num_pag_kernel = 256

-- `sl_page_table_entry` by its bit fields.
pub record SlEntry : Type 0 where
  pub xn : ℕ
  pub setbit : ℕ
  pub b : ℕ
  pub c : ℕ
  pub ap : ℕ
  pub tex : ℕ
  pub apx : ℕ
  pub s : ℕ
  pub ng : ℕ
  pub pbase_addr : ℕ

-- The same union read as its `entry`: the fields from the lowest bit up.
unfoldable pub entry : SlEntry → ℕ
entry e =
    e.xn
    + 2 * e.setbit
    + 4 * e.b
    + 8 * e.c
    + 16 * e.ap
    + 64 * e.tex
    + 512 * e.apx
    + 1024 * e.s
    + 2048 * e.ng
    + 4096 * e.pbase_addr

-- A write of `entry` sets every field.
unfoldable pub of_entry : ℕ → SlEntry
of_entry w = record {
  xn = w % 2;
  setbit = w / 2 % 2;
  b = w / 4 % 2;
  c = w / 8 % 2;
  ap = w / 16 % 4;
  tex = w / 64 % 8;
  apx = w / 512 % 2;
  s = w / 1024 % 2;
  ng = w / 2048 % 2;
  pbase_addr = w / 4096 % 2 ^ 20;
}

-- What lands in the 20 bits of `pbase_addr`.
abbrev pub base : ℕ → ℕ
base frame = frame % 2 ^ 20

-- The same for an `int`, such as the -1 of `alloc_frame`.
abbrev pub base_of_int : ℤ → ℕ
base_of_int (pos n) = base n
base_of_int (negsuc n) = 2 ^ 20 - 1 - base n

-- The entry of `set_empty_page`: the first store is `entry = 0`, and the others fill every field.
-- `empty_ph_page` is the address of that array, which the linker fixes.
unfoldable pub set_empty_page : ℕ → SlEntry
set_empty_page empty_ph_page = record {
  xn = 1;
  setbit = 1;
  b = 0;
  c = 0;
  ap = 3;
  tex = 0;
  apx = 0;
  s = 1;
  ng = 1;
  pbase_addr = base (empty_ph_page / 2 ^ 12);
}

-- The second loop of `init_table_pages`, at page `k`: it overwrites all fields.
unfoldable pub kernel_page : ℕ → SlEntry
kernel_page k = record {
  xn = 0;
  setbit = 1;
  b = 0;
  c = 0;
  ap = 1;
  tex = 0;
  apx = 0;
  s = 1;
  ng = 1;
  pbase_addr = base k;
}

-- The entries that `set_user_pages` makes, and `set_ss_pag`.
unfoldable pub code_page : ℤ → SlEntry
code_page frame = record {
  xn = 0;
  setbit = 1;
  b = 0;
  c = 0;
  ap = 2;
  tex = 0;
  apx = 0;
  s = 1;
  ng = 1;
  pbase_addr = base_of_int frame;
}

unfoldable pub data_page : ℤ → SlEntry
data_page frame = record {
  xn = 1;
  setbit = 1;
  b = 0;
  c = 0;
  ap = 3;
  tex = 0;
  apx = 0;
  s = 1;
  ng = 1;
  pbase_addr = base_of_int frame;
}

-- A second-level table, 256 entries.
abbrev pub PageTable : Type 0
PageTable = ℕ → SlEntry

abbrev pub put : PageTable → ℕ → SlEntry → PageTable
put pt page e k = if page == k then e else pt k

unfoldable pub set_ss_pag : PageTable → ℕ → ℕ → PageTable
unfolding data_page
set_ss_pag pt page frame = put pt page (data_page (pos frame))

-- `CLEAR_PAGE` is the `entry` of the empty pages.
unfoldable pub del_ss_pag : ℕ → PageTable → ℕ → PageTable
unfolding of_entry entry set_empty_page
del_ss_pag empty_ph_page pt logical_page =
    put pt logical_page (of_entry (entry (set_empty_page empty_ph_page)))

unfoldable pub get_frame : PageTable → ℕ → ℕ
get_frame pt logical_page = (pt logical_page).pbase_addr

unfoldable pub check_used_page : ℕ → SlEntry → Bool
unfolding entry set_empty_page
check_used_page empty_ph_page pt = not (entry pt == entry (set_empty_page empty_ph_page))

-- `sl_ptable[i][j][k]`
abbrev pub Tables : Type 0
Tables = ℕ → ℕ → PageTable

abbrev pub put_at : Tables → ℕ → ℕ → ℕ → SlEntry → Tables
put_at t i j k e i' j' k' =
    if i == i'
    then (if j == j' then (if k == k' then e else t i' j' k') else t i' j' k')
    else t i' j' k'

unfoldable pub init_table_pages : ℕ → Tables → Tables
init_table_pages empty_ph_page t =
    count_up nr_tasks 0
      (λ i t.
        count_up num_pag_kernel 0 (λ k t. put_at t i 0 k (kernel_page k))
          (count_up num_dir_entries 0
            (λ j t.
              count_up total_pages_entries 0 (λ k t. put_at t i j k (set_empty_page empty_ph_page))
                t)
            t))
      t

-- `fl_page_table_entry`: the fields that are written; `entry = 0` clears the others.
pub record FlEntry : Type 0 where
  pub accesstype : ℕ
  pub ns : ℕ
  pub domain : ℕ
  pub p : ℕ
  pub pbase_addr : ℕ

-- The address of `sl_ptable[i][j][0]`, four bytes an entry.
abbrev pub sl_address : ℕ → ℕ → ℕ → ℕ
sl_address sl_ptable i j = sl_ptable + (i * num_dir_entries + j) * (total_pages_entries * 4)

abbrev pub dir_entry : ℕ → FlEntry
dir_entry address = record {
  accesstype = 1;
  ns = 0;
  domain = 0;
  p = 0;
  pbase_addr = address / 2 ^ 10 % 2 ^ 22;
}

abbrev pub Directory : Type 0
Directory = ℕ → ℕ → FlEntry

abbrev pub put_dir : Directory → ℕ → ℕ → FlEntry → Directory
put_dir d i j e i' j' = if i == i' then (if j == j' then e else d i' j') else d i' j'

-- The two arrays that `init_dir_pages` writes. `sl_ptable` and `empty_sl_ptable` are addresses.
pub record Dirs : Type 0 where
  pub assigned_base_dir : ℕ → ℕ
  pub fl_ptable : Directory

unfoldable pub init_dir_pages : (sl_ptable empty_sl_ptable : ℕ) → Dirs → Dirs
init_dir_pages sl_ptable empty_sl_ptable d =
    count_up nr_tasks 0
      (λ i d. record {
        assigned_base_dir = λ k. if i == k then 0 else d.assigned_base_dir k;
        fl_ptable =
            count_up (total_dir_entries - num_dir_entries) num_dir_entries
              (λ j f. put_dir f i j (dir_entry empty_sl_ptable))
              (count_up num_dir_entries 0
                (λ j f. put_dir f i j (dir_entry (sl_address sl_ptable i j))) d.fl_ptable);
      })
      d

-- sched.c, `get_PT`: the address of the second-level table behind a directory entry.
unfoldable pub get_pt : Directory → ℕ → ℕ → ℕ
get_pt f slot dir = (f slot dir).pbase_addr * 2 ^ 10 % 2 ^ 32
