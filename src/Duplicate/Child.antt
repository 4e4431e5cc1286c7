-- ===== src/Duplicate/Child.antt =====
-- The tables and frames of a child after the copy of the user data in `sys_fork`.
use ze_ospi.Base.{
  ℕ, zero, suc, ◌+◌, ◌-◌, ◌≤◌, ◌<◌, ◌≡◌, refl, sym, ap, ◌∙◌, ◌≢◌, arith, true, ltb, leb, ◌&&◌,
  if◌then◌else◌, eq→==, pos, count_up, look-count_up,
}
use ze_ospi.Frames.{PhysMem, free_mark, used_mark}
use ze_ospi.Paging.{
  SlEntry, PageTable, put, entry, of_entry, data_page, base, set_ss_pag, check_used_page,
}
use ze_ospi.Space.Fresh.{Mapped}
use ze_ospi.Duplicate.{Ram, UserTables, set_table, Copy, finished, copy_user_data, child_table}
use ze_ospi.Duplicate.Search.{IsUnused}
use ze_ospi.Duplicate.Data.{Kept, copy_user_data-Kept}
use ze_ospi.Duplicate.Contents.{Contents, copy_user_data-Contents}

data_loop :
    (frames : ℕ → ℕ) (n lo : ℕ) (pt : PageTable) (k : ℕ)
    → count_up n lo (λ pag pt. set_ss_pag pt (8 + pag) (frames pag)) pt k
      ≡ (if leb (8 + lo) k && ltb k (8 + lo + n) then data_page (pos (frames (k - 8))) else pt k)
unfolding count_up set_ss_pag
data_loop frames zero lo pt k = ground arith
data_loop frames (suc n) lo pt k =
    ground (arith, data_loop frames n (lo + 1) (set_ss_pag pt (8 + lo) (frames lo)) k)

child_table_lem :
    (frames : ℕ → ℕ) (pt_current pt_new : PageTable) (k : ℕ)
    → child_table frames pt_current pt_new k ≡ (
        if ltb k 8
        then of_entry (entry (pt_current k))
        else if ltb k 28
        then data_page (pos (frames (k - 8)))
        else pt_new k)
unfolding child_table set_ss_pag
child_table_lem frames pt_current pt_new k =
    let first : PageTable =
      count_up 8 0 (λ pag pt. put pt pag (of_entry (entry (pt_current pag)))) pt_new in
    ground (
      arith,
      data_loop frames 20 0 first k,
      look-count_up (λ (pt : PageTable). pt) (λ i _. of_entry (entry (pt_current i)))
          (λ i pt. put pt i (of_entry (entry (pt_current i)))) (λ i s j. ground arith) 8 0 pt_new k,
    )

-- What a child has on the directory `dir` that is copied from the directory `cur`: its code entries
-- are the parent's words, its data pages lie in frames of its own with the parent's bytes, and the
-- parent's pages in use and the contents of all other frames are as before.
pub record Child (empty_ph_page cur dir : ℕ) (tables : UserTables) (m : PhysMem) (ram : Ram)
    (tables' : UserTables) (m' : PhysMem) (ram' : Ram) : Type 0 where
  pub code : (k : ℕ) → k < 8 → tables' dir k ≡ of_entry (entry (tables cur k))
  pub data_entries :
      (k : ℕ) → 8 ≤ k → k < 28 → tables' dir k ≡ data_page (pos (tables' dir k).pbase_addr)
  pub fresh : (k : ℕ) → 8 ≤ k → k < 28 → m (tables' dir k).pbase_addr ≡ free_mark
  pub taken : (k : ℕ) → 8 ≤ k → k < 28 → m' (tables' dir k).pbase_addr ≡ used_mark
  pub apart :
      (j k : ℕ) → 8 ≤ j → j < k → k < 28 → (tables' dir j).pbase_addr ≢ (tables' dir k).pbase_addr
  pub bytes :
      (k : ℕ) → 8 ≤ k → k < 28 → ram' (tables' dir k).pbase_addr ≡ ram (tables cur k).pbase_addr
  pub parent :
      (k : ℕ) → check_used_page empty_ph_page (tables cur k) ≡ true → tables' cur k ≡ tables cur k
  pub other_frames :
      (f : ℕ) → ((k : ℕ) → 8 ≤ k → k < 28 → (tables' dir k).pbase_addr ≢ f) → ram' f ≡ ram f

module _ (empty_ph_page cur dir q : ℕ) (tables : UserTables) (ram : Ram) (frames : ℕ → ℕ)
    {pt pt' : PageTable} {m m' : PhysMem} (ne : cur ≢ dir) (lo : 28 ≤ q) (hi : q < 256)
    (u : IsUnused empty_ph_page (tables cur) q) (mapped : Mapped data_page 20 0 pt m pt' m')
    (is : (k : ℕ) → k < 20 → frames k ≡ (pt' k).pbase_addr)
    (used : (k : ℕ) → k < 20 → m (tables cur (8 + k)).pbase_addr ≢ free_mark) where
  abbrev before : Copy
  before = record {
    ending = finished;
    tables = set_table tables dir (child_table frames (tables cur) (tables dir));
    phys_mem = m';
    ram = ram;
  }

  abbrev after : Copy
  after = copy_user_data empty_ph_page cur dir 42 0 28 before

  before-cur : before.tables cur ≡ tables cur
  before-cur = ground arith

  before-dir :
      (k : ℕ)
      → before.tables dir k ≡ (
          if ltb k 8
          then of_entry (entry (tables cur k))
          else if ltb k 28
          then data_page (pos (frames (k - 8)))
          else tables dir k)
  before-dir k = rw (eq→== dir dir refl) (child_table_lem frames (tables cur) (tables dir) k)

  frames-base : (k : ℕ) → k < 20 → base (frames k) ≡ frames k
  unfolding data_page
  frames-base k h =
      rw (is k h) (sym (ap (λ (e : SlEntry). e.pbase_addr) (mapped.entries k (omega arith) h)))

  child_entry : (k : ℕ) → 8 ≤ k → k < 28 → before.tables dir k ≡ data_page (pos (frames (k - 8)))
  child_entry k a b = ground (arith, before-dir k)

  child_frame : (k : ℕ) → 8 ≤ k → k < 28 → (before.tables dir k).pbase_addr ≡ frames (k - 8)
  unfolding data_page
  child_frame k a b =
      ap (λ (e : SlEntry). e.pbase_addr) (child_entry k a b) ∙ frames-base (k - 8) (omega arith)

  less8 : (k : ℕ) → 8 + k - 8 ≡ k
  less8 k = omega arith

  back : (k : ℕ) → 8 ≤ k → 8 + (k - 8) ≡ k
  back k h = omega arith

  kept : (after.ending ≡ finished) × Kept empty_ph_page cur dir before after
  kept =
      copy_user_data-Kept empty_ph_page cur dir 20 42 0 28 q before refl (omega arith) (omega arith)
        (omega arith) lo hi (rw before-cur u) (λ z. refl)

  apart : (j k : ℕ) → j < k → k < 20 → frames j ≢ frames k
  apart j k less h =
      rw (is j (omega arith), is k h) (mapped.distinct j k (omega arith) less (omega arith))

  clear : (j k : ℕ) → j < 20 → k < 20 → frames j ≢ (tables cur (8 + k)).pbase_addr
  clear j k hj hk = λ e. used k hk (ap m (sym e ∙ is j hj) ∙ mapped.fresh j (omega arith) hj)

  contents :
      Contents empty_ph_page cur dir frames (λ k. (tables cur (8 + k)).pbase_addr) 0 ram after.ram
  contents =
      copy_user_data-Contents empty_ph_page cur dir frames (λ k. (tables cur (8 + k)).pbase_addr) 20
        42 0 28 q before refl (omega arith) (omega arith) (omega arith) lo hi (rw before-cur u)
        (λ z. refl) ne
        (record {
          is_to = λ k h.
              rw (child_frame (8 + k) (omega arith) (omega arith), less8 k) (frames-base k h);
          is_from = λ k h. ap (λ (pt : PageTable). (pt (8 + k)).pbase_addr) before-cur;
        })
        apart clear

  pub copy_user_data-Child :
      (after.ending ≡ finished)
      × (after.phys_mem ≡ m')
      × Child empty_ph_page cur dir tables m ram after.tables m' after.ram
  copy_user_data-Child =
      let dir_same = kept.1.others dir (λ e. ne (sym e)) in
      let frame : (k : ℕ) → 8 ≤ k → k < 28 → (after.tables dir k).pbase_addr ≡ frames (k - 8) =
        λ k a b. ap (λ (pt : PageTable). (pt k).pbase_addr) dir_same ∙ child_frame k a b in
      (
        kept.0,
        kept.1.phys_mem,
        record {
          code = λ k h. ap (λ (pt : PageTable). pt k) dir_same ∙ ground (arith, before-dir k);
          data_entries = λ k a b.
              ap (λ (pt : PageTable). pt k) dir_same
              ∙ child_entry k a b
              ∙ ap (λ f. data_page (pos f)) (sym (frame k a b));
          fresh = λ k a b.
              ap m (frame k a b ∙ is (k - 8) (omega arith))
              ∙ mapped.fresh (k - 8) (omega arith) (omega arith);
          taken = λ k a b.
              ap m' (frame k a b ∙ is (k - 8) (omega arith))
              ∙ mapped.taken (k - 8) (omega arith) (omega arith);
          apart = λ j k a l b e.
              apart (j - 8) (k - 8) (omega arith) (omega arith)
                (sym (frame j a (omega arith)) ∙ e ∙ frame k (omega arith) b);
          bytes = λ k a b.
              ap after.ram (frame k a b)
              ∙ contents.copies (k - 8) (omega arith) (omega arith)
              ∙ ap (λ x. ram (tables cur x).pbase_addr) (back k a);
          parent =
              λ k u. kept.1.same k (rw before-cur u) ∙ ap (λ (pt : PageTable). pt k) before-cur;
          other_frames = λ f away. contents.rest f (λ k a b e.
              away (8 + k) (omega arith) (omega arith)
                (frame (8 + k) (omega arith) (omega arith) ∙ ap frames (less8 k) ∙ e));
        },
      )
