-- ===== src/Paging/Entry.antt =====
-- The bits of a page table entry, and the operations of mm.c on one page.
use ze_ospi.Base.{ℕ, ◌/◌, ◌^◌, ◌<◌, ◌≡◌, refl, false, not, arith, ◌==◌, if◌then◌else◌}
use ze_ospi.Paging.{
  SlEntry, entry, of_entry, base, set_empty_page, PageTable, set_ss_pag, del_ss_pag, get_frame,
  check_used_page,
}

-- Every field fits its bits.
pub record Fits (e : SlEntry) : Type 0 where
  pub xn : e.xn < 2
  pub setbit : e.setbit < 2
  pub b : e.b < 2
  pub c : e.c < 2
  pub ap : e.ap < 4
  pub tex : e.tex < 8
  pub apx : e.apx < 2
  pub s : e.s < 2
  pub ng : e.ng < 2
  pub pbase_addr : e.pbase_addr < 2 ^ 20

-- An entry whose fields fit their bits, read as a word and then by its fields again, is the same.
pub of_entry-entry : (e : SlEntry) → Fits e → of_entry (entry e) ≡ e
unfolding entry of_entry
of_entry-entry e f = ground arith

-- A word read by its fields and then as a word again is the same.
pub entry-of_entry : (w : ℕ) → w < 2 ^ 32 → entry (of_entry w) ≡ w
unfolding entry of_entry
entry-of_entry w h = omega arith

pub set_empty_page-Fits : (empty_ph_page : ℕ) → Fits (set_empty_page empty_ph_page)
unfolding set_empty_page
set_empty_page-Fits a = omega arith

pub del_ss_pag_lem :
    (empty_ph_page : ℕ) (pt : PageTable) (page q : ℕ)
    → del_ss_pag empty_ph_page pt page q
      ≡ (if page == q then set_empty_page empty_ph_page else pt q)
unfolding del_ss_pag
del_ss_pag_lem a pt page q = rw (of_entry-entry (set_empty_page a) (set_empty_page-Fits a)) refl

-- `set_ss_pag` maps one page to a frame of at most 20 bits, and `del_ss_pag` unmaps one page; `get_frame` reads the
-- frame back, at every page.
pub get_frame-set_ss_pag :
    (empty_ph_page : ℕ) (pt : PageTable) (page frame q : ℕ)
    → frame < 2 ^ 20
    → (get_frame (set_ss_pag pt page frame) q ≡ (if page == q then frame else get_frame pt q))
      × (get_frame (del_ss_pag empty_ph_page pt page) q
          ≡ (if page == q then base (empty_ph_page / 2 ^ 12) else get_frame pt q))
unfolding get_frame set_ss_pag set_empty_page
get_frame-set_ss_pag a pt page frame q h =
    (ground arith, ground (arith, del_ss_pag_lem a pt page q))

-- A page counts as used right after `set_ss_pag` to a frame of at most 20 bits, but for the one frame of the empty page, and as
-- unused right after `del_ss_pag`.
pub check_used_page-set_ss_pag :
    (empty_ph_page : ℕ) (pt : PageTable) (page frame : ℕ)
    → frame < 2 ^ 20
    → (check_used_page empty_ph_page (set_ss_pag pt page frame page)
        ≡ not (frame == base (empty_ph_page / 2 ^ 12)))
      × (check_used_page empty_ph_page (del_ss_pag empty_ph_page pt page page) ≡ false)
unfolding check_used_page set_ss_pag
check_used_page-set_ss_pag a pt page frame h =
    (ground arith, ground (arith, del_ss_pag_lem a pt page page))
