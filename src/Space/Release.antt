-- ===== src/Space/Release.antt =====
-- mm.c: `free_user_pages`.
use ze_ospi.Base.{ℕ, zero, suc, ◌+◌, ◌<◌, ◌≡◌, refl, arith, leb, ltb, ◌==◌, ◌&&◌, if◌then◌else◌}
use ze_ospi.Frames.{PhysMem, free_mark, free_frame}
use ze_ospi.Frames.Alloc.{free_frame_lem}
use ze_ospi.Paging.{PageTable, del_ss_pag, total_pages_entries}
use ze_ospi.Process.Frames.{maps_to}
use ze_ospi.Space.{Mm}

-- The loop over the pages, `n` of them from `pag` on.
unfoldable pub free_table : (empty_ph_page n pag : ℕ) → PageTable → PhysMem → PageTable × PhysMem
free_table e zero pag pt m = (pt, m)
free_table e (suc n) pag pt m =
    free_table e n (pag + 1) (del_ss_pag e pt pag) (free_frame (pt pag).pbase_addr m)

-- With NUM_DIR_ENTRIES at 2 the outer loop has the round of `get_PT(task,1)` only.
unfoldable pub free_user_pages : (empty_ph_page dir_pages_base_addr : ℕ) → Mm → Mm
free_user_pages e slot mm =
    let (pt, m) = free_table e total_pages_entries 0 (mm.user_pt slot) mm.phys_mem in
    record mm { phys_mem = m; user_pt = λ s. if slot == s then pt else mm.user_pt s }

free_table-page :
    (e n lo : ℕ) (pt : PageTable) (m : PhysMem) (p : ℕ)
    → (free_table e n lo pt m).0 p
      ≡ (if leb lo p && ltb p (lo + n) then del_ss_pag e pt p p else pt p)
unfolding free_table del_ss_pag
free_table-page e zero lo pt m p = ground arith
free_table-page e (suc n) lo pt m p =
    ground
      (arith, free_table-page e n (lo + 1) (del_ss_pag e pt lo) (free_frame (pt lo).pbase_addr m) p)

-- Only the pages from `lo` on count.
maps_to-del_ss_pag :
    (e n lo gone : ℕ) (pt : PageTable) (f : ℕ)
    → gone < lo
    → maps_to n lo (del_ss_pag e pt gone) f ≡ maps_to n lo pt f
unfolding maps_to del_ss_pag
maps_to-del_ss_pag e zero lo gone pt f h = refl
maps_to-del_ss_pag e (suc n) lo gone pt f h =
    ground (arith, maps_to-del_ss_pag e n (lo + 1) gone pt f (omega arith))

free_table-frame :
    (e n lo : ℕ) (pt : PageTable) (m : PhysMem) (f : ℕ)
    → (free_table e n lo pt m).1 f
      ≡ (if maps_to n lo pt f && (ltb 256 f && ltb f 1024) then free_mark else m f)
unfolding free_table maps_to
free_table-frame e zero lo pt m f = refl
free_table-frame e (suc n) lo pt m f = ground (
  arith,
  free_table-frame e n (lo + 1) (del_ss_pag e pt lo) (free_frame (pt lo).pbase_addr m) f,
  maps_to-del_ss_pag e n (lo + 1) lo pt f (omega arith),
  free_frame_lem (pt lo).pbase_addr m f,
)

-- All 256 user pages of the directory are afterwards as `del_ss_pag` leaves a page, and a frame behind the
-- first user frame is free if one of them was at it. No other frame changes, and no page of another
-- directory.
pub free_user_pages_lem :
    (e slot : ℕ) (mm : Mm) (f s p : ℕ)
    → let mm' = free_user_pages e slot mm in
      (mm'.phys_mem f ≡ (
        if maps_to 256 0 (mm.user_pt slot) f && (ltb 256 f && ltb f 1024)
        then free_mark
        else mm.phys_mem f))
      × (mm'.user_pt s p ≡ (
          if (slot == s) && ltb p 256 then del_ss_pag e (mm.user_pt slot) p p else mm.user_pt s p))
unfolding free_user_pages
free_user_pages_lem e slot mm f s p = (
  free_table-frame e 256 0 (mm.user_pt slot) mm.phys_mem f,
  ground (arith, free_table-page e 256 0 (mm.user_pt slot) mm.phys_mem p),
)
