-- ===== src/Process/Frames.antt =====
-- What `sys_exit` of sys.c gives back.
use ze_ospi.Base.{
  ℕ, zero, suc, ◌+◌, ◌^◌, ◌<◌, ◌≡◌, refl, arith, ◌==◌, ◌&&◌, ◌||◌, ltb, if◌then◌else◌, Bool, false,
  count_up,
}
use ze_ospi.Frames.{PhysMem, free_mark, free_frame}
use ze_ospi.Frames.Alloc.{free_frame_lem}
use ze_ospi.Paging.{PageTable}
use ze_ospi.Boot.{System}
use ze_ospi.Process.{free_pages, sys_exit}

-- One of the `n` pages from `lo` on is at frame `f`.
unfoldable pub maps_to : (n lo : ℕ) → PageTable → ℕ → Bool
maps_to zero lo pt f = false
maps_to (suc n) lo pt f = ((pt lo).pbase_addr == f) || maps_to n (lo + 1) pt f

free_pages_lem :
    (n lo : ℕ) (pt : PageTable) (m : PhysMem) (f : ℕ)
    → free_pages n lo pt m f
      ≡ (if maps_to n lo pt f && (ltb 256 f && ltb f 1024) then free_mark else m f)
unfolding free_pages maps_to count_up
free_pages_lem zero lo pt m f = refl
free_pages_lem (suc n) lo pt m f = ground (
  arith,
  free_pages_lem n (lo + 1) pt (free_frame (pt lo).pbase_addr m) f,
  free_frame_lem (pt lo).pbase_addr m f,
)

-- An exit frees a frame behind the first user frame exactly if the task is the last one on its
-- directory and one of its pages 28 to 255 is at the frame: the frames of the data pages 8 to 27 stay
-- in use, unless the heap has them too. The directory and the program break lose one reference
-- each, and no table changes: the entries of the freed pages stay.
pub sys_exit-frames :
    (s : System) (f : ℕ)
    → let t = s.kernel.task s.kernel.current in
      let pt = s.mm.user_pt t.dir_pages_base_addr in
      let last = s.mm.assigned_base_dir t.dir_count == 1 in
      let s' = sys_exit s in
      0 < s.mm.assigned_base_dir t.dir_count
      → s.mm.assigned_base_dir t.dir_count < 2 ^ 8
      → 0 < s.mm.pb_counter t.pb_count
      → s.mm.pb_counter t.pb_count < 2 ^ 8
      → (s'.mm.phys_mem f ≡ (
          if last && (maps_to 228 28 pt f && (ltb 256 f && ltb f 1024))
          then free_mark
          else s.mm.phys_mem f))
        × (s'.mm.assigned_base_dir t.dir_count + 1 ≡ s.mm.assigned_base_dir t.dir_count)
        × (s'.mm.pb_counter t.pb_count + 1 ≡ s.mm.pb_counter t.pb_count)
        × (s'.mm.user_pt ≡ s.mm.user_pt)
unfolding sys_exit
sys_exit-frames s f a b c d =
    let t = s.kernel.task s.kernel.current in
    let freed = free_pages_lem 228 28 (s.mm.user_pt t.dir_pages_base_addr) s.mm.phys_mem f in
    (ground (arith, freed), ground arith, ground arith, refl)
