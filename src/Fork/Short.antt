-- ===== src/Fork/Short.antt =====
-- `sys_fork` when the frames run out.
use ze_ospi.Base.{ℕ, ◌≡◌, refl, ◌<◌, ◌≢◌, inl, List, ◌∷◌, arith, neg}
use ze_ospi.Errno.{enmphp}
use ze_ospi.Frames.Count.{free_frames}
use ze_ospi.Duplicate.{Machine}
use ze_ospi.Duplicate.Take.{take_frames-short}
use ze_ospi.Fork.{sys_fork}

-- If the free queue has a task but fewer than 20 frames are free, `sys_fork` returns -ENMPHP, gives
-- every frame back that it took, other than frame 256, and leaves the contents of the frames and the
-- page tables as they were.
pub sys_fork-short :
    (task_at : ℕ → ℕ) (ret_from_fork empty_ph_page last_sp new : ℕ) (ts : List ℕ) (frames : ℕ → ℕ)
    (s : Machine)
    → s.system.kernel.freequeue ≡ new ∷ ts
    → free_frames s.system.mm.phys_mem < 20
    → let (r, s') = sys_fork task_at ret_from_fork empty_ph_page last_sp frames s in
      (r ≡ neg enmphp)
      × ((j : ℕ) → j ≢ 256 → s'.system.mm.phys_mem j ≡ s.system.mm.phys_mem j)
      × (s'.ram ≡ s.ram)
      × (s'.system.mm.user_pt ≡ s.system.mm.user_pt)
unfolding sys_fork
sys_fork-short task_at ret empty last_sp new ts frames s queue few =
    let m = s.system.mm.phys_mem in
    let (short, same) =
      take_frames-short 20 0 frames m m few (λ j. inl refl) (λ k h. absurd (omega arith)) in
    rw (queue, short) (refl, same, refl, refl)
