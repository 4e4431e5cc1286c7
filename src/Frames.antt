-- ===== src/Frames.antt =====
-- mm.c, frames management: the byte map of the physical pages. The array `phys_mem` is a function
-- of the index, since every access below is guarded by a bound.
pub mod Alloc
pub mod Count
pub mod Leak
use ze_ospi.Base.{
  ℕ, zero, suc, ◌+◌, ◌≡◌, Bool, true, false, ◌&&◌, ltb, ◌==◌, if◌then◌else◌, ℤ, pos, negsuc,
}

-- include/mm_address.h and include/mm.h
abbrev pub total_ph_pages : ℕ
total_ph_pages = 1024

abbrev pub num_pag_kernel : ℕ
num_pag_kernel = 256

abbrev pub free_mark : ℕ
free_mark = 0

abbrev pub used_mark : ℕ
used_mark = 1

abbrev pub PhysMem : Type 0
PhysMem = ℕ → ℕ

abbrev pub mark : PhysMem → ℕ → ℕ → PhysMem
mark m i v j = if i == j then v else m j

-- `for (i = lo; i < lo + n; i++) phys_mem[i] = v;`
fill : ℕ → ℕ → ℕ → PhysMem → PhysMem
fill zero lo v m = m
fill (suc n) lo v m = fill n (lo + 1) v (mark m lo v)

pub init_frames : PhysMem → PhysMem
init_frames m = fill num_pag_kernel 0 used_mark (fill total_ph_pages 0 free_mark m)

-- The loop of `alloc_frame` with `n` rounds left, `i` going up by 2.
unfoldable pub alloc_from : ℕ → ℕ → PhysMem → ℤ × PhysMem
alloc_from zero i m = (negsuc 0, m)
alloc_from (suc n) i m = elim (m i == free_mark) [
  | true ↦ (pos i, mark m i used_mark)
  | false ↦ alloc_from n (i + 2) m
]

-- The 384 values 256, 258, … below 1024 are tried.
unfoldable pub alloc_frame : PhysMem → ℤ × PhysMem
alloc_frame = alloc_from 384 num_pag_kernel

pub free_frame : ℕ → PhysMem → PhysMem
free_frame frame m =
    if ltb num_pag_kernel frame && ltb frame total_ph_pages then mark m frame free_mark else m
