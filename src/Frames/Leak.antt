-- ===== src/Frames/Leak.antt =====
-- The first frame that mm.c gives out cannot be given back.
use ze_ospi.Base.{ℕ, ◌≡◌, ap, ◌∙◌, ◌≢◌, inl, inr, List, [], ◌∷◌, arith, ℤ, pos}
use ze_ospi.Frames.{PhysMem, mark, free_mark, used_mark, init_frames, alloc_frame, free_frame}
use ze_ospi.Frames.Alloc.{alloc_frame_lem, free_frame_lem, init_frames_lem}

-- What the rest of the kernel does to the map.
pub data Request : Type 0 where
  alloc : Request
  free : ℕ → Request

pub serve : PhysMem → Request → PhysMem
serve m alloc = (alloc_frame m).1
serve m (free frame) = free_frame frame m

pub serve_all : PhysMem → List Request → PhysMem
serve_all m [] = m
serve_all m (r ∷ rs) = serve_all (serve m r) rs

serve_256 : (m : PhysMem) (r : Request) → m 256 ≢ free_mark → serve m r 256 ≢ free_mark
unfolding serve
serve_256 m alloc h = elim (alloc_frame_lem m) [
  | inl (f, _, _, _, is) ↦ ground (arith, ap (λ (p : ℤ × PhysMem). p.1 256) is)
  | inr (_, is) ↦ ground (arith, ap (λ (p : ℤ × PhysMem). p.1 256) is)
]
serve_256 m (free frame) h = ground (arith, free_frame_lem frame m 256)

-- Once frame 256 is in use, no sequence of allocations and frees, of frame 256 included, makes it
-- free again.
pub serve_all_256 :
    (m : PhysMem) (rs : List Request) → m 256 ≢ free_mark → serve_all m rs 256 ≢ free_mark
unfolding serve_all
serve_all_256 m [] h = h
serve_all_256 m (r ∷ rs) h = serve_all_256 (serve m r) rs (serve_256 m r h)

-- Frame 256 is the first frame that the allocator gives out after `init_frames`.
pub alloc_frame-init_frames :
    (m : PhysMem) → alloc_frame (init_frames m) ≡ (pos 256, mark (init_frames m) 256 used_mark)
alloc_frame-init_frames m =
    let user : init_frames m 256 ≡ free_mark = ground (arith, init_frames_lem m 256) in
    elim (alloc_frame_lem (init_frames m)) [
      | inl (f, c, _, first, is) ↦
          let e : f ≡ 256 = ground (arith, first 256 (omega arith)) in is ∙ rw e
      | inr (none_free, _) ↦ absurd (none_free 256 (omega arith) user)
    ]
