-- ===== src/Frames/Alloc.antt =====
-- What `init_frames`, `alloc_frame` and `free_frame` of mm.c do to the byte map.
use ze_ospi.Base.{
  ℕ, zero, suc, ◌+◌, ◌*◌, ◌%◌, ◌≤◌, ◌<◌, ◌≡◌, refl, sym, ap, ◌∙◌, ◌≢◌, ◌⊎◌, inl, inr, ◌&&◌, arith,
  leb, ltb, ◌==◌, if◌then◌else◌, Bool-cases, ==→eq, ==→ne, ℤ, pos, negsuc,
}
use ze_ospi.Frames.{
  PhysMem, mark, total_ph_pages, num_pag_kernel, free_mark, used_mark, fill, init_frames,
  alloc_from, alloc_frame, free_frame,
}

fill_lem :
    (n lo v : ℕ) (m : PhysMem) (j : ℕ)
    → fill n lo v m j ≡ (if leb lo j && ltb j (lo + n) then v else m j)
unfolding fill
fill_lem zero lo v m j = ground arith
fill_lem (suc n) lo v m j = ground (arith, fill_lem n (lo + 1) v (mark m lo v) j)

-- After `init_frames` the kernel's 256 frames are in use, the other 768 are free, and nothing
-- beyond the map has changed.
pub init_frames_lem :
    (m : PhysMem) (j : ℕ)
    → init_frames m j ≡ (
        if ltb j num_pag_kernel then used_mark else if ltb j total_ph_pages then free_mark else m j)
unfolding init_frames
init_frames_lem m j = ground (
  arith,
  fill_lem num_pag_kernel 0 used_mark (fill total_ph_pages 0 free_mark m) j,
  fill_lem total_ph_pages 0 free_mark m j,
)

-- A frame that `alloc_frame` looks at: even, and behind the kernel's.
abbrev pub IsCandidate : ℕ → Type 0
IsCandidate i = (num_pag_kernel ≤ i) × (i < total_ph_pages) × (i % 2 ≡ 0)

-- What a search that starts at `i` with `n` rounds has done when it returns.
pub data Outcome (i n : ℕ) (m : PhysMem) (r : ℤ × PhysMem) : Type 0 where
  got :
      (f : ℕ)
      → i ≤ f
      → f < i + 2 * n
      → f % 2 ≡ i % 2
      → m f ≡ free_mark
      → ((j : ℕ) → i ≤ j → j < f → j % 2 ≡ i % 2 → m j ≢ free_mark)
      → r ≡ (pos f, mark m f used_mark)
      → Outcome i n m r
  full :
      ((j : ℕ) → i ≤ j → j < i + 2 * n → j % 2 ≡ i % 2 → m j ≢ free_mark)
      → r ≡ (negsuc 0, m)
      → Outcome i n m r

earlier :
    (i k : ℕ) (m : PhysMem)
    → m i ≢ free_mark
    → ((j : ℕ) → i + 2 ≤ j → j < k → j % 2 ≡ (i + 2) % 2 → m j ≢ free_mark)
    → (j : ℕ) → i ≤ j
    → j < k
    → j % 2 ≡ i % 2
    → m j ≢ free_mark
earlier i k m ne rest j h b e = elim (Bool-cases (i == j)) [
  | inl same ↦ rw (← ==→eq i j same) ne
  | inr other ↦ let apart : i ≢ j = ==→ne i j other in rest j (omega arith) b (omega arith)
]

later :
    (n i : ℕ) (m : PhysMem) {r : ℤ × PhysMem}
    → m i ≢ free_mark
    → alloc_from (suc n) i m ≡ r
    → Outcome (i + 2) n m r
    → Outcome i (suc n) m (alloc_from (suc n) i m)
later n i m ne e (got f lo hi par free first is) =
    got f (omega arith) (omega arith) (omega arith) free (earlier i f m ne first) (e ∙ is)
later n i m ne e (full none_free is) =
    full (λ j h b p. earlier i (i + 2 + 2 * n) m ne none_free j h (omega arith) p) (e ∙ is)

alloc_from-Outcome : (n i : ℕ) (m : PhysMem) → Outcome i n m (alloc_from n i m)
unfolding alloc_from
alloc_from-Outcome zero i m = full (λ j h b e. absurd (omega arith)) refl
alloc_from-Outcome (suc n) i m = elim (Bool-cases (m i == free_mark)) [
  | inl hit ↦
      got i (omega arith) (omega arith) refl (==→eq (m i) free_mark hit)
        (λ j h b e. absurd (omega arith)) (rw (hit, alloc_from))
  | inr miss ↦
      later n i m (==→ne (m i) free_mark miss) (rw (miss, alloc_from))
        (alloc_from-Outcome n (i + 2) m)
]

-- `alloc_frame` takes the lowest free candidate: an even frame of the user's, that was free, with
-- every lower candidate in use. It marks that frame, and no other. If no candidate is free it
-- returns -1 and leaves the map as it was.
pub alloc_frame_lem :
    (m : PhysMem)
    → ((f : ℕ) × IsCandidate f
        × (m f ≡ free_mark)
        × ((j : ℕ) → IsCandidate j → j < f → m j ≢ free_mark)
        × (alloc_frame m ≡ (pos f, mark m f used_mark)))
      ⊎ (((j : ℕ) → IsCandidate j → m j ≢ free_mark) × (alloc_frame m ≡ (negsuc 0, m)))
unfolding alloc_frame
alloc_frame_lem m = cases (alloc_from-Outcome 384 num_pag_kernel m)
  where
    cases :
        {r : ℤ × PhysMem}
        → Outcome num_pag_kernel 384 m r
        → ((f : ℕ) × IsCandidate f
            × (m f ≡ free_mark)
            × ((j : ℕ) → IsCandidate j → j < f → m j ≢ free_mark)
            × (r ≡ (pos f, mark m f used_mark)))
          ⊎ (((j : ℕ) → IsCandidate j → m j ≢ free_mark) × (r ≡ (negsuc 0, m)))
    cases (got f lo hi par free first is) =
        inl (f, omega arith, free, (λ j c b. first j c.0 b c.2), is)
    cases (full none_free is) = inr ((λ j c. none_free j c.0 c.1 c.2), is)

-- `free_frame` frees a frame above the first user frame, and ignores every other number.
pub free_frame_lem :
    (frame : ℕ) (m : PhysMem) (j : ℕ)
    → free_frame frame m j ≡ (if frame == j && ltb 256 j && ltb j 1024 then free_mark else m j)
unfolding free_frame
free_frame_lem frame m j = ground arith

-- A successful `alloc_frame`, taken apart.
pub alloc_frame-eq-pos :
    (m : PhysMem) (f : ℕ) (m' : PhysMem)
    → alloc_frame m ≡ (pos f, m')
    → IsCandidate f × (m f ≡ free_mark) × ((j : ℕ) → m' j ≡ mark m f used_mark j)
alloc_frame-eq-pos m f m' e = elim (alloc_frame_lem m) [
  | inl (g, c, free, _, is) ↦
      let same : ◌≡◌ {A = ℤ × PhysMem} (pos f, m') (pos g, mark m g used_mark) = sym e ∙ is in
      let eq : g ≡ f = ground arith in
      ((omega arith), (ground arith), λ j. (ap (λ (p : ℤ × PhysMem). p.1 j) same ∙ rw eq))
  | inr (_, is) ↦ absurd (cc)
]

-- A frame that `alloc_frame` gave out, other than 256, can be given back: the map is as before.
pub free_frame-alloc_frame :
    (m : PhysMem) (f : ℕ) (m' : PhysMem)
    → alloc_frame m ≡ (pos f, m')
    → f ≢ 256
    → (j : ℕ) → free_frame f m' j ≡ m j
free_frame-alloc_frame m f m' e ne j =
    let (c, free, is) = alloc_frame-eq-pos m f m' e in ground (arith, free_frame_lem f m' j, is j)
