-- ===== src/Frames/Count.antt =====
-- How many frames mm.c can give out.
use ze_ospi.Base.{
  ℕ, zero, suc, ◌+◌, ◌*◌, ◌%◌, ◌≤◌, ◌<◌, ◌≡◌, refl, ◌≢◌, ◌⊎◌, inl, inr, arith, ◌==◌, if◌then◌else◌,
  Bool-cases, ==→eq, ==→ne, ℤ, pos, negsuc, Option, none, some,
}
use ze_ospi.Frames.{PhysMem, mark, num_pag_kernel, free_mark, used_mark, init_frames, alloc_frame}
use ze_ospi.Frames.Alloc.{init_frames_lem, alloc_frame_lem}

-- The free ones among the `n` frames `i`, `i + 2`, ….
unfoldable pub free_from : ℕ → ℕ → PhysMem → ℕ
free_from zero i m = 0
free_from (suc n) i m = (if m i == free_mark then 1 else 0) + free_from n (i + 2) m

-- The free candidates.
unfoldable pub free_frames : PhysMem → ℕ
free_frames = free_from 384 num_pag_kernel

free_from-mark_below :
    (n i f v : ℕ) (m : PhysMem) → f < i → free_from n i (mark m f v) ≡ free_from n i m
unfolding free_from
free_from-mark_below zero i f v m h = refl
free_from-mark_below (suc n) i f v m h =
    ground (arith, free_from-mark_below n (i + 2) f v m (omega arith))

-- Marking a free frame of the range as used takes one from the count.
free_from-mark :
    (n i f : ℕ) (m : PhysMem)
    → m f ≡ free_mark
    → i ≤ f
    → f < i + 2 * n
    → f % 2 ≡ i % 2
    → free_from n i m ≡ suc (free_from n i (mark m f used_mark))
unfolding free_from
free_from-mark zero i f m free lo hi par = absurd (omega arith)
free_from-mark (suc n) i f m free lo hi par = elim (Bool-cases (f == i)) [
  | inl same ↦
      let e : f ≡ i = ==→eq f i same in
      ground (arith, free_from-mark_below n (i + 2) f used_mark m (omega arith))
  | inr other ↦
      let ne : f ≢ i = ==→ne f i other in
      rw other (
        ground (arith, free_from-mark n (i + 2) f m free (omega arith) (omega arith) (omega arith)))
]

free_from-zero :
    (n i : ℕ) (m : PhysMem)
    → ((j : ℕ) → i ≤ j → j < i + 2 * n → j % 2 ≡ i % 2 → m j ≢ free_mark)
    → free_from n i m ≡ 0
unfolding free_from
free_from-zero zero i m h = refl
free_from-zero (suc n) i m h =
    let here = h i (omega arith) (omega arith) refl in
    ground (
      arith,
      here,
      free_from-zero n (i + 2) m (λ j lo hi par. h j (omega arith) (omega arith) (omega arith)),
    )

-- Each successful `alloc_frame` uses up one of the free candidates, and it fails exactly when none
-- is left.
pub free_frames-alloc_frame :
    (m : PhysMem)
    → ((f : ℕ) × (m' : PhysMem) × (alloc_frame m ≡ (pos f, m'))
        × (free_frames m ≡ suc (free_frames m')))
      ⊎ ((alloc_frame m ≡ (negsuc 0, m)) × (free_frames m ≡ 0))
unfolding free_frames
free_frames-alloc_frame m = elim (alloc_frame_lem m) [
  | inl (f, c, free, _, is) ↦ inl (
    f,
    mark m f used_mark,
    is,
    free_from-mark 384 num_pag_kernel f m free (omega arith) (omega arith) (omega arith),
  )
  | inr (none_free, is) ↦
      inr (is, free_from-zero 384 num_pag_kernel m (λ j lo hi par. none_free j (omega arith)))
]

abbrev after : ℤ × PhysMem → (PhysMem → Option PhysMem) → Option PhysMem
after (pos f, m) next = next m
after (negsuc e, m) next = none

-- The map after `k` calls of `alloc_frame`, or `none` if one of them returned -1.
pub alloc_many : ℕ → PhysMem → Option PhysMem
alloc_many zero m = some m
alloc_many (suc k) m = after (alloc_frame m) (alloc_many k)

-- `k` allocations in a row succeed exactly when `k` candidates are free, and use up `k` of them.
pub alloc_many_lem :
    (k : ℕ) (m : PhysMem)
    → ((m' : PhysMem) × (alloc_many k m ≡ some m') × (free_frames m ≡ free_frames m' + k))
      ⊎ ((alloc_many k m ≡ none) × (free_frames m < k))
unfolding alloc_many
alloc_many_lem zero m = inl (m, refl, omega arith)
alloc_many_lem (suc k) m = elim (free_frames-alloc_frame m) [
  | inl (f, m', is, count) ↦ rw is (elim (alloc_many_lem k m') [
    | inl (m'', done, left) ↦ inl (m'', done, omega arith)
    | inr (stuck, few) ↦ inr (stuck, omega arith)
  ])
  | inr (is, none_left) ↦ inr (rw is, omega arith)
]

free_from_all :
    (n i : ℕ) (m : PhysMem)
    → ((j : ℕ) → i ≤ j → j < i + 2 * n → m j ≡ free_mark)
    → free_from n i m ≡ n
unfolding free_from
free_from_all zero i m h = refl
free_from_all (suc n) i m h =
    let here = h i (omega arith) (omega arith) in
    ground (arith, here, free_from_all n (i + 2) m (λ j lo hi. h j (omega arith) (omega arith)))

-- After `init_frames`, 384 frames can be given out: every other one of the 768 that are free.
pub free_frames-init_frames : (m : PhysMem) → free_frames (init_frames m) ≡ 384
unfolding free_frames
free_frames-init_frames m =
    free_from_all 384 num_pag_kernel (init_frames m)
      (λ j lo hi. ground (arith, init_frames_lem m j))
