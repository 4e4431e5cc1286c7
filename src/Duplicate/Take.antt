-- ===== src/Duplicate/Take.antt =====
-- The frames that `sys_fork` takes for the data pages of the child, and their return if too few are
-- left.
use ze_ospi.Base.{
  ℕ, zero, suc, ◌+◌, ◌≤◌, ◌<◌, ◌≡◌, refl, sym, ap, ◌∙◌, ◌≢◌, ◌⊎◌, inl, inr, arith, true, false,
  ◌==◌, if◌then◌else◌, Bool-cases, ==→eq, ==→ne, eq→==, pos,
}
use ze_ospi.Frames.{PhysMem, free_mark, free_frame, alloc_frame}
use ze_ospi.Frames.Alloc.{alloc_frame-eq-pos, free_frame_lem}
use ze_ospi.Frames.Count.{free_frames, free_frames-alloc_frame}
use ze_ospi.Paging.{SlEntry, PageTable, put, data_page}
use ze_ospi.Space.{set_at, map_pages}
use ze_ospi.Space.Fresh.{map_pages-Mapped, user_pages-base}
use ze_ospi.Duplicate.{Taken, take_frames, rollback}

-- With enough free frames the loop takes the frames that `map_pages` would map.
pub record Given (n pag : ℕ) (before : ℕ → ℕ) (pt' : PageTable) (m' : PhysMem) (t : Taken)
    : Type 0 where
  pub enough : t.enough ≡ true
  pub phys_mem : t.phys_mem ≡ m'
  pub frames : (k : ℕ) → pag ≤ k → k < pag + n → t.frames k ≡ (pt' k).pbase_addr
  pub earlier : (k : ℕ) → k < pag → t.frames k ≡ before k

pub take_frames-Given :
    (n pag : ℕ) (frames : ℕ → ℕ) (pt : PageTable) (m : PhysMem)
    → n ≤ free_frames m
    → let (pt', m') = map_pages data_page n pag pt m in
      Given n pag frames pt' m' (take_frames n pag frames m)
unfolding take_frames map_pages
take_frames-Given zero pag frames pt m h = record {
  enough = refl;
  phys_mem = refl;
  frames = λ k a b. absurd (omega arith);
  earlier = λ k a. refl;
}
take_frames-Given (suc n) pag frames pt m h = elim (free_frames-alloc_frame m) [
  | inl (f, m1, is, less) ↦
      let pt1 = put pt pag (data_page (pos f)) in
      let g = take_frames-Given n (pag + 1) (set_at frames pag f) pt1 m1 (omega arith) in
      let mapped =
        map_pages-Mapped data_page n (pag + 1) pt1 m1 (λ f h. (user_pages-base f h).1)
          (omega arith) in
      let below = mapped.below pag (omega arith) in
      let base = (user_pages-base f (omega (arith, alloc_frame-eq-pos m f m1 is))).1 in
      let got : (take_frames n (pag + 1) (set_at frames pag f) m1).frames pag ≡ f =
        g.earlier pag (omega arith) ∙ rw (eq→== pag pag refl) refl in
      let at : ((map_pages data_page n (pag + 1) pt1 m1).0 pag).pbase_addr ≡ f =
        ap (λ (e : SlEntry). e.pbase_addr) below
        ∙ ap (λ t. (if t then data_page (pos f) else pt pag).pbase_addr) (eq→== pag pag refl)
        ∙ base in
      rw (is, take_frames, map_pages)
        (record {
          enough = g.enough;
          phys_mem = g.phys_mem;
          frames = λ k a b. elim (Bool-cases (pag == k)) [
            | inl here ↦ rw (← ==→eq pag k here) (got ∙ sym at)
            | inr other ↦
                let ne : pag ≢ k = ==→ne pag k other in g.frames k (omega arith) (omega arith)
          ];
          earlier = λ k a. ground (arith, g.earlier k);
        })
  | inr (is, none_left) ↦ absurd (omega arith)
]

-- What is still to be given back at `j`: either the map is as at first, or the frame has been taken.
abbrev Owes : (pag : ℕ) → (ℕ → ℕ) → (m0 m : PhysMem) → ℕ → Type 0
Owes pag frames m0 m j =
    (m j ≡ m0 j)
    ⊎ ((k : ℕ) × (k < pag) × (frames k ≡ j) × (256 ≤ j) × (j < 1024) × (m0 j ≡ free_mark))

rollback-Owes :
    (pag : ℕ) (frames : ℕ → ℕ) (m0 m : PhysMem)
    → ((j : ℕ) → j ≢ 256 → Owes pag frames m0 m j)
    → ((k : ℕ) → k < pag → m0 (frames k) ≡ free_mark)
    → (j : ℕ) → j ≢ 256
    → rollback pag frames m j ≡ m0 j
unfolding rollback
rollback-Owes zero frames m0 m owes free j ne = elim (owes j ne) [
  | inl same ↦ same
  | inr (k, h, _, _, _, _) ↦ absurd (omega arith)
]
rollback-Owes (suc pag) frames m0 m owes free j ne =
    rollback-Owes pag frames m0 (free_frame (frames pag) m)
      (λ i ne_i. elim (owes i ne_i) [
        | inl same ↦ inl (ground (arith, free_frame_lem (frames pag) m i, free pag (omega arith)))
        | inr (k, h, is, lo, hi, was) ↦ elim (Bool-cases (k == pag)) [
          | inl last ↦
              let e : k ≡ pag = ==→eq k pag last in
              inl (ground (arith, free_frame_lem (frames pag) m i))
          | inr before ↦
              let apart : k ≢ pag = ==→ne k pag before in
              elim (Bool-cases (frames pag == i)) [
                | inl twice ↦ inl (ground (arith, free_frame_lem (frames pag) m i))
                | inr once ↦ inr (k, omega arith, is, lo, hi, was)
              ]
        ]
      ])
      (λ k h. free k (omega arith)) j ne

-- One frame more is owed.
Owes-suc :
    (pag f : ℕ) (frames : ℕ → ℕ) (m0 m m' : PhysMem)
    → ((j : ℕ) → Owes pag frames m0 m j)
    → alloc_frame m ≡ (pos f, m')
    → (m0 f ≡ free_mark) × ((j : ℕ) → Owes (pag + 1) (set_at frames pag f) m0 m' j)
Owes-suc pag f frames m0 m m' owes is =
    let (c, free, marked) = alloc_frame-eq-pos m f m' is in
    let was : m0 f ≡ free_mark = elim (owes f) [
      | inl same ↦ sym same ∙ free
      | inr (_, _, _, _, _, was) ↦ was
    ] in
    (
      was,
      λ j. elim (Bool-cases (f == j)) [
        | inl here ↦
            let e : f ≡ j = ==→eq f j here in
            inr (pag, omega arith, ground arith, omega arith, omega arith, ap m0 (sym e) ∙ was)
        | inr other ↦ elim (owes j) [
          | inl same ↦ inl (ground (arith, marked j))
          | inr (k, h, at, lo, hi, w) ↦ inr (k, omega arith, ground arith, lo, hi, w)
        ]
      ],
    )

-- With too few free frames the loop gives every frame back that it took, other than frame 256.
pub take_frames-short :
    (n pag : ℕ) (frames : ℕ → ℕ) (m0 m : PhysMem)
    → free_frames m < n
    → ((j : ℕ) → Owes pag frames m0 m j)
    → ((k : ℕ) → k < pag → m0 (frames k) ≡ free_mark)
    → let t = take_frames n pag frames m in
      (t.enough ≡ false) × ((j : ℕ) → j ≢ 256 → t.phys_mem j ≡ m0 j)
unfolding take_frames
take_frames-short zero pag frames m0 m few owes free = absurd (omega arith)
take_frames-short (suc n) pag frames m0 m few owes free = elim (free_frames-alloc_frame m) [
  | inl (f, m1, is, less) ↦
      let owed = Owes-suc pag f frames m0 m m1 owes is in
      rw (is, take_frames)
        (take_frames-short n (pag + 1) (set_at frames pag f) m0 m1 (omega arith) owed.1
          (λ k h. ground (arith, free k, owed.0)))
  | inr (is, none_left) ↦
      rw (is, take_frames) (refl, rollback-Owes pag frames m0 m (λ j ne. owes j) free)
]
