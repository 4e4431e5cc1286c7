-- ===== src/Space/Fresh.antt =====
-- The user pages that mm.c gives a task.
use ze_ospi.Base.{
  ℕ, zero, suc, ◌+◌, ◌<◌, ◌≤◌, ◌≡◌, refl, sym, ap, ◌∙◌, ◌≢◌, inl, inr, arith, ◌==◌, if◌then◌else◌,
  Bool-cases, ==→eq, ==→ne, eq→==, ℤ, pos, ltb,
}
use ze_ospi.Kernel.{Task}
use ze_ospi.Frames.{PhysMem, mark, free_mark, used_mark}
use ze_ospi.Frames.Alloc.{alloc_frame-eq-pos}
use ze_ospi.Frames.Count.{free_frames, free_frames-alloc_frame}
use ze_ospi.Paging.{SlEntry, PageTable, put, code_page, data_page}
use ze_ospi.Space.{Mm, map_pages, set_user_pages}

-- What a table and the map of the frames are like after `n` pages from `lo` on have been mapped.
pub record Mapped (page : ℤ → SlEntry) (n lo : ℕ) (pt : PageTable) (m : PhysMem) (pt' : PageTable)
    (m' : PhysMem) : Type 0 where
  pub entries : (k : ℕ) → lo ≤ k → k < lo + n → pt' k ≡ page (pos (pt' k).pbase_addr)
  pub fresh : (k : ℕ) → lo ≤ k → k < lo + n → m (pt' k).pbase_addr ≡ free_mark
  pub taken : (k : ℕ) → lo ≤ k → k < lo + n → m' (pt' k).pbase_addr ≡ used_mark
  pub distinct : (j k : ℕ) → lo ≤ j → j < k → k < lo + n → (pt' j).pbase_addr ≢ (pt' k).pbase_addr
  pub below : (k : ℕ) → k < lo → pt' k ≡ pt k
  pub beyond : (k : ℕ) → lo + n ≤ k → pt' k ≡ pt k
  pub keeps : (f : ℕ) → m f ≢ free_mark → m' f ≡ m f
  pub count : free_frames m ≡ free_frames m' + n

-- One page more in front.
Mapped-suc :
    {page : ℤ → SlEntry} {n lo f : ℕ} {pt : PageTable} {m m1 m' : PhysMem} {pt' : PageTable}
    → (page (pos f)).pbase_addr ≡ f
    → m f ≡ free_mark
    → ((j : ℕ) → m1 j ≡ mark m f used_mark j)
    → free_frames m ≡ suc (free_frames m1)
    → Mapped page n (lo + 1) (put pt lo (page (pos f))) m1 pt' m'
    → Mapped page (suc n) lo pt m pt' m'
Mapped-suc {page} {n} {lo} {f} {pt} {m} {m1} {m'} {pt'} b free is less r =
    let here : pt' lo ≡ page (pos f) = ground (arith, r.below lo) in
    let at : (pt' lo).pbase_addr ≡ f = ap (λ (e : SlEntry). e.pbase_addr) here ∙ b in
    let used : m1 f ≡ used_mark = ground (arith, is f) in
    let behind : (g : ℕ) → m1 g ≡ free_mark → (g ≢ f) × (m g ≡ free_mark) =
      λ g e. ground (arith, is g) in
    record {
      entries = λ k lo_k hi. elim (Bool-cases (k == lo)) [
        | inl e ↦ rw (==→eq k lo e) (here ∙ ap (λ g. page (pos g)) (sym at))
        | inr ne ↦ let a = ==→ne k lo ne in r.entries k (omega arith) (omega arith)
      ];
      fresh = λ k lo_k hi. elim (Bool-cases (k == lo)) [
        | inl e ↦ rw (==→eq k lo e, at) free
        | inr ne ↦
            let a = ==→ne k lo ne in
            (behind (pt' k).pbase_addr (r.fresh k (omega arith) (omega arith))).1
      ];
      taken = λ k lo_k hi. elim (Bool-cases (k == lo)) [
        | inl e ↦ rw (==→eq k lo e, at) (r.keeps f (omega (arith, used)) ∙ used)
        | inr ne ↦ let a = ==→ne k lo ne in r.taken k (omega arith) (omega arith)
      ];
      distinct = λ j k lo_j less hi. elim (Bool-cases (j == lo)) [
        | inl e ↦
            rw (==→eq j lo e, at)
              (λ same.
                (behind (pt' k).pbase_addr (r.fresh k (omega arith) (omega arith))).0 (sym same))
        | inr ne ↦ let a = ==→ne j lo ne in r.distinct j k (omega arith) less (omega arith)
      ];
      below = λ k h. ground (arith, r.below k);
      beyond = λ k h. ground (arith, r.beyond k);
      keeps = λ g ne. ground (arith, r.keeps g, is g);
      count = omega (arith, r.count);
    }

-- With enough free frames, every page gets a frame of its own.
pub map_pages-Mapped :
    (page : ℤ → SlEntry) (n lo : ℕ) (pt : PageTable) (m : PhysMem)
    → ((f : ℕ) → f < 1024 → (page (pos f)).pbase_addr ≡ f)
    → n ≤ free_frames m
    → let (pt', m') = map_pages page n lo pt m in Mapped page n lo pt m pt' m'
unfolding map_pages
map_pages-Mapped page zero lo pt m b enough = record {
  entries = λ k a h. absurd (omega arith);
  fresh = λ k a h. absurd (omega arith);
  taken = λ k a h. absurd (omega arith);
  distinct = λ j k a l h. absurd (omega arith);
  below = λ k h. refl;
  beyond = λ k h. refl;
  keeps = λ f ne. refl;
  count = omega arith;
}
map_pages-Mapped page (suc n) lo pt m b enough = elim (free_frames-alloc_frame m) [
  | inl (f, m1, is, less) ↦
      let (c, free, marked) = alloc_frame-eq-pos m f m1 is in
      rw (is, map_pages)
        (Mapped-suc (b f c.1) free marked less
          (map_pages-Mapped page n (lo + 1) (put pt lo (page (pos f))) m1 b (omega arith)))
  | inr (is, none_left) ↦ absurd (omega arith)
]

-- Two mappings, one behind the other.
module _ {page page' : ℤ → SlEntry} {n n' lo : ℕ} {pt pt1 pt2 : PageTable} {m m1 m2 : PhysMem}
    (a : Mapped page n lo pt m pt1 m1) (b : Mapped page' n' (lo + n) pt1 m1 pt2 m2) where
  still_free : (g : ℕ) → m1 g ≡ free_mark → m g ≡ free_mark
  still_free g e = elim (Bool-cases (m g == free_mark)) [
    | inl is ↦ ==→eq (m g) free_mark is
    | inr isnt ↦
        let ne : m g ≢ free_mark = ==→ne (m g) free_mark isnt in
        absurd (ne (sym (a.keeps g ne) ∙ e))
  ]

  pub both_fresh :
      (k : ℕ)
      → lo ≤ k
      → k < lo + n + n'
      → (m (pt2 k).pbase_addr ≡ free_mark) × (m2 (pt2 k).pbase_addr ≡ used_mark)
  both_fresh k lo_k hi = elim (Bool-cases (ltb k (lo + n))) [
    | inl first ↦
        let h : k < lo + n = ground arith in
        let used = a.taken k lo_k h in
        rw (b.below k h) (a.fresh k lo_k h, b.keeps (pt1 k).pbase_addr (omega (arith, used)) ∙ used)
    | inr second ↦
        let h : lo + n ≤ k = ground arith in
        (still_free (pt2 k).pbase_addr (b.fresh k h hi), b.taken k h hi)
  ]

  pub both_distinct :
      (j k : ℕ) → lo ≤ j → j < k → k < lo + n + n' → (pt2 j).pbase_addr ≢ (pt2 k).pbase_addr
  both_distinct j k lo_j less hi = elim (Bool-cases (ltb j (lo + n))) [
    | inr second ↦ b.distinct j k (ground arith) less hi
    | inl first ↦
        let h : j < lo + n = ground arith in
        rw (b.below j h) (elim (Bool-cases (ltb k (lo + n))) [
          | inl k_first ↦
              let hk : k < lo + n = ground arith in rw (b.below k hk) (a.distinct j k lo_j less hk)
          | inr k_second ↦
              let hk : lo + n ≤ k = ground arith in
              λ same.
                let used = a.taken j lo_j h in
                let free = b.fresh k hk hi in omega (arith, used, free, ap m1 same)
        ])
  ]

pub user_pages-base :
    (f : ℕ) → f < 1024 → ((code_page (pos f)).pbase_addr ≡ f) × ((data_page (pos f)).pbase_addr ≡ f)
unfolding code_page data_page
user_pages-base f h = omega arith

-- If at least 28 frames are free, `set_user_pages` gives the task's 8 code pages and 20 data pages a
-- frame each: 28 different ones, which were free and are now in use, the code pages executable and
-- the data pages not. The other pages of the table and the other tables stay as they were.
pub set_user_pages_lem :
    (task : Task) (mm : Mm)
    → 28 ≤ free_frames mm.phys_mem
    → let slot = task.dir_pages_base_addr in
      let mm' = set_user_pages task mm in
      let pt = mm'.user_pt slot in
      ((k : ℕ)
        → k < 28
        → (pt k ≡ (
            if ltb k 8
            then code_page (pos (pt k).pbase_addr)
            else data_page (pos (pt k).pbase_addr)))
          × (mm.phys_mem (pt k).pbase_addr ≡ free_mark)
          × (mm'.phys_mem (pt k).pbase_addr ≡ used_mark))
      × ((j k : ℕ) → j < k → k < 28 → (pt j).pbase_addr ≢ (pt k).pbase_addr)
      × ((k : ℕ) → 28 ≤ k → pt k ≡ mm.user_pt slot k)
      × ((s : ℕ) → s ≢ slot → mm'.user_pt s ≡ mm.user_pt s)
      × (free_frames mm.phys_mem ≡ free_frames mm'.phys_mem + 28)
unfolding set_user_pages
set_user_pages_lem task mm enough =
    let slot = task.dir_pages_base_addr in
    let first = map_pages code_page 8 0 (mm.user_pt slot) mm.phys_mem in
    let a =
      map_pages-Mapped code_page 8 0 (mm.user_pt slot) mm.phys_mem (λ f h. (user_pages-base f h).0)
        (omega arith) in
    let b =
      map_pages-Mapped data_page 20 8 first.0 first.1 (λ f h. (user_pages-base f h).1)
        (omega (arith, a.count)) in
    let fresh = both_fresh a b in
    rw (eq→== slot slot refl) (
      (λ k h. (
        elim (Bool-cases (ltb k 8)) [
          | inl code ↦
              let c : k < 8 = ground arith in rw (code, b.below k c) (a.entries k (omega arith) c)
          | inr data_ ↦ let c : 8 ≤ k = ground arith in rw data_ (b.entries k c (omega arith))
        ],
        (fresh k (omega arith) h).0,
        (fresh k (omega arith) h).1,
      )),
      (λ j k l h. both_distinct a b j k (omega arith) l h),
      (λ k h. b.beyond k h ∙ a.beyond k (omega arith)),
      (λ s ne. ground arith),
      omega (arith, a.count, b.count),
    )
