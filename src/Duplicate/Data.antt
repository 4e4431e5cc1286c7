-- ===== src/Duplicate/Data.antt =====
-- The copy of the user data in `sys_fork`: it ends, and what it changes.
use ze_ospi.Base.{
  ℕ, zero, suc, ◌+◌, ◌*◌, ◌≤◌, ◌<◌, ◌≡◌, refl, sym, ap, ◌∙◌, ◌≢◌, ◌⊎◌, inl, inr, arith, true, false,
  ltb, ◌==◌, Bool-cases, ==→eq, ==→ne, eq→==,
}
use ze_ospi.Paging.{PageTable, check_used_page, set_ss_pag, del_ss_pag}
use ze_ospi.Paging.Entry.{del_ss_pag_lem, check_used_page-set_ss_pag}
use ze_ospi.Duplicate.{Copy, finished, no_page, find_page, mapped, copied, copy_user_data}
use ze_ospi.Duplicate.Search.{IsUnused, find_page-Found}

module _ (empty_ph_page cur new : ℕ) where
  -- What the loop keeps: only pages of the running task that are not in use are written, and they are
  -- not in use at the end either.
  pub record Kept (s c : Copy) : Type 0 where
    pub others : (slot : ℕ) → slot ≢ cur → c.tables slot ≡ s.tables slot
    pub low : (k : ℕ) → k < 28 → c.tables cur k ≡ s.tables cur k
    pub used :
        (k : ℕ)
        → check_used_page empty_ph_page (c.tables cur k)
          ≡ check_used_page empty_ph_page (s.tables cur k)
    pub same :
        (k : ℕ)
        → check_used_page empty_ph_page (s.tables cur k) ≡ true
        → c.tables cur k ≡ s.tables cur k
    pub phys_mem : c.phys_mem ≡ s.phys_mem

  Kept-refl : (s : Copy) → Kept s (record s { ending = finished })
  Kept-refl s = record {
    others = λ slot ne. refl;
    low = λ k h. refl;
    used = λ k. refl;
    same = λ k u. refl;
    phys_mem = refl;
  }

  Kept-trans : {s c d : Copy} → Kept s c → Kept c d → Kept s d
  Kept-trans a b = record {
    others = λ slot ne. b.others slot ne ∙ a.others slot ne;
    low = λ k h. b.low k h ∙ a.low k h;
    used = λ k. b.used k ∙ a.used k;
    same = λ k u. b.same k (a.used k ∙ u) ∙ a.same k u;
    phys_mem = b.phys_mem ∙ a.phys_mem;
  }

  -- A page that was mapped for a moment.
  unmapped :
      (pt : PageTable) (frame fp k : ℕ)
      → fp ≢ k
      → del_ss_pag empty_ph_page (mapped empty_ph_page frame fp pt) fp k ≡ pt k
  unfolding set_ss_pag
  unmapped pt frame fp k ne =
      ground (arith, del_ss_pag_lem empty_ph_page (mapped empty_ph_page frame fp pt) fp k)

  copied-cur :
      (pag fp k : ℕ) (s : Copy)
      → fp ≢ k
      → (copied empty_ph_page cur new pag fp s).tables cur k ≡ s.tables cur k
  copied-cur pag fp k s ne =
      rw (eq→== cur cur refl) (unmapped (s.tables cur) (s.tables new (8 + pag)).pbase_addr fp k ne)

  copied-IsUnused :
      (pag fp : ℕ) (s : Copy)
      → IsUnused empty_ph_page ((copied empty_ph_page cur new pag fp s).tables cur) fp
  copied-IsUnused pag fp s =
      rw (eq→== cur cur refl)
        (check_used_page-set_ss_pag empty_ph_page
          (mapped empty_ph_page (s.tables new (8 + pag)).pbase_addr fp (s.tables cur)) fp 0
          (omega arith)).1

  pub copied-Kept :
      (pag fp : ℕ) (s : Copy)
      → 28 ≤ fp
      → IsUnused empty_ph_page (s.tables cur) fp
      → Kept s (copied empty_ph_page cur new pag fp s)
  copied-Kept pag fp s lo unused = record {
    others = λ slot ne. ground arith;
    low = λ k h. let ne : fp ≢ k = omega arith in copied-cur pag fp k s ne;
    used = λ k. elim (Bool-cases (fp == k)) [
      | inl here ↦ rw (← ==→eq fp k here) (copied-IsUnused pag fp s ∙ sym unused)
      | inr other ↦ ap (check_used_page empty_ph_page) (copied-cur pag fp k s (==→ne fp k other))
    ];
    same = λ k u. elim (Bool-cases (fp == k)) [
      | inl here ↦ let e : fp ≡ k = ==→eq fp k here in ground arith
      | inr other ↦ copied-cur pag fp k s (==→ne fp k other)
    ];
    phys_mem = refl;
  }

  -- A round that finds a page, and a round that starts the search again.
  hit :
      (n pag fp : ℕ) (s : Copy)
      → pag < 20
      → let fp' = find_page empty_ph_page 256 fp (s.tables cur) in
        fp' < 256
        → copy_user_data empty_ph_page cur new (suc n) pag fp s
          ≡ copy_user_data empty_ph_page cur new n
              (pag + 1)
              (fp' + 1)
              (copied empty_ph_page cur new pag fp' s)
  unfolding copy_user_data
  hit n pag fp s h less =
      let a : ltb pag 20 ≡ true = ground arith in
      let b : (find_page empty_ph_page 256 fp (s.tables cur) == 256) ≡ false = ground arith in
      rw (a, b, copy_user_data) refl

  miss :
      (n pag fp : ℕ) (s : Copy)
      → pag < 20
      → 0 < pag
      → find_page empty_ph_page 256 fp (s.tables cur) ≡ 256
      → copy_user_data empty_ph_page cur new (suc n) pag fp s
        ≡ copy_user_data empty_ph_page cur new n pag 28 s
  unfolding copy_user_data
  miss n pag fp s h some_done e =
      let a : ltb pag 20 ≡ true = ground arith in
      let b : ltb 0 pag ≡ true = ground arith in rw (a, e, b, copy_user_data) refl

  -- With an unused page that the loop may take, one or two rounds copy one more page.
  pub copy_user_data-suc :
      (n pag fp q : ℕ) (s : Copy)
      → pag < 20
      → 28 ≤ fp
      → fp ≤ 256
      → 28 ≤ q
      → q < 256
      → IsUnused empty_ph_page (s.tables cur) q
      → (pag ≡ 0 → fp ≡ 28)
      → (n' : ℕ) × (fp' : ℕ) × (28 ≤ fp')
        × (fp' < 256)
        × IsUnused empty_ph_page (s.tables cur) fp'
        × (n ≤ n')
        × (copy_user_data empty_ph_page cur new (suc (suc n)) pag fp s
            ≡ copy_user_data empty_ph_page cur new n'
                (pag + 1)
                (fp' + 1)
                (copied empty_ph_page cur new pag fp' s))
  copy_user_data-suc n pag fp q s h lo hi lo_q hi_q unused start =
      let r = find_page empty_ph_page 256 fp (s.tables cur) in
      let found = find_page-Found empty_ph_page 256 fp (s.tables cur) hi (omega arith) in
      let again = find_page-Found empty_ph_page 256 28 (s.tables cur) (omega arith) (omega arith) in
      let first = again.first q lo_q unused in
      elim (Bool-cases (ltb r 256)) [
        | inl less ↦
            let l : r < 256 = ground arith in
            (
              suc n,
              r,
              omega (arith, found.lo),
              l,
              found.unused l,
              omega arith,
              hit (suc n) pag fp s h l,
            )
        | inr none_left ↦
            let e : r ≡ 256 = ground (arith, found.hi) in
            let behind : fp ≢ 28 = λ same.
              ground (arith, first, ap (λ f. find_page empty_ph_page 256 f (s.tables cur)) same) in
            let some_done : 0 < pag = elim (Bool-cases (ltb 0 pag)) [
              | inl p ↦ ground arith
              | inr z ↦ let none_done : pag ≡ 0 = ground arith in absurd (behind (start none_done))
            ] in
            (
              n,
              find_page empty_ph_page 256 28 (s.tables cur),
              again.lo,
              omega arith,
              again.unused (omega arith),
              omega arith,
              miss (suc n) pag fp s h some_done e ∙ hit n pag 28 s h (omega arith),
            )
      ]

  -- The loop over the last `r` pages comes to its end if a page is unused and the rounds are enough.
  pub copy_user_data-Kept :
      (r n pag fp q : ℕ) (s : Copy)
      → pag + r ≡ 20
      → 2 * r + 1 ≤ n
      → 28 ≤ fp
      → fp ≤ 256
      → 28 ≤ q
      → q < 256
      → IsUnused empty_ph_page (s.tables cur) q
      → (pag ≡ 0 → fp ≡ 28)
      → let c = copy_user_data empty_ph_page cur new n pag fp s in (c.ending ≡ finished) × Kept s c
  unfolding copy_user_data
  copy_user_data-Kept r zero pag fp q s e enough lo hi lo_q hi_q u start = absurd (omega arith)
  copy_user_data-Kept r (suc zero) pag fp q s e enough lo hi lo_q hi_q u start =
      let stop : ltb pag 20 ≡ false = ground arith in rw (stop, copy_user_data) (refl, Kept-refl s)
  copy_user_data-Kept zero (suc (suc n)) pag fp q s e enough lo hi lo_q hi_q u start =
      let stop : ltb pag 20 ≡ false = ground arith in rw (stop, copy_user_data) (refl, Kept-refl s)
  copy_user_data-Kept (suc r) (suc (suc n)) pag fp q s e enough lo hi lo_q hi_q u start =
      let (n', fp', lo', hi', u', more, is) =
        copy_user_data-suc n pag fp q s (omega arith) lo hi lo_q hi_q u start in
      let k = copied-Kept pag fp' s lo' u' in
      let (f, k') =
        copy_user_data-Kept r n' (pag + 1) (fp' + 1) q (copied empty_ph_page cur new pag fp' s)
          (omega arith) (omega arith) (omega arith) (omega arith) lo_q hi_q (k.used q ∙ u)
          (λ z. absurd (omega arith)) in
      rw is (f, Kept-trans k k')

  -- Without an unused page for it, the loop ends at once.
  pub copy_user_data-no_page :
      (n : ℕ) (s : Copy)
      → ((q : ℕ) × (28 ≤ q) × (q < 256) × IsUnused empty_ph_page (s.tables cur) q)
        ⊎ (copy_user_data empty_ph_page cur new (suc n) 0 28 s ≡ record s { ending = no_page })
  unfolding copy_user_data
  copy_user_data-no_page n s =
      let r = find_page empty_ph_page 256 28 (s.tables cur) in
      let found = find_page-Found empty_ph_page 256 28 (s.tables cur) (omega arith) (omega arith) in
      elim (Bool-cases (ltb r 256)) [
        | inl less ↦ let l : r < 256 = ground arith in inl (r, found.lo, l, found.unused l)
        | inr full ↦ let e : r ≡ 256 = ground (arith, found.hi) in inr (rw (e, copy_user_data) refl)
      ]
