-- ===== src/Duplicate/Search.antt =====
-- The search of `sys_fork` for a page of the running task that is not in use.
use ze_ospi.Base.{
  ℕ, zero, suc, ◌+◌, ◌≤◌, ◌<◌, ◌≡◌, ◌≢◌, inl, inr, arith, false, ◌&&◌, ltb, ◌==◌, Bool-cases, ==→eq,
  ==→ne,
}
use ze_ospi.Paging.{PageTable, check_used_page}
use ze_ospi.Duplicate.{find_page}

module _ (empty_ph_page : ℕ) where
  abbrev pub IsUnused : PageTable → ℕ → Type 0
  IsUnused pt q = check_used_page empty_ph_page (pt q) ≡ false

  -- What the search from `free_pag` on has found.
  pub record Found (free_pag : ℕ) (pt : PageTable) (r : ℕ) : Type 0 where
    pub lo : free_pag ≤ r
    pub hi : r ≤ 256
    pub unused : r < 256 → IsUnused pt r
    pub first : (q : ℕ) → free_pag ≤ q → IsUnused pt q → r ≤ q

  pub find_page-Found :
      (n free_pag : ℕ) (pt : PageTable)
      → free_pag ≤ 256
      → 256 ≤ free_pag + n
      → Found free_pag pt (find_page empty_ph_page n free_pag pt)
  unfolding find_page
  find_page-Found zero fp pt h enough = record {
    lo = omega arith;
    hi = omega arith;
    unused = λ less. absurd (omega arith);
    first = λ q lo u. lo;
  }
  find_page-Found (suc n) fp pt h enough =
      elim (Bool-cases (check_used_page empty_ph_page (pt fp) && ltb fp 256)) [
        | inr stop ↦
            rw (stop, find_page)
              (record {
                lo = omega arith;
                hi = h;
                unused = λ less. ground arith;
                first = λ q lo u. lo;
              })
        | inl go ↦
            let less : fp < 256 = ground arith in
            let r = find_page-Found n (fp + 1) pt (omega arith) (omega arith) in
            rw (go, find_page)
              (record {
                lo = omega (arith, r.lo);
                hi = r.hi;
                unused = r.unused;
                first = λ q lo u. elim (Bool-cases (fp == q)) [
                  | inl same ↦ let e : fp ≡ q = ==→eq fp q same in ground arith
                  | inr other ↦ let ne : fp ≢ q = ==→ne fp q other in r.first q (omega arith) u
                ];
              })
      ]
