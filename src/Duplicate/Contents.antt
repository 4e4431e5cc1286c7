-- ===== src/Duplicate/Contents.antt =====
-- The contents of the frames after the copy of the user data in `sys_fork`.
use ze_ospi.Base.{
  ℕ, zero, suc, ◌+◌, ◌*◌, ◌≤◌, ◌<◌, ◌≡◌, refl, sym, ap, ◌∙◌, ◌≢◌, inl, inr, arith, false, ltb, ◌==◌,
  if◌then◌else◌, Bool-cases, ==→eq, ==→ne, eq→==,
}
use ze_ospi.Paging.{SlEntry, PageTable, base, set_ss_pag}
use ze_ospi.Duplicate.{Copy, copied, copy_user_data}
use ze_ospi.Duplicate.Search.{IsUnused}
use ze_ospi.Duplicate.Data.{copied-Kept, copy_user_data-suc}

module _ (empty_ph_page cur new : ℕ) where
  copied-ram :
      (pag fp f : ℕ) (s : Copy)
      → pag < 20
      → 28 ≤ fp
      → (copied empty_ph_page cur new pag fp s).ram f ≡ (
          if base (s.tables new (8 + pag)).pbase_addr == f
          then s.ram (s.tables cur (8 + pag)).pbase_addr
          else s.ram f)
  unfolding set_ss_pag
  copied-ram pag fp f s h lo = ground arith

  -- `to k` is the frame of data page `k` of the child, and `from k` the parent's.
  module _ (to from : ℕ → ℕ) where
    pub record Frames (s : Copy) : Type 0 where
      pub is_to : (k : ℕ) → k < 20 → base (s.tables new (8 + k)).pbase_addr ≡ to k
      pub is_from : (k : ℕ) → k < 20 → (s.tables cur (8 + k)).pbase_addr ≡ from k

    pub record Contents (pag : ℕ) (before after : ℕ → ℕ → ℕ) : Type 0 where
      pub copies : (k : ℕ) → pag ≤ k → k < 20 → after (to k) ≡ before (from k)
      pub rest : (f : ℕ) → ((k : ℕ) → pag ≤ k → k < 20 → to k ≢ f) → after f ≡ before f

    copied-Contents :
        (pag fp : ℕ) (s : Copy) (after : ℕ → ℕ → ℕ)
        → pag < 20
        → 28 ≤ fp
        → Frames s
        → ((j k : ℕ) → j < k → k < 20 → to j ≢ to k)
        → ((j k : ℕ) → j < 20 → k < 20 → to j ≢ from k)
        → Contents (pag + 1) (copied empty_ph_page cur new pag fp s).ram after
        → Contents pag s.ram after
    copied-Contents pag fp s after h lo fr apart clear c =
        let moved = (copied empty_ph_page cur new pag fp s).ram in
        let at : (f : ℕ) → moved f ≡ (if to pag == f then s.ram (from pag) else s.ram f) = λ f.
          copied-ram pag fp f s h lo
          ∙ ap (λ (x : ℕ). if x == f then s.ram (s.tables cur (8 + pag)).pbase_addr else s.ram f)
              (fr.is_to pag h)
          ∙ ap (λ (x : ℕ). if to pag == f then s.ram x else s.ram f) (fr.is_from pag h) in
        let other : (f : ℕ) → to pag ≢ f → moved f ≡ s.ram f = λ f ne. ground (arith, at f) in
        record {
          copies = λ k a b. elim (Bool-cases (pag == k)) [
            | inl is ↦ rw (← ==→eq pag k is) (
                c.rest (to pag) (λ j a b e. apart pag j (omega arith) b (sym e))
                ∙ at (to pag)
                ∙ rw (eq→== (to pag) (to pag) refl) refl)
            | inr isnt ↦
                let ne : pag ≢ k = ==→ne pag k isnt in
                c.copies k (omega arith) b ∙ other (from k) (clear pag k h b)
          ];
          rest =
              λ f ne. c.rest f (λ k a b. ne k (omega arith) b) ∙ other f (ne pag (omega arith) h);
        }

    -- The frames are the same ones in the next round.
    Frames-copied :
        (pag fp : ℕ) (s : Copy)
        → cur ≢ new
        → 28 ≤ fp
        → IsUnused empty_ph_page (s.tables cur) fp
        → Frames s
        → Frames (copied empty_ph_page cur new pag fp s)
    Frames-copied pag fp s ne lo u fr =
        let kept = copied-Kept empty_ph_page cur new pag fp s lo u in
        let same = kept.others new (λ e. ne (sym e)) in
        record {
          is_to = λ k h. ap (λ (pt : PageTable). base (pt (8 + k)).pbase_addr) same ∙ fr.is_to k h;
          is_from = λ k h.
              ap (λ (e : SlEntry). e.pbase_addr) (kept.low (8 + k) (omega arith)) ∙ fr.is_from k h;
        }

    -- If the frames of the child's data pages are all different, and none of them is one of the
    -- parent's, then the loop copies the parent's data pages to the child's, and no other frame.
    pub copy_user_data-Contents :
        (r n pag fp q : ℕ) (s : Copy)
        → pag + r ≡ 20
        → 2 * r + 1 ≤ n
        → 28 ≤ fp
        → fp ≤ 256
        → 28 ≤ q
        → q < 256
        → IsUnused empty_ph_page (s.tables cur) q
        → (pag ≡ 0 → fp ≡ 28)
        → cur ≢ new
        → Frames s
        → ((j k : ℕ) → j < k → k < 20 → to j ≢ to k)
        → ((j k : ℕ) → j < 20 → k < 20 → to j ≢ from k)
        → Contents pag s.ram (copy_user_data empty_ph_page cur new n pag fp s).ram
    unfolding copy_user_data
    copy_user_data-Contents r zero pag fp q s e enough lo hi lo_q hi_q u start ne fr apart clear =
        absurd (omega arith)
    copy_user_data-Contents zero (suc n) pag fp q s e enough lo hi lo_q hi_q u start ne fr apart
          clear =
        let stop : ltb pag 20 ≡ false = ground arith in
        rw (stop, copy_user_data)
          (record { copies = λ k a b. absurd (omega arith); rest = λ f away. refl })
    copy_user_data-Contents (suc r) (suc zero) pag fp q s e enough lo hi lo_q hi_q u start ne fr
          apart clear =
        absurd (omega arith)
    copy_user_data-Contents (suc r) (suc (suc n)) pag fp q s e enough lo hi lo_q hi_q u start ne fr
          apart clear =
        let (n', fp', lo', hi', u', more, is) =
          copy_user_data-suc empty_ph_page cur new n pag fp q s (omega arith) lo hi lo_q hi_q u
            start in
        let s' = copied empty_ph_page cur new pag fp' s in
        let k = copied-Kept empty_ph_page cur new pag fp' s lo' u' in
        let c =
          copy_user_data-Contents r n' (pag + 1) (fp' + 1) q s' (omega arith) (omega arith)
            (omega arith) (omega arith) lo_q hi_q (k.used q ∙ u) (λ z. absurd (omega arith)) ne
            (Frames-copied pag fp' s ne lo' u' fr) apart clear in
        rw is (copied-Contents pag fp' s _ (omega arith) lo' fr apart clear c)
