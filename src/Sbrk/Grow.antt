-- ===== src/Sbrk/Grow.antt =====
-- What `sys_sbrk` of sys.c maps.
use ze_ospi.Base.{
  ℕ, zero, suc, ◌+◌, ◌/◌, ◌^◌, ◌<◌, ◌≤◌, ◌≡◌, refl, sym, ap, ◌∙◌, ◌≢◌, inl, inr, arith, true, false,
  ◌==◌, Bool-cases, ==→eq, ==→ne,
}
use mathlib.Core.Bool.{false≢true}
use ze_ospi.Frames.{PhysMem}
use ze_ospi.Frames.Alloc.{IsCandidate, alloc_frame-eq-pos}
use ze_ospi.Frames.Count.{free_frames, free_frames-alloc_frame}
use ze_ospi.Paging.{PageTable, check_used_page, set_ss_pag}
use ze_ospi.Paging.Entry.{check_used_page-set_ss_pag}
use ze_ospi.Sbrk.{Heap, to_map, grow}

abbrev pub Used : ℕ → PageTable → ℕ → Type 0
Used empty pt j = check_used_page empty (pt j) ≡ true

-- What the loop does: pages in use stay, and all pages to be mapped are in use when it has ended.
pub record Grown (empty target i : ℕ) (pt : PageTable) (m : PhysMem) (h : Heap) : Type 0 where
  pub succeeds : target / 2 ^ 12 < i + 256 + free_frames m → h.done ≡ true
  pub stays : (j : ℕ) → Used empty pt j → h.pt j ≡ pt j
  pub mapped : h.done ≡ true → (j : ℕ) → i ≤ j → to_map target j ≡ true → Used empty h.pt j

set_ss_pag-other : (pt : PageTable) (i f j : ℕ) → i ≢ j → set_ss_pag pt i f j ≡ pt j
unfolding set_ss_pag
set_ss_pag-other pt i f j ne = ground arith

module _ (empty target : ℕ) (kernel : empty < 2 ^ 20) where
  map_first :
      {i f : ℕ} {pt : PageTable} {m m' : PhysMem} {h : Heap}
      → check_used_page empty (pt i) ≡ false
      → IsCandidate f
      → Grown empty target (i + 1) (set_ss_pag pt i f) m' h
      → free_frames m ≡ suc (free_frames m')
      → Grown empty target i pt m h
  map_first {i} {f} {pt} {m} {m'} {h} unused c g less =
      let now : check_used_page empty (set_ss_pag pt i f i) ≡ true =
        ground (arith, (check_used_page-set_ss_pag empty pt i f (omega arith)).0) in
      record {
        succeeds = λ enough. g.succeeds (omega arith);
        stays = λ j used. elim (Bool-cases (i == j)) [
          | inl here ↦ absurd (
              false≢true
                (sym unused ∙ ap (λ k. check_used_page empty (pt k)) (==→eq i j here) ∙ used))
          | inr away ↦
              let same = set_ss_pag-other pt i f j (==→ne i j away) in
              g.stays j (rw same used) ∙ same
        ];
        mapped = λ done j le more. elim (Bool-cases (i == j)) [
          | inl here ↦ rw (← ==→eq i j here) (rw (g.stays i now) now)
          | inr away ↦ let ne = ==→ne i j away in g.mapped done j (omega arith) more
        ];
      }

  pub grow-Grown :
      (n i : ℕ) (pt : PageTable) (m : PhysMem)
      → target / 2 ^ 12 < i + 256 + n
      → Grown empty target i pt m (grow empty n target i pt m)
  unfolding grow
  grow-Grown zero i pt m enough = record {
    succeeds = λ _. refl;
    stays = λ j u. refl;
    mapped = λ d j le more. absurd (ground arith);
  }
  grow-Grown (suc n) i pt m enough = elim (Bool-cases (to_map target i)) [
    | inr over ↦
        rw (over, grow)
          (record {
            succeeds = λ _. refl;
            stays = λ j u. refl;
            mapped = λ d j le more. ground arith;
          })
    | inl more ↦ elim (Bool-cases (check_used_page empty (pt i))) [
      | inl used ↦
          let g = grow-Grown n (i + 1) pt m (omega arith) in
          rw (more, used, grow)
            (record {
              succeeds = λ e. g.succeeds (omega arith);
              stays = g.stays;
              mapped = λ d j le m. elim (Bool-cases (i == j)) [
                | inl here ↦ rw (← ==→eq i j here) (rw (g.stays i used) used)
                | inr away ↦ let ne = ==→ne i j away in g.mapped d j (omega arith) m
              ];
            })
      | inr unused ↦ elim (free_frames-alloc_frame m) [
        | inl (f, m', is, less) ↦
            rw (more, unused, is, grow)
              (map_first unused (alloc_frame-eq-pos m f m' is).0
                (grow-Grown n (i + 1) (set_ss_pag pt i f) m' (omega arith)) less)
        | inr (is, none_left) ↦
            rw (more, unused, is, grow)
              (record {
                succeeds = λ e. absurd (ground arith);
                stays = λ j u. refl;
                mapped = λ d. absurd (false≢true d);
              })
      ]
    ]
  ]
