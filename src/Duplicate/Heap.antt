-- ===== src/Duplicate/Heap.antt =====
-- The copy of the heap in `sys_fork`: it ends, and the frames of user memory keep their contents.
use ze_ospi.Base.{
  ℕ, zero, suc, ◌+◌, ◌-◌, ◌*◌, ◌^◌, ◌≤◌, ◌<◌, ◌≡◌, refl, ◌∙◌, inl, inr, arith, true, false, ltb,
  ◌==◌, if◌then◌else◌, Bool, Bool-cases, ==→eq, eq→==, pos, negsuc,
}
use ze_ospi.Frames.{PhysMem, alloc_frame}
use ze_ospi.Frames.Count.{free_frames-alloc_frame}
use ze_ospi.Paging.Entry.{check_used_page-set_ss_pag}
use ze_ospi.Sbrk.{page}
use ze_ospi.Duplicate.{
  Copy, Ending, finished, no_page, no_frame, endless, find_page, heap_page, heap_copied, copy_heap,
  free_heap,
}
use ze_ospi.Duplicate.Search.{IsUnused, find_page-Found}

-- The loop has come to its end.
abbrev pub ended : Ending → Bool
ended finished = true
ended no_page = true
ended no_frame = true
ended endless = false

module _ (empty_ph_page cur new : ℕ) where
  -- One case for each way in which a round can go on.
  data Round (pb n pag fp : ℕ) (s : Copy) : Copy → Type 0 where
    stops : heap_page pb pag ≡ false → Round pb n pag fp s (record s { ending = finished })
    restarts :
        heap_page pb pag ≡ true
        → 28 < pag
        → find_page empty_ph_page 256 fp (s.tables cur) ≡ 256
        → Round pb n pag fp s (copy_heap empty_ph_page cur new pb n pag (page (pb + 2 ^ 12)) s)
    fails : pag ≤ 28 → Round pb n pag fp s (record s { ending = no_page })
    goes_on :
        (f : ℕ) (m : PhysMem)
        → heap_page pb pag ≡ true
        → alloc_frame s.phys_mem ≡ (pos f, m)
        → find_page empty_ph_page 256 fp (s.tables cur) < 256
        → Round pb n pag fp s (
            copy_heap empty_ph_page cur new pb n
              (pag + 1)
              (find_page empty_ph_page 256 fp (s.tables cur) + 1)
              (heap_copied empty_ph_page cur new pag
                (find_page empty_ph_page 256 fp (s.tables cur))
                f
                m
                s))
    lacks :
        (m : PhysMem)
        → alloc_frame s.phys_mem ≡ (negsuc 0, m)
        → Round pb n pag fp s
            (record s { ending = no_frame; phys_mem = free_heap (pag - 28) pag (s.tables new) m })

  copy_heap-Round :
      (pb n pag fp : ℕ) (s : Copy)
      → fp ≤ 256
      → Round pb n pag fp s (copy_heap empty_ph_page cur new pb (suc n) pag fp s)
  unfolding copy_heap
  copy_heap-Round pb n pag fp s hi = elim (Bool-cases (heap_page pb pag)) [
    | inr stop ↦ rw (stop, copy_heap) (stops stop)
    | inl go ↦
        let r = find_page empty_ph_page 256 fp (s.tables cur) in
        let found = find_page-Found empty_ph_page 256 fp (s.tables cur) hi (omega arith) in
        elim (Bool-cases (r == 256)) [
          | inl full ↦ elim (Bool-cases (ltb 28 pag)) [
            | inl later ↦
                rw (go, full, later, copy_heap) (restarts go (ground arith) (==→eq r 256 full))
            | inr first ↦ rw (go, full, first, copy_heap) (fails (ground arith))
          ]
          | inr there ↦
              let less : r < 256 = ground (arith, found.hi) in
              elim (free_frames-alloc_frame s.phys_mem) [
                | inl (f, m, is, _) ↦ rw (go, there, is, copy_heap) (goes_on f m go is less)
                | inr (is, _) ↦ rw (go, there, is, copy_heap) (lacks s.phys_mem is)
              ]
        ]
  ]

  -- A round's copy lands in a frame of the kernel or of a device.
  heap_copied-ram :
      (pag fp f g : ℕ) (m : PhysMem) (s : Copy)
      → fp < 256
      → 256 ≤ g
      → g < 1024
      → (heap_copied empty_ph_page cur new pag fp f m s).ram g ≡ s.ram g
  heap_copied-ram pag fp f g m s less h top = ground arith

  ram-Round :
      (pb n pag fp g : ℕ) (s : Copy) {c : Copy}
      → 256 ≤ g
      → g < 1024
      → ((pag' fp' : ℕ) (s' : Copy)
          → fp' ≤ 256
          → (copy_heap empty_ph_page cur new pb n pag' fp' s').ram g ≡ s'.ram g)
      → Round pb n pag fp s c
      → c.ram g ≡ s.ram g
  ram-Round pb n pag fp g s h top ih (stops _) = refl
  ram-Round pb n pag fp g s h top ih (restarts _ _ _) = ih pag (page (pb + 2 ^ 12)) s (omega arith)
  ram-Round pb n pag fp g s h top ih (fails _) = refl
  ram-Round pb n pag fp g s h top ih (goes_on f m _ _ less) =
      let fp' = find_page empty_ph_page 256 fp (s.tables cur) in
      ih (pag + 1) (fp' + 1) (heap_copied empty_ph_page cur new pag fp' f m s) (omega arith)
      ∙ heap_copied-ram pag fp' f g m s less h top
  ram-Round pb n pag fp g s h top ih (lacks m _) = refl

  -- No frame of user memory changes in the loop: neither the child's, that the heap's pages should
  -- be copied to, nor any other.
  pub copy_heap-ram :
      (pb n pag fp g : ℕ) (s : Copy)
      → fp ≤ 256
      → 256 ≤ g
      → g < 1024
      → (copy_heap empty_ph_page cur new pb n pag fp s).ram g ≡ s.ram g
  unfolding copy_heap
  copy_heap-ram pb zero pag fp g s hi h top = refl
  copy_heap-ram pb (suc n) pag fp g s hi h top =
      ram-Round pb n pag fp g s h top
        (λ pag' fp' s' less. copy_heap-ram pb n pag' fp' g s' less h top)
        (copy_heap-Round pb n pag fp s hi)

  -- The rounds left are enough: two for each page left, and one if the search has to start again,
  -- which then finds the page `q`.
  abbrev start : ℕ → ℕ
  start pb = page (pb + 2 ^ 12)

  record Enough (pb n pag fp : ℕ) (s : Copy) : Type 0 where
    one : 1 ≤ n
    rounds :
        2 * (page pb + 1 - pag)
          + (if ltb (find_page empty_ph_page 256 fp (s.tables cur)) 256 then 0 else 1)
        ≤ n
    from : start pb ≤ fp
    upto : fp ≤ 256
    left : 28 < pag → (q : ℕ) × (start pb ≤ q) × (q < 256) × IsUnused empty_ph_page (s.tables cur) q

  heap_copied-IsUnused :
      (pag fp f : ℕ) (m : PhysMem) (s : Copy)
      → IsUnused empty_ph_page ((heap_copied empty_ph_page cur new pag fp f m s).tables cur) fp
  heap_copied-IsUnused pag fp f m s =
      rw (eq→== cur cur refl) (check_used_page-set_ss_pag empty_ph_page _ fp 0 (omega arith)).1

  ended-Round :
      (pb n pag fp : ℕ) (s : Copy) {c : Copy}
      → Enough pb (suc n) pag fp s
      → ((pag' fp' : ℕ) (s' : Copy)
          → Enough pb n pag' fp' s'
          → ended (copy_heap empty_ph_page cur new pb n pag' fp' s').ending ≡ true)
      → Round pb n pag fp s c
      → ended c.ending ≡ true
  ended-Round pb n pag fp s e ih (stops _) = refl
  ended-Round pb n pag fp s e ih (restarts go later full) =
      let (q, lo, hi, unused) = e.left later in
      let found =
        find_page-Found empty_ph_page 256 (start pb) (s.tables cur) (omega arith) (omega arith) in
      let first = found.first q lo unused in
      ih pag (start pb) s (record {
        one = ground (arith, e.rounds, full);
        rounds = ground (arith, e.rounds, full, first);
        from = omega arith;
        upto = omega arith;
        left = e.left;
      })
  ended-Round pb n pag fp s e ih (fails _) = refl
  ended-Round pb n pag fp s e ih (goes_on f m go is less) =
      let fp' = find_page empty_ph_page 256 fp (s.tables cur) in
      let found = find_page-Found empty_ph_page 256 fp (s.tables cur) e.upto (omega arith) in
      ih (pag + 1) (fp' + 1) (heap_copied empty_ph_page cur new pag fp' f m s) (record {
        one = ground (arith, e.rounds);
        rounds = ground (arith, e.rounds);
        from = omega (arith, found.lo, e.from);
        upto = omega arith;
        left =
            λ h. (fp', omega (arith, found.lo, e.from), less, heap_copied-IsUnused pag fp' f m s);
      })
  ended-Round pb n pag fp s e ih (lacks m _) = refl

  copy_heap-ended_from :
      (pb n pag fp : ℕ) (s : Copy)
      → Enough pb n pag fp s
      → ended (copy_heap empty_ph_page cur new pb n pag fp s).ending ≡ true
  unfolding copy_heap
  copy_heap-ended_from pb zero pag fp s e = absurd (omega (arith, e.one))
  copy_heap-ended_from pb (suc n) pag fp s e =
      ended-Round pb n pag fp s e (copy_heap-ended_from pb n) (copy_heap-Round pb n pag fp s e.upto)

  -- The loop comes to its end within 514 rounds, from the first page on.
  pub copy_heap-ended :
      (pb : ℕ) (s : Copy)
      → ended (copy_heap empty_ph_page cur new pb 514 28 (page (pb + 2 ^ 12)) s).ending ≡ true
  copy_heap-ended pb s = copy_heap-ended_from pb 514 28 (start pb) s (record {
    one = omega arith;
    rounds = ground arith;
    from = omega arith;
    upto = omega arith;
    left = λ h. absurd (omega arith);
  })

  -- Without a heap the loop ends at once.
  pub copy_heap-empty :
      (pb n pag fp : ℕ) (s : Copy)
      → heap_page pb pag ≡ false
      → copy_heap empty_ph_page cur new pb (suc n) pag fp s ≡ record s { ending = finished }
  unfolding copy_heap
  copy_heap-empty pb n pag fp s e = rw (e, copy_heap) refl
