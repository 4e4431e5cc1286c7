-- ===== src/User/Dynamic.antt =====
-- `dinam_test` of user.c over `sys_sbrk` of the kernel.
use ze_ospi.Base.{
  chars, ℕ, zero, suc, ◌+◌, ◌*◌, ◌/◌, ◌%◌, ◌^◌, ◌<◌, ◌≤◌, ◌≡◌, refl, ◌∙◌, ap, ◌⊎◌, inl, inr, List,
  [], ◌∷◌, ◌++◌, arith, ltb, Bool-cases, eq→==, ltb→lt, ltb→le, ℤ, pos, negsuc, neg, length, some,
}
use ze_ospi.Errno.{enomem, enmphp}
use ze_ospi.Kernel.{Task}
use ze_ospi.Space.{Mm}
use ze_ospi.Sbrk.{page, grow, sys_sbrk}
use ze_ospi.User.{Action, write, sbrk, store, Response, returned, spinning, Run, run, run-then_do}
use ze_ospi.User.Perror.{message, announced, perror}
use ze_ospi.User.Programs.{grab, dinam_test, number_text}

-- The result of a call and the break after it: the break is 4096 more, or the call has failed and the
-- break is where it was.
abbrev Raised : (pb : ℕ) → ℤ → ℕ → Type 0
Raised pb r pb' =
    ((r ≡ pos pb) × (pb' ≡ pb + 4096) × (pb + 4096 < 2 ^ 21))
    ⊎ (((r ≡ neg enomem) × (pb' ≡ pb) × (2 ^ 21 ≤ pb + 4096)) ⊎ ((r ≡ neg enmphp) × (pb' ≡ pb)))

sys_sbrk-Raised :
    (empty : ℕ) (t : Task) (mm : Mm)
    → let pb = mm.program_breaks t.program_break in
      let p = sys_sbrk empty (pos 4096) t mm in
      pb < 2 ^ 21 → Raised pb p.0 (p.1.program_breaks t.program_break)
unfolding sys_sbrk
sys_sbrk-Raised empty t mm below =
    let pb = mm.program_breaks t.program_break in
    let target : (pb + 4096) % 2 ^ 32 ≡ pb + 4096 = omega arith in
    let h = grow empty 256 (pb + 4096) (page pb) (mm.user_pt t.dir_pages_base_addr) mm.phys_mem in
    elim (Bool-cases (ltb ((pb + 4096) / 2 ^ 12) 512)) [
      | inr full ↦
          rw (target, full)
            (inr (inl (refl, refl, omega (arith, ltb→le ((pb + 4096) / 2 ^ 12) 512 full))))
      | inl room ↦ elim (Bool-cases h.done) [
        | inl all ↦
            rw (target, room, all, eq→== t.program_break t.program_break refl)
              (inl (refl, refl, omega (arith, ltb→lt ((pb + 4096) / 2 ^ 12) 512 room)))
        | inr short ↦ rw (target, room, short) (inr (inr (refl, refl)))
      ]
    ]

abbrev pub calls_of : (n : ℕ) → List Action
calls_of zero = []
calls_of (suc n) = sbrk (pos 4096) ∷ calls_of n

-- What the program prints at its end, and the addresses that it then writes to.
abbrev pub last_actions : (c code : ℕ) → List Action
last_actions c code =
    (announced (some (chars "Memoria"))
      ++ write (message (pos code)) (length (message (pos code))) ∷ write (chars "\n") 1 ∷ [])
    ++ write (number_text (pos c)) (length (number_text (pos c)))
      ∷ store (negsuc 0) 0 1
      ∷ store (negsuc 0) 1 2
      ∷ store (negsuc 0) 2 3
      ∷ store (negsuc 0) 3 4
      ∷ store (negsuc 0) 4 5
      ∷ []

module _ (empty : ℕ) (t : Task) (other : Action → Response) where
  -- The kernel answers a call of sbrk, and `other` stands for the answers to the rest.
  abbrev pub serve : Action → Mm → Response × Mm
  serve (sbrk n) mm = let p = sys_sbrk empty n t mm in (record { ret = p.0; bytes = [] }, p.1)
  serve x mm = (other x, mm)

  -- What the loop leaves: the count, the code and the break, `k` calls having succeeded.
  pub record Grabbed (c pb : ℕ) (r : Run (ℕ × ℤ) Mm) : Type 0 where
    pub k : ℕ
    pub code : ℕ
    pub ended : r.ending ≡ returned (c + k + 1, pos code)
    pub log : r.log ≡ calls_of (suc k)
    pub raised_to : r.state.program_breaks t.program_break ≡ pb + k * 4096
    pub within : pb + k * 4096 < 2 ^ 21
    pub why : (code ≡ enomem) × (2 ^ 21 ≤ pb + (k + 1) * 4096) ⊎ code ≡ enmphp

  grab-Grabbed :
      (n c : ℕ) (e : ℤ) (mm : Mm)
      → let pb = mm.program_breaks t.program_break in
        pb < 2 ^ 21 → 2 ^ 21 ≤ pb + n * 4096 → Grabbed c pb (run serve (grab n c e) mm)
  unfolding grab
  grab-Grabbed zero c e mm below enough = absurd (omega arith)
  grab-Grabbed (suc n) c e mm below enough =
      let p = sys_sbrk empty (pos 4096) t mm in
      elim (sys_sbrk-Raised empty t mm below) [
        | inl (ok, up, room) ↦
            let g = grab-Grabbed n (c + 1) e p.1 (omega (arith, up)) (omega (arith, up)) in
            rw ok (record {
              k = suc g.k;
              code = g.code;
              ended = g.ended ∙ ap (λ m. returned (m, pos g.code)) (omega arith);
              log = ap (λ l. sbrk (pos 4096) ∷ l) g.log;
              raised_to = omega (arith, g.raised_to, up);
              within = omega (arith, g.within, up);
              why = elim g.why [
                | inl (code, beyond) ↦ inl (code, omega (arith, beyond, up))
                | inr code ↦ inr code
              ];
            })
        | inr (inl (bad, same, full)) ↦ rw bad (record {
          k = 0;
          code = enomem;
          ended = ap (λ m. returned (m, pos enomem)) (omega arith);
          log = refl;
          raised_to = omega (arith, same);
          within = omega (arith, below);
          why = inl (refl, omega arith);
        })
        | inr (inr (bad, same)) ↦ rw bad (record {
          k = 0;
          code = enmphp;
          ended = ap (λ m. returned (m, pos enmphp)) (omega arith);
          log = refl;
          raised_to = omega (arith, same);
          within = omega (arith, below);
          why = inr refl;
        })
      ]

  -- With rounds enough the loop of `dinam_test` ends: each call raises the break by 4096 until one fails,
  -- for want of frames or because the break would reach 2 ^ 21. The program prints the kernel's reason
  -- behind "Memoria: ", and the number of its calls, stores through the pointer -1 that the failed
  -- call has left, and spins. The break is to be below 2 ^ 21 at first.
  pub dinam_test_lem :
      (n : ℕ) (e : ℤ) (mm : Mm)
      → let pb = mm.program_breaks t.program_break in
        let r = run serve (dinam_test n e) mm in
        pb < 2 ^ 21
        → 2 ^ 21 ≤ pb + n * 4096
        → (k : ℕ) × (code : ℕ) × (r.log ≡ calls_of (suc k) ++ last_actions (k + 1) code)
          × (r.ending ≡ spinning)
          × (r.state.program_breaks t.program_break ≡ pb + k * 4096)
          × (pb + k * 4096 < 2 ^ 21)
          × ((code ≡ enomem) × (2 ^ 21 ≤ pb + (k + 1) * 4096) ⊎ code ≡ enmphp)
  unfolding dinam_test perror
  dinam_test_lem n e mm below enough =
      let g = grab-Grabbed n 0 e mm below enough in
      let r = run serve (grab n 0 e) mm in
      let ended : r.ending ≡ returned (g.k + 1, pos g.code) =
        g.ended ∙ ap (λ m. returned (m, pos g.code)) (omega arith) in
      (
        g.k,
        g.code,
        rw (run-then_do serve (grab n 0 e) _ mm, ended, g.log) refl,
        rw (run-then_do serve (grab n 0 e) _ mm, ended) refl,
        rw (run-then_do serve (grab n 0 e) _ mm, ended) g.raised_to,
        g.within,
        g.why,
      )
