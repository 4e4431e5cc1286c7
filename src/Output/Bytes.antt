-- ===== src/Output/Bytes.antt =====
-- `sys_write` sends the bytes of the user's block, or reports what is wrong.
use ze_ospi.Base.{
  ℕ, zero, suc, ◌+◌, ◌-◌, ◌%◌, ◌^◌, ◌<◌, ◌≤◌, ◌≡◌, refl, sym, ap, ◌∙◌, ◌≢◌, [], ◌∷◌, ◌++◌, inl, inr,
  arith, ltb, Bool-cases, ltb→lt, ltb→le, ℤ, pos, neg, negsuc, Option, none, some,
}
use ze_ospi.Kernel.{add32}
use ze_ospi.Utils.{Memory, move, verify_read, copy_from_user}
use ze_ospi.Utils.Copy.{copy_data_lem}
use ze_ospi.Process.{escriptura, check_fd}
use ze_ospi.Process.Checks.{magnitude, checks, first_failure}
use ze_ospi.Output.{send, Written, write_chunks, sys_write}

send-ext :
    (buffer buffer' n : ℕ) (m m' : Memory)
    → ((i : ℕ) → i < n → m (buffer + i) ≡ m' (buffer' + i))
    → send buffer n m ≡ send buffer' n m'
unfolding send
send-ext b b' zero m m' e = refl
send-ext b b' (suc n) m m' e =
    let here : m b ≡ m' b' = ap m (omega arith) ∙ e 0 (omega arith) ∙ ap m' (omega arith) in
    let rest =
      send-ext (b + 1) (b' + 1) n m m'
        (λ i h. ap m (omega arith) ∙ e (i + 1) (omega arith) ∙ ap m' (omega arith)) in
    ap (λ c. (c % 256) ∷ send (b + 1) n m) here ∙ ap (λ xs. (m' b' % 256) ∷ xs) rest

suc-add : (n k : ℕ) → suc n + k ≡ suc (n + k)
suc-add n k = omega arith

send-add :
    (n k buffer : ℕ) (m : Memory) → send buffer (n + k) m ≡ send buffer n m ++ send (buffer + n) k m
unfolding send
send-add zero k b m = ap (λ j. send b j m) (omega arith) ∙ ap (λ x. send x k m) (omega arith)
send-add (suc n) k b m =
    ap (λ j. send b j m) (suc-add n k)
    ∙ ap (λ xs. (m b % 256) ∷ xs) (send-add n k (b + 1) m)
    ∙ ap (λ x. (m b % 256) ∷ (send (b + 1) n m ++ send x k m)) (omega arith)

module _ (buff : ℕ) where
  -- A chunk goes through the array, which lies below the user's block.
  chunk :
      (n buffer : ℕ) (m : Memory)
      → buff + n ≤ buffer
      → buffer + n ≤ 2 ^ 32
      → send buff n (copy_from_user buffer buff n m).1 ≡ send buffer n m
  chunk n b m h room = rw (copy_data_lem b buff n m (inl (omega arith)) room (omega arith)).1 (
      send-ext buff b n (move n b buff m) m (λ i less.
        let same : b + (buff + i - buff) ≡ b + i = omega arith in ground (arith, ap m same)))

  kept :
      (n buffer a : ℕ) (m : Memory)
      → n ≤ 4
      → buffer + n ≤ 2 ^ 32
      → buff + 4 ≤ buffer
      → buffer ≤ a
      → (copy_from_user buffer buff n m).1 a ≡ m a
  kept n b a m le room h above =
      rw (copy_data_lem b buff n m (inl (omega arith)) room (omega arith)).1 (ground arith)

  write_chunks_lem :
      (rounds buffer size ret : ℕ) (m : Memory)
      → size ≤ rounds
      → 0 < size
      → buff + 4 ≤ buffer
      → buffer + size ≤ 2 ^ 32
      → let w = write_chunks buff rounds buffer size ret m in
        (w.ret ≡ pos (ret + size)) × (w.sent ≡ send buffer size m)
  unfolding write_chunks
  write_chunks_lem zero b size ret m le more h room = absurd (omega arith)
  write_chunks_lem (suc n) b size ret m le more h room = elim (Bool-cases (ltb 4 size)) [
    | inl big ↦
        let l : 4 < size = ltb→lt 4 size big in
        let m' = (copy_from_user b buff 4 m).1 in
        let next : add32 b 4 ≡ b + 4 = omega arith in
        let (r, sent) =
          write_chunks_lem n (b + 4) (size - 4) (ret + 4) m' (omega arith) (omega arith)
            (omega arith) (omega arith) in
        let same : send (b + 4) (size - 4) m' ≡ send (b + 4) (size - 4) m =
          send-ext (b + 4) (b + 4) (size - 4) m' m
            (λ i less. kept 4 b (b + 4 + i) m (omega arith) (omega arith) h (omega arith)) in
        let whole : send b size m ≡ send b 4 m ++ send (b + 4) (size - 4) m =
          ap (λ k. send b k m) (omega arith) ∙ send-add 4 (size - 4) b m in
        rw (big, write_chunks, next)
          (
            r ∙ ap pos (omega arith),
            ap (λ xs. xs ++ (write_chunks buff n (b + 4) (size - 4) (ret + 4) m').sent)
                  (chunk 4 b m (omega arith) (omega arith))
                ∙ ap (λ xs. send b 4 m ++ xs) (sent ∙ same)
                ∙ sym whole,
          )
    | inr small ↦
        rw (small, write_chunks) (refl, chunk size b m (omega (arith, ltb→le 4 size small)) room)
  ]

  refused : ℕ → Memory → Written
  refused e m = record { ret = neg e; sent = []; memory = m }

  -- The call makes the tests of `checks` in their order. If one fails it returns that error, sends
  -- nothing and keeps the memory; otherwise it goes on to the chunks.
  sys_write-checks :
      (fd buffer : ℕ) (size : ℤ) (m : Memory)
      → sys_write buff fd buffer size m
        ≡ (elim (first_failure (checks escriptura verify_read fd buffer size)) [
          | some e ↦ refused e m
          | none ↦ write_chunks buff (magnitude size) buffer (magnitude size) 0 m
        ])
  unfolding sys_write check_fd refused
  sys_write-checks fd buffer (negsuc n) m = ground arith
  sys_write-checks fd buffer (pos zero) m = ground arith
  sys_write-checks fd buffer (pos (suc n)) m = ground arith

  -- What the call does when no test fails, and when the first that fails has the error `e`.
  abbrev pub Report : (buffer : ℕ) → ℤ → Memory → Option ℕ → Written → Type 0
  Report buffer size m none w =
      (w.ret ≡ pos (magnitude size)) × (w.sent ≡ send buffer (magnitude size) m)
  Report buffer size m (some e) w = (w.ret ≡ neg e) × (w.sent ≡ []) × (w.memory ≡ m)

  sound :
      (fd buffer : ℕ) (size : ℤ)
      → first_failure (checks escriptura verify_read fd buffer size) ≡ none
      → (0 < magnitude size) × (buffer ≢ 0)
  sound fd buffer (negsuc n) e = ground arith
  sound fd buffer (pos n) e = ground arith

  -- `sys_write` makes these tests in this order: the descriptor is 0 or 1 (else -EBADF), it is the one
  -- for writing (-EACCES), the pointer is not NULL (-EPNULL), the size is positive (-ESIZEB), the block
  -- is readable (-ENACCB). If one fails it returns the error of the first that does, sends nothing and
  -- keeps the memory. If none fails it sends the bytes of
  -- the block in their order, all of them, and returns their number. The kernel's array is to lie
  -- below the block, and a block that passes the tests is not to wrap: it ends at 2 ^ 32 at most.
  pub sys_write_lem :
      (fd buffer : ℕ) (size : ℤ) (m : Memory)
      → (buffer ≢ 0 → buff + 4 ≤ buffer)
      → (first_failure (checks escriptura verify_read fd buffer size) ≡ none
          → buffer + magnitude size ≤ 2 ^ 32)
      → Report buffer size m
          (first_failure (checks escriptura verify_read fd buffer size))
          (sys_write buff fd buffer size m)
  unfolding refused
  sys_write_lem fd buffer size m h room =
      rw (sys_write-checks fd buffer size m)
        (go (first_failure (checks escriptura verify_read fd buffer size)) refl)
    where
      go :
          (o : Option ℕ)
          → first_failure (checks escriptura verify_read fd buffer size) ≡ o
          → Report buffer size m o (elim o [
            | some e ↦ refused e m
            | none ↦ write_chunks buff (magnitude size) buffer (magnitude size) 0 m
          ])
      go (some e) is = (refl, refl, refl)
      go none is =
          let (more, ne) = sound fd buffer size is in
          let (r, sent) =
            write_chunks_lem (magnitude size) buffer (magnitude size) 0 m (omega arith) more (h ne)
              (room is) in
          (r ∙ ap pos (omega arith), sent)
