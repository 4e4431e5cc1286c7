-- ===== src/Utils/Copy.antt =====
-- The copy routines of utils.c copy the block that they are given.
use ze_ospi.Base.{
  ℕ, zero, suc, ◌+◌, ◌-◌, ◌%◌, ◌^◌, ◌≤◌, ◌<◌, ◌≡◌, refl, sym, ap, ◌∙◌, ◌⊎◌, inl, inr, arith, ltb,
  leb, Bool-cases, ltb→lt, lt→ltb, ltb→le, true, leb→le, pos,
}
use mathlib.Core.Path.{fun_ext}
use ze_ospi.Utils.{
  Memory, move, Copying, copy_words, copy_bytes, copy_data, copy_from_user, copy_to_user,
}

-- Going upwards is safe if the target starts at or below the source, or behind it.
abbrev pub IsSafe : ℕ → ℕ → ℕ → Type 0
IsSafe start dest size = (dest ≤ start) ⊎ (start + size ≤ dest)

-- Moving `k` bytes and then the `n` behind them moves `k + n` bytes.
move-move :
    (k n p q : ℕ) (m : Memory)
    → IsSafe p q (k + n)
    → move n (p + k) (q + k) (move k p q m) ≡ move (k + n) p q m
move-move k n p q m h = fun_ext λ a. elim (Bool-cases (leb (q + k) a)) [
  | inl behind ↦
      let same : q + k ≤ a → p + k + (a - (q + k)) ≡ p + (a - q) = λ c. omega arith in
      ground (arith, ap m (same (leb→le (q + k) a behind)))
  | inr before ↦ ground arith
]

move-zero : (p q : ℕ) (m : Memory) → move 0 p q m ≡ m
move-zero p q m = fun_ext λ a. ground arith

abbrev at : ℕ → ℕ → ℕ → Memory → Copying
at p q n m = record { from = p; to = q; size = n; memory = m }

copy_bytes-zero : (fuel p q : ℕ) (m : Memory) → (copy_bytes fuel (at p q 0 m)).memory ≡ m
unfolding copy_bytes
copy_bytes-zero zero p q m = refl
copy_bytes-zero (suc fuel) p q m = refl

copy_bytes_lem :
    (fuel p q n : ℕ) (m : Memory)
    → n ≤ fuel
    → IsSafe p q n
    → p + n ≤ 2 ^ 32
    → q + n ≤ 2 ^ 32
    → (copy_bytes fuel (at p q n m)).memory ≡ move n p q m
unfolding copy_bytes
copy_bytes_lem zero p q n m h safe hp hq =
    let e : n ≡ 0 = omega arith in rw e (sym (move-zero p q m))
copy_bytes_lem (suc fuel) p q n m h safe hp hq = elim (Bool-cases (ltb 1 n)) [
  | inl many ↦
      let two : 1 < n = ltb→lt 1 n many in
      let more : ltb 0 n ≡ true = lt→ltb 0 n (omega arith) in
      let next_p : (p + 1) % 2 ^ 32 ≡ p + 1 = omega arith in
      let next_q : (q + 1) % 2 ^ 32 ≡ q + 1 = omega arith in
      rw (more, copy_bytes, next_p, next_q)
        (copy_bytes_lem fuel (p + 1) (q + 1) (n - 1) (move 1 p q m) (omega arith) (omega arith)
            (omega arith) (omega arith)
          ∙ move-move 1 (n - 1) p q m (omega arith)
          ∙ ap (λ k. move k p q m) (omega arith))
  | inr few ↦ elim (Bool-cases (ltb 0 n)) [
    | inl more ↦
        let one : n ≡ 1 = omega (arith, ltb→le 1 n few, ltb→lt 0 n more) in
        rw (more, copy_bytes)
          (rw one (copy_bytes-zero fuel ((p + 1) % 2 ^ 32) ((q + 1) % 2 ^ 32) (move 1 p q m)))
    | inr done ↦
        let e : n ≡ 0 = omega (arith, ltb→le 0 n done) in
        rw (done, copy_bytes) (rw e (sym (move-zero p q m)))
  ]
]

at-move_zero : (p q n : ℕ) (m : Memory) → at p q n m ≡ at (p + 0) (q + 0) (n - 0) (move 0 p q m)
at-move_zero p q n m = ground (arith, move-zero p q m)

-- The loop over words moves some of the bytes, and leaves the others to the loop over bytes.
copy_words_lem :
    (fuel p q n : ℕ) (m : Memory)
    → IsSafe p q n
    → p + n ≤ 2 ^ 32
    → q + n ≤ 2 ^ 32
    → (k : ℕ) × (k ≤ n) × (copy_words fuel (at p q n m) ≡ at (p + k) (q + k) (n - k) (move k p q m))
unfolding copy_words
copy_words_lem zero p q n m safe hp hq = (0, omega arith, at-move_zero p q n m)
copy_words_lem (suc fuel) p q n m safe hp hq = elim (Bool-cases (ltb 4 n)) [
  | inl more ↦
      let pos : 4 < n = ltb→lt 4 n more in
      let next_p : (p + 4) % 2 ^ 32 ≡ p + 4 = omega arith in
      let next_q : (q + 4) % 2 ^ 32 ≡ q + 4 = omega arith in
      let (k, le, is) =
        copy_words_lem fuel (p + 4) (q + 4) (n - 4) (move 4 p q m) (omega arith) (omega arith)
          (omega arith) in
      (
        4 + k,
        omega arith,
        rw (more, copy_words, next_p, next_q)
            (is ∙ ground (arith, move-move 4 k p q m (omega arith))),
      )
  | inr done ↦ (0, omega arith, rw (done, copy_words) (at-move_zero p q n m))
]

-- `copy_data` puts the `size` bytes at `start` into the `size` bytes at `dest`, and changes no other
-- byte, if the target starts at or below the source or does not begin before the source's end, and
-- neither block wraps: each ends at 2 ^ 32 at most. `copy_from_user` and `copy_to_user` do the same and
-- return 0.
pub copy_data_lem :
    (start dest size : ℕ) (m : Memory)
    → IsSafe start dest size
    → start + size ≤ 2 ^ 32
    → dest + size ≤ 2 ^ 32
    → (copy_data start dest size m ≡ move size start dest m)
      × (copy_from_user start dest size m ≡ (pos 0, move size start dest m))
      × (copy_to_user start dest size m ≡ (pos 0, move size start dest m))
unfolding copy_data copy_from_user copy_to_user
copy_data_lem p q n m safe hp hq =
    let (k, le, is) = copy_words_lem n p q n m safe hp hq in
    let whole : (copy_bytes n (copy_words n (at p q n m))).memory ≡ move n p q m = rw is (
      copy_bytes_lem n (p + k) (q + k) (n - k) (move k p q m) (omega arith) (omega arith)
        (omega arith) (omega arith)
      ∙ move-move k (n - k) p q m (omega arith)
      ∙ ap (λ k. move k p q m) (omega arith)) in
    (whole, ap (λ (m : Memory). (pos 0, m)) whole, ap (λ (m : Memory). (pos 0, m)) whole)
