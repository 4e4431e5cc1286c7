-- ===== src/Text/Reverse.antt =====
-- The loop of `itoa` that turns the digits round.
use ze_ospi.Base.{
  ℕ, zero, suc, ◌+◌, ◌-◌, ◌/◌, ◌≡◌, refl, ap, ◌∙◌, ◌≢◌, inl, inr, arith, ltb, leb, ◌==◌, ◌&&◌,
  if◌then◌else◌, Bool-cases, ==→eq, ==→ne,
}
use ze_ospi.Text.{Buffer, put_char, swap_loop}

-- With `n` rounds left, the characters between `i1` and its mirror image change places.
swap_loop_from :
    (n i1 i : ℕ) (b : Buffer) (j : ℕ)
    → i1 + n ≡ i / 2
    → swap_loop n i1 i b j ≡ (if leb i1 j && ltb j (i - i1) then b (i - 1 - j) else b j)
unfolding swap_loop
swap_loop_from zero i1 i b j e = elim (Bool-cases (leb i1 j && ltb j (i - i1))) [
  | inl middle ↦ let same : j ≡ i - 1 - j = ground arith in rw middle (ap b same)
  | inr outside ↦ rw outside refl
]
swap_loop_from (suc n) i1 i b j e =
    let far = i - i1 - 1 in
    let b' = put_char (put_char b i1 (b far)) far (b i1) in
    let rest = swap_loop_from n (i1 + 1) i b' j (omega arith) in
    elim (Bool-cases (j == i1)) [
      | inl left_end ↦
          let at : j ≡ i1 = ==→eq j i1 left_end in
          let same : far ≡ i - 1 - j = omega arith in ground (arith, rest, ap b same)
      | inr not_left ↦
          let ne : j ≢ i1 = ==→ne j i1 not_left in
          elim (Bool-cases (j == far)) [
            | inl right_end ↦
                let at : j ≡ far = ==→eq j far right_end in
                let same : i1 ≡ i - 1 - j = omega arith in ground (arith, rest, ap b same)
            | inr not_right ↦ let ne' : j ≢ far = ==→ne j far not_right in ground (arith, rest)
          ]
    ]

pub swap_loop_lem :
    (i : ℕ) (b : Buffer) (j : ℕ)
    → swap_loop (i / 2) 0 i b j ≡ (if ltb j i then b (i - 1 - j) else b j)
swap_loop_lem i b j = swap_loop_from (i / 2) 0 i b j (omega arith) ∙ ground arith
