-- ===== src/Print/Decimal.antt =====
-- The digits that `printint` of io.c prints.
use ze_ospi.Base.{
  ℕ, zero, suc, ◌+◌, ◌*◌, ◌/◌, ◌%◌, ◌^◌, ◌<◌, ◌≤◌, ◌≡◌, refl, ap, ◌∙◌, inl, inr, arith, List, [],
  ◌∷◌, true, false, ◌==◌, if◌then◌else◌, Bool-cases,
}
use ze_ospi.Print.{reverse_digits, print_digits, printint}

-- The digits of a number in front of a text, the last one first put there.
unfoldable pub decimal : (rounds num : ℕ) → List ℕ → List ℕ
decimal zero num text = text
decimal (suc n) num text = elim (num == 0) [
  | true ↦ text
  | false ↦ decimal n (num / 10) ((num % 10 + 48) ∷ text)
]

pow10 : ℕ → ℕ
pow10 zero = 1
pow10 (suc k) = 10 * pow10 k

print_digits-cons :
    (x r d : ℕ) → d < 10 → print_digits (x + 1) (r * 10 + d) ≡ (d + 48) ∷ print_digits x r
unfolding print_digits
print_digits-cons x r d h =
    let a : (r * 10 + d) % 10 ≡ d = omega arith in
    let b : (r * 10 + d) / 10 ≡ r = omega arith in
    let e : x + 1 ≡ suc x = omega arith in rw (e, print_digits, a, b)

-- `b` bounds what has been reversed, and `pow10 k` what is left.
loops :
    (n k num x r b : ℕ)
    → k ≤ n
    → num < pow10 k
    → r < b
    → b * pow10 k ≡ 10 ^ 9
    → let (x', r') = reverse_digits n num x r in
      print_digits x' r' ≡ decimal n num (print_digits x r)
unfolding reverse_digits decimal pow10
loops zero k num x r b le small rb all = refl
loops (suc n) zero num x r b le small rb all =
    let e : num ≡ 0 = omega arith in rw (e, reverse_digits, decimal)
loops (suc n) (suc k) num x r b le small rb all = elim (Bool-cases (num == 0)) [
  | inl none ↦ rw (none, reverse_digits, decimal)
  | inr some_ ↦
      let more : 10 * b * pow10 k ≡ 10 ^ 9 = grind (arith, all) in
      let bound : 10 * b ≤ 10 ^ 9 = grind arith in
      let exact : (r * 10 + num % 10) % 2 ^ 32 ≡ r * 10 + num % 10 = omega arith in
      rw (some_, reverse_digits, decimal, exact)
        (loops n k (num / 10) (x + 1) (r * 10 + num % 10) (10 * b) (omega arith) (omega arith)
            (omega arith) more
          ∙ ap (decimal n (num / 10)) (print_digits-cons x r (num % 10) (omega arith)))
]

-- A number below 10 ^ 9 is printed as its decimal digits, the highest first and without leading
-- zeros, and 0 as one digit.
pub printint-decimal :
    (num : ℕ) → num < 10 ^ 9 → printint num ≡ (if num == 0 then 48 ∷ [] else decimal 10 num [])
unfolding printint pow10 print_digits
printint-decimal num h =
    let l =
      loops 10 9 num 0 0 1 (omega arith) (unfold pow10 in omega arith) (omega arith)
        (unfold pow10 in omega arith) in
    elim (Bool-cases (num == 0)) [ inl none ↦ rw none refl | inr some_ ↦ rw some_ l ]
