-- ===== src/Text/Number.antt =====
-- `itoa` writes the decimal digits of a number.
use ze_ospi.Base.{
  ℕ, zero, suc, ◌+◌, ◌-◌, ◌*◌, ◌/◌, ◌%◌, ◌^◌, ◌<◌, ◌≤◌, ◌≡◌, refl, sym, ap, ◌∙◌, ◌≢◌, inl, inr,
  arith, ltb, ◌==◌, Bool-cases, ==→eq, eq→==, ==→ne, ltb→lt, ltb→le, pos, negsuc, false,
}
use ze_ospi.Text.{Buffer, put_char, Digits, digits_loop, swap_loop, itoa_digits, itoa, strlen}
use ze_ospi.Text.Reverse.{swap_loop_lem}

-- `a` divided by 10 `j` times.
quot : ℕ → ℕ → ℕ
quot a zero = a
quot a (suc j) = quot a j / 10

quot-div : (a j : ℕ) → quot (a / 10) j ≡ quot a (suc j)
unfolding quot
quot-div a zero = refl
quot-div a (suc j) = ap (λ x. x / 10) (quot-div a j)

plus_zero : (i : ℕ) → i + 0 ≡ i
plus_zero i = omega arith

minus_self : (l : ℕ) → l - l ≡ 0
minus_self l = omega arith

next : (i k : ℕ) → k ≢ 0 → i + k ≡ i + 1 + (k - 1)
next i k ne = omega arith

back : (k : ℕ) → k ≢ 0 → suc (k - 1) ≡ k
back k ne = omega arith

plus_left : (i : ℕ) → i ≡ 0 + i
plus_left i = omega arith

quot_ten : (a : ℕ) → a < 2 ^ 31 → quot a 10 ≡ 0
unfolding quot
quot_ten a h = omega arith

-- The digits from the last one on.
record Backwards (a i : ℕ) (b : Buffer) (d : Digits) : Type 0 where
  length : ℕ
  count : d.count ≡ i + length
  chars : (k : ℕ) → k < length → d.chars (i + k) ≡ quot a k % 10 + 48
  lower : (k : ℕ) → k < i → d.chars k ≡ b k
  over : quot a length ≡ 0
  leading : (k : ℕ) → k < length → 0 < quot a k
  short : (n : ℕ) → quot a n ≡ 0 → length ≤ n

-- One digit more behind.
Backwards-suc :
    (a i : ℕ) (b : Buffer) (d : Digits)
    → 0 < a
    → Backwards (a / 10) (i + 1) (put_char b i (a % 10 + 48)) d
    → Backwards a i b d
unfolding quot
Backwards-suc a i b d more w = record {
  length = suc w.length;
  count = omega (arith, w.count);
  chars = λ k h. elim (Bool-cases (k == 0)) [
    | inl first ↦
        let e : k ≡ 0 = ==→eq k 0 first in
        rw e (ap d.chars (plus_zero i) ∙ w.lower i (omega arith) ∙ rw (eq→== i i refl) refl)
    | inr other ↦
        let ne : k ≢ 0 = ==→ne k 0 other in
        ap d.chars (next i k ne)
        ∙ w.chars (k - 1) (omega arith)
        ∙ ap (λ x. x % 10 + 48) (quot-div a (k - 1) ∙ ap (quot a) (back k ne))
  ];
  lower = λ k h. w.lower k (omega arith) ∙ ground arith;
  over = sym (quot-div a w.length) ∙ w.over;
  leading = λ k h. elim (Bool-cases (k == 0)) [
    | inl first ↦ let e : k ≡ 0 = ==→eq k 0 first in rw e more
    | inr other ↦
        let ne : k ≢ 0 = ==→ne k 0 other in
        omega (arith, w.leading (k - 1) (omega arith), quot-div a (k - 1), ap (quot a) (back k ne))
  ];
  short = λ n e. elim (Bool-cases (n == 0)) [
    | inl first ↦ let z : n ≡ 0 = ==→eq n 0 first in absurd (omega (arith, ap (quot a) z))
    | inr other ↦
        let ne : n ≢ 0 = ==→ne n 0 other in
        omega (arith, w.short (n - 1) (quot-div a (n - 1) ∙ ap (quot a) (back n ne) ∙ e))
  ];
}

digits_loop-Backwards :
    (n a i : ℕ) (b : Buffer) → quot a n ≡ 0 → Backwards a i b (digits_loop n a i b)
unfolding digits_loop quot
digits_loop-Backwards zero a i b e = record {
  length = 0;
  count = omega arith;
  chars = λ k h. absurd (omega arith);
  lower = λ k h. refl;
  over = e;
  leading = λ k h. absurd (omega arith);
  short = λ n h. omega arith;
}
digits_loop-Backwards (suc n) a i b e = elim (Bool-cases (ltb 0 a)) [
  | inr done ↦
      rw (done, digits_loop)
        (record {
          length = 0;
          count = omega arith;
          chars = λ k h. absurd (omega arith);
          lower = λ k h. refl;
          over = omega (arith, ltb→le 0 a done);
          leading = λ k h. absurd (omega arith);
          short = λ n h. omega arith;
        })
  | inl more ↦
      let w =
        digits_loop-Backwards n (a / 10) (i + 1) (put_char b i (a % 10 + 48)) (quot-div a n ∙ e) in
      rw (more, digits_loop) (Backwards-suc a i b _ (ltb→lt 0 a more) w)
]

-- The number that a string of `n` digits shows.
abbrev pub read_number : Buffer → ℕ → ℕ
read_number b zero = 0
read_number b (suc n) = 10 * read_number b n + (b n - 48)

strlen_lem :
    (n i l : ℕ) (b : Buffer)
    → i ≤ l
    → l < i + n
    → ((k : ℕ) → k < l → b k ≢ 0)
    → b l ≡ 0
    → strlen n i b ≡ l
unfolding strlen
strlen_lem zero i l b lo hi some_char z = absurd (omega arith)
strlen_lem (suc n) i l b lo hi some_char z = elim (Bool-cases (b i == 0)) [
  | inl end ↦
      let e : b i ≡ 0 = ==→eq (b i) 0 end in
      rw (end, strlen)
        (elim (Bool-cases (i == l)) [
          | inl here ↦ ==→eq i l here
          | inr before ↦ let ne : i ≢ l = ==→ne i l before in absurd (some_char i (omega arith) e)
        ])
  | inr more ↦
      let e : b i ≢ 0 = ==→ne (b i) 0 more in
      let ne : i ≢ l = λ same. e (ap b same ∙ z) in
      rw (more, strlen) (strlen_lem n (i + 1) l b (omega arith) (omega arith) some_char z)
]

-- Digits that stand in the order of the number.
module _ (a l : ℕ) (b : Buffer) (over : quot a l ≡ 0)
    (digit : (k : ℕ) → k < l → b k ≡ quot a (l - 1 - k) % 10 + 48) where
  read_number_lem : (k : ℕ) → k ≤ l → read_number b k ≡ quot a (l - k)
  unfolding quot
  read_number_lem zero h = sym over ∙ ap (quot a) (omega arith)
  read_number_lem (suc k) h =
      let one : l - k ≡ suc (l - suc k) = omega arith in
      let two : l - 1 - k ≡ l - suc k = omega arith in
      omega (
        arith,
        read_number_lem k (omega arith),
        digit k (omega arith),
        ap (quot a) one,
        ap (quot a) two,
      )

  read_whole : read_number b l ≡ a
  unfolding quot
  read_whole = read_number_lem l (omega arith) ∙ ap (quot a) (minus_self l)

negative : (b : Buffer) (m : ℕ) → strlen 11 0 (itoa (negsuc m) b) ≡ 0
unfolding itoa strlen digits_loop swap_loop
negative b m = refl

-- A positive int is written with its decimal digits: `strlen` finds as many characters as
-- the number has digits, all of them digits, the first one not 0, and read from the left they show the
-- number. A negative int is written as the empty string.
pub itoa-read_number :
    (a : ℕ) (b : Buffer)
    → 0 < a
    → a < 2 ^ 31
    → let b' = itoa (pos a) b in
      let n = strlen 11 0 b' in
      (read_number b' n ≡ a)
      × ((k : ℕ) → k < n → (48 ≤ b' k) × (b' k < 58))
      × (b' n ≡ 0)
      × (48 < b' 0)
      × ((m : ℕ) → strlen 11 0 (itoa (negsuc m) b) ≡ 0)
unfolding itoa
itoa-read_number a b more small =
    let d = digits_loop 10 a 0 b in
    let w = digits_loop-Backwards 10 a 0 b (quot_ten a small) in
    let l = d.count in
    let b' = itoa_digits a b in
    let digit : (k : ℕ) → k < l → b' k ≡ quot a (l - 1 - k) % 10 + 48 = λ k h.
      ground (arith, swap_loop_lem l d.chars k)
      ∙ ap d.chars (plus_left (l - 1 - k))
      ∙ w.chars (l - 1 - k) (omega (arith, w.count)) in
    let over : quot a l ≡ 0 =
      ap (quot a) w.count ∙ ap (quot a) (sym (plus_left w.length)) ∙ w.over in
    let stop : b' l ≡ 0 = rw (eq→== l l refl) refl in
    let is_number : (a == 0) ≡ false = ground arith in
    let len : strlen 11 0 b' ≡ l =
      strlen_lem 11 0 l b' (omega arith) (omega (arith, w.count, w.short 10 (quot_ten a small)))
        (λ k h e. omega (arith, digit k h, e)) stop in
    let some_digit : 0 < l =
      unfold quot in
      (elim (Bool-cases (l == 0)) [
        | inl empty ↦ let z : l ≡ 0 = ==→eq l 0 empty in absurd (omega (arith, ap (quot a) z, over))
        | inr filled ↦ let ne : l ≢ 0 = ==→ne l 0 filled in omega arith
      ]) in
    let last : l ≡ suc (l - 1 - 0) = omega arith in
    let first_digit : 48 < b' 0 =
      unfold quot in
      (omega (
        arith,
        digit 0 some_digit,
        w.leading (l - 1 - 0) (omega (arith, w.count)),
        over,
        ap (quot a) last,
      )) in
    rw (is_number, len)
      (
        read_whole a l b' over digit,
        (λ k h. omega (arith, digit k h)),
        stop,
        first_digit,
        negative b,
      )
