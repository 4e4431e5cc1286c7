-- ===== src/Text.antt =====
-- libc.c: `itoa` and `strlen`. A string is the memory from its first character on, and ends at its
-- first 0.
pub mod Reverse
pub mod Number
use ze_ospi.Base.{
  ℕ, zero, suc, ◌+◌, ◌-◌, ◌*◌, ◌/◌, ◌%◌, ◌^◌, true, false, ltb, ◌==◌, if◌then◌else◌, ℤ, pos, negsuc,
}

abbrev pub Buffer : Type 0
Buffer = ℕ → ℕ

abbrev pub put_char : Buffer → ℕ → ℕ → Buffer
put_char b i c j = if i == j then c else b j

-- `i` and the buffer.
pub record Digits : Type 0 where
  pub count : ℕ
  pub chars : Buffer

-- `while (a>0) { b[i]=(a%10)+'0'; a=a/10; i++; }`; ten rounds are enough for an int.
unfoldable pub digits_loop : (rounds a i : ℕ) → Buffer → Digits
digits_loop zero a i b = record { count = i; chars = b }
digits_loop (suc n) a i b = elim (ltb 0 a) [
  | true ↦ digits_loop n (a / 10) (i + 1) (put_char b i (a % 10 + 48))
  | false ↦ record { count = i; chars = b }
]

-- `for (i1=0; i1<i/2; i1++)`, with `n` rounds left.
unfoldable pub swap_loop : (n i1 i : ℕ) → Buffer → Buffer
swap_loop zero i1 i b = b
swap_loop (suc n) i1 i b =
    swap_loop n (i1 + 1) i (put_char (put_char b i1 (b (i - i1 - 1))) (i - i1 - 1) (b i1))

-- What follows the test for 0.
abbrev pub itoa_digits : (a : ℕ) → Buffer → Buffer
itoa_digits a b =
    let d = digits_loop 10 a 0 b in put_char (swap_loop (d.count / 2) 0 d.count d.chars) d.count 0

-- The loop makes no round for a number that is not positive.
unfoldable pub itoa : (a : ℤ) → Buffer → Buffer
itoa (pos n) b = if n == 0 then put_char (put_char b 0 48) 1 0 else itoa_digits n b
itoa (negsuc n) b = itoa_digits 0 b

-- The characters up to the first 0, with `rounds` to look at.
unfoldable pub strlen : (rounds i : ℕ) → Buffer → ℕ
strlen zero i a = i
strlen (suc n) i a = elim (a i == 0) [ true ↦ i | false ↦ strlen n (i + 1) a ]
