-- ===== src/Print/Hex.antt =====
-- The digits that `printhex` of io.c prints.
use ze_ospi.Base.{
  ℕ, ◌+◌, ◌-◌, ◌*◌, ◌/◌, ◌%◌, ◌^◌, ◌<◌, ◌≡◌, refl, length, List, [], ◌∷◌, arith, ltb, if◌then◌else◌,
}
use ze_ospi.Print.{hex_digit, print_hex_digits, printhex}

-- What a hexadecimal digit stands for, and digits behind a number.
abbrev pub digit_value : ℕ → ℕ
digit_value c = if ltb c 58 then c - 48 else c - 55

unfoldable pub read_hex : List ℕ → ℕ → ℕ
read_hex [] acc = acc
read_hex (c ∷ cs) acc = read_hex cs (acc * 16 + digit_value c)

digit_value-hex_digit : (v : ℕ) → v < 16 → digit_value (hex_digit v) ≡ v
digit_value-hex_digit v h = ground arith

-- Reading the eight digits of any word back gives the word.
read_hex-print_hex_digits : (num : ℕ) → num < 2 ^ 32 → read_hex (print_hex_digits 8 num) 0 ≡ num
unfolding read_hex print_hex_digits
read_hex-print_hex_digits num h =
    rw
      (
        digit_value-hex_digit (num / 16 ^ 7 % 16) (omega arith),
        digit_value-hex_digit (num / 16 ^ 6 % 16) (omega arith),
        digit_value-hex_digit (num / 16 ^ 5 % 16) (omega arith),
        digit_value-hex_digit (num / 16 ^ 4 % 16) (omega arith),
        digit_value-hex_digit (num / 16 ^ 3 % 16) (omega arith),
        digit_value-hex_digit (num / 16 ^ 2 % 16) (omega arith),
        digit_value-hex_digit (num / 16 ^ 1 % 16) (omega arith),
        digit_value-hex_digit (num / 16 ^ 0 % 16) (omega arith),
      )
      (omega arith)

-- `printhex` prints any word as `0x` and eight digits, and reading them back gives the word.
pub printhex-read_hex :
    (num : ℕ)
    → num < 2 ^ 32
    → (cs : List ℕ) × (printhex num ≡ 48 ∷ 120 ∷ cs) × (length cs ≡ 8) × (read_hex cs 0 ≡ num)
unfolding printhex print_hex_digits
printhex-read_hex num h = (print_hex_digits 8 num, refl, refl, read_hex-print_hex_digits num h)
