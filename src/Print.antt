-- ===== src/Print.antt =====
-- io.c: printing. The result is the list of the bytes that `printc` sends, in their order.
pub mod Decimal
pub mod Hex
use ze_ospi.Base.{
  ℕ, zero, suc, ◌+◌, ◌-◌, ◌*◌, ◌/◌, ◌%◌, ◌^◌, List, [], ◌∷◌, true, false, ltb, ◌==◌, if◌then◌else◌,
}

-- The first loop of `printint`: the number of digits and the number with its digits reversed. Ten
-- rounds are enough for a number below 2 ^ 32.
unfoldable pub reverse_digits : (rounds num xifres reversed : ℕ) → ℕ × ℕ
reverse_digits zero num xifres reversed = (xifres, reversed)
reverse_digits (suc n) num xifres reversed = elim (num == 0) [
  | true ↦ (xifres, reversed)
  | false ↦ reverse_digits n (num / 10) (xifres + 1) ((reversed * 10 + num % 10) % 2 ^ 32)
]

-- The second loop.
unfoldable pub print_digits : (xifres reversed : ℕ) → List ℕ
print_digits zero reversed = []
print_digits (suc n) reversed = (reversed % 10 + 48) ∷ print_digits n (reversed / 10)

unfoldable pub printint : ℕ → List ℕ
printint num =
    if num == 0
    then 48 ∷ []
    else (let (xifres, reversed) = reverse_digits 10 num 0 0 in print_digits xifres reversed)

abbrev pub hex_digit : ℕ → ℕ
hex_digit value = if ltb value 10 then value + 48 else value + 65 - 10

-- The loop of `printhex`, over the shifts 28, 24, …, 0 as `n` = 8, …, 1.
unfoldable pub print_hex_digits : (n num : ℕ) → List ℕ
print_hex_digits zero num = []
print_hex_digits (suc n) num = hex_digit (num / 16 ^ n % 16) ∷ print_hex_digits n num

unfoldable pub printhex : ℕ → List ℕ
printhex num = 48 ∷ 120 ∷ print_hex_digits 8 num
