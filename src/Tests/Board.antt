-- ===== src/Tests/Board.antt =====
-- The theorems on the devices and on strings, at concrete inputs.
use ze_ospi.Base.{ℕ, ◌<◌, ◌≤◌, ◌≡◌, arith, pos, negsuc}
use ze_ospi.Text.{itoa, strlen}
use ze_ospi.Text.Number.{read_number, itoa-read_number}

itoa-read_number_example :
    let b' = itoa (pos 2014) (λ _. 7) in
    let n = strlen 11 0 b' in
    (read_number b' n ≡ 2014)
    × ((k : ℕ) → k < n → (48 ≤ b' k) × (b' k < 58))
    × (b' n ≡ 0)
    × (48 < b' 0)
    × ((m : ℕ) → strlen 11 0 (itoa (negsuc m) (λ _. 7)) ≡ 0)
itoa-read_number_example = itoa-read_number 2014 (λ _. 7) (omega arith) (omega arith)
