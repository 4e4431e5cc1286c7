-- ===== src/Devices/Bits.antt =====
-- Fields of three bits and single bits in a word.
use ze_ospi.Base.{ℕ, zero, suc, ◌+◌, ◌*◌, ◌/◌, ◌%◌, ◌^◌, ◌<◌, ◌≡◌, arith}
use ze_ospi.Devices.{with_bits}

-- A field that is set: it reads as what was set, and neither the bits above nor those below change.
abbrev pub HasField : (offset func word : ℕ) → Type 0
HasField offset func word =
    let word' = with_bits offset func word in
    (word' / 2 ^ offset % 8 ≡ func)
    × (word' / 2 ^ (offset + 3) ≡ word / 2 ^ (offset + 3))
    × (word' % 2 ^ offset ≡ word % 2 ^ offset)

pub with_bits-HasField : (i func word : ℕ) → i < 10 → func < 8 → HasField (i * 3) func word
with_bits-HasField zero func word h b = omega arith
with_bits-HasField (suc zero) func word h b = omega arith
with_bits-HasField (suc (suc zero)) func word h b = omega arith
with_bits-HasField (suc (suc (suc zero))) func word h b = omega arith
with_bits-HasField (suc (suc (suc (suc zero)))) func word h b = omega arith
with_bits-HasField (suc (suc (suc (suc (suc zero))))) func word h b = omega arith
with_bits-HasField (suc (suc (suc (suc (suc (suc zero)))))) func word h b = omega arith
with_bits-HasField (suc (suc (suc (suc (suc (suc (suc zero))))))) func word h b = omega arith
with_bits-HasField (suc (suc (suc (suc (suc (suc (suc (suc zero)))))))) func word h b = omega arith
with_bits-HasField (suc (suc (suc (suc (suc (suc (suc (suc (suc zero))))))))) func word h b =
    omega arith
with_bits-HasField (suc (suc (suc (suc (suc (suc (suc (suc (suc (suc i)))))))))) func word h b =
    absurd (omega arith)
