-- ===== src/Base/Loops.antt =====
-- Counted loops, and what one leaves in an array when each round writes one place.
use Prim.Native.Nat.{ℕ, zero, suc, ◌+◌}
use mathlib.Core.Path.{◌≡◌}
use mathlib.Core.Bool.{◌&&◌}
use native.Mathlib.Omega.{arith}
use ze_ospi.Base.Tests.{ltb, leb, ◌==◌, if◌then◌else◌}

-- `for (i = lo; i < lo + n; i++) s = step(i, s);`
unfoldable pub count_up {ℓ} : {S : Type ℓ} → ℕ → ℕ → (ℕ → S → S) → S → S
count_up zero lo step s = s
count_up (suc n) lo step s = count_up n (lo + 1) step (step lo s)

module _ {ℓ} {S A : Type ℓ} (look : S → ℕ → A) (value : ℕ → A → A) (step : ℕ → S → S)
    (writes : (i : ℕ) (s : S) (j : ℕ)
      → look (step i s) j ≡ (if i == j then value j (look s j) else look s j)) where
  -- Place `i` is written in round `i` only.
  pub look-count_up :
      (n lo : ℕ) (s : S) (j : ℕ)
      → look (count_up n lo step s) j
        ≡ (if leb lo j && ltb j (lo + n) then value j (look s j) else look s j)
  unfolding count_up
  look-count_up zero lo s j = ground arith
  look-count_up (suc n) lo s j =
      ground (arith, look-count_up n (lo + 1) (step lo s) j, writes lo s j)
