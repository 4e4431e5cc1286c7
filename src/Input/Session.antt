-- ===== src/Input/Session.antt =====
-- A read from its start over all its turns on the processor.
use mathlib.Core.List.{append_cancel_right}
use ze_ospi.Base.{
  ℕ, zero, suc, ◌+◌, ◌-◌, ◌^◌, ◌<◌, ◌≤◌, ◌≡◌, refl, sym, ap, ◌∙◌, List, [], ◌∷◌, ◌++◌,
  length-append, arith, inl, inr, Bool-cases, ltb, ltb→lt, ltb→le, if◌then◌else◌, length, get_or,
}
use ze_ospi.Cbuffer.{CircularBuffer}
use ze_ospi.Cbuffer.Valid.{IsValid}
use ze_ospi.Cbuffer.Refine.{contents}
use ze_ospi.Kernel.{Kernel, KeyboardInfo}
use ze_ospi.Utils.{Memory}
use ze_ospi.Input.{read_on}
use ze_ospi.Input.Progress.{Progress, Turn, read_on-Turn}

get_or-append :
    (xs ys : List ℕ) (i : ℕ)
    → get_or (xs ++ ys) i 0
      ≡ (if ltb i (length xs) then get_or xs i 0 else get_or ys (i - length xs) 0)
get_or-append [] ys i = ground arith
get_or-append (x ∷ xs) ys zero = ground arith
get_or-append (x ∷ xs) ys (suc i) = let rest = get_or-append xs ys i in ground arith

module _ (read base size c : ℕ) where
  -- What task `c` goes through: between two turns others run, who change neither what the kernel
  -- holds of the read nor the caller's block. `keys` is what a turn takes from the front of the buffer;
  -- the list has all that the turns have taken.
  pub data Turns : List ℕ → Kernel → Memory → Type 0 where
    begins :
        {k : Kernel} {m : Memory}
        → (k.task c).kbinfo.keybuffer ≡ base
        → (k.task c).kbinfo.keystoread ≡ size
        → (k.task c).kbinfo.keysread ≡ 0
        → Turns [] k m
    goes_on :
        {xs : List ℕ} {k : Kernel} {m : Memory}
        → Turns xs k m
        → (k1 : Kernel) (m1 : Memory) (keys : List ℕ) → k1.current ≡ c
        → (k1.task c).kbinfo ≡ (k.task c).kbinfo
        → IsValid k1.uart_read_buffer
        → ((a : ℕ) → base ≤ a → a < base + size → m1 a ≡ m a)
        → contents k1.uart_read_buffer
          ≡ keys ++ contents (read_on read k1 m1).kernel.uart_read_buffer
        → Turns (xs ++ keys) (read_on read k1 m1).kernel (read_on read k1 m1).memory

  -- What holds between the turns.
  pub record Delivered (xs : List ℕ) (k : Kernel) (m : Memory) : Type 0 where
    pub progress : Progress base size (k.task c).kbinfo
    pub count : (k.task c).kbinfo.keysread ≡ length xs
    pub bytes : (i : ℕ) → i < length xs → m (base + i) ≡ get_or xs i 0

  extended :
      (xs : List ℕ) (i i' : KeyboardInfo) (cb cb' : CircularBuffer) (m m1 m' : Memory)
      (keys : List ℕ)
      → i.keysread ≡ length xs
      → ((j : ℕ) → j < length xs → m (base + j) ≡ get_or xs j 0)
      → read < base
      → Progress base size i
      → ((a : ℕ) → base ≤ a → a < base + size → m1 a ≡ m a)
      → contents cb ≡ keys ++ contents cb'
      → Turn read base size i cb m1 i' cb' m'
      → (i'.keysread ≡ length (xs ++ keys))
        × ((j : ℕ) → j < length (xs ++ keys) → m' (base + j) ≡ get_or (xs ++ keys) j 0)
  extended xs i i' cb cb' m m1 m' keys count bytes below p others front t =
      let taken : t.keys ≡ keys =
        append_cancel_right t.keys keys (contents cb') (sym t.front ∙ front) in
      let long = length-append xs keys in
      let n = ap length taken in
      let all = t.count in
      let total = t.progress.total in
      (
        omega (arith, all, n, long, count),
        λ j h.
            let now = t.bytes (base + j) (λ e. omega (arith, e)) in
            let both = get_or-append xs keys j in
            elim (Bool-cases (ltb j (length xs))) [
              | inl old ↦
                  let lt = ltb→lt j (length xs) old in
                  let kept = others (base + j) (omega arith) (omega (arith, p.total, count, lt)) in
                  let stands = bytes j lt in grind (arith, count)
              | inr new ↦
                  let ge = ltb→le j (length xs) new in
                  let place : base + j - (base + i.keysread) ≡ j - length xs =
                    omega (arith, count, ge) in
                  let same_keys : get_or t.keys (base + j - (base + i.keysread)) 0
                      ≡ get_or keys (j - length xs) 0 =
                    rw (taken, place) refl in
                  grind (arith, count)
            ],
      )

  Turn-Delivered :
      (xs : List ℕ) (k : Kernel) (m : Memory) (k1 : Kernel) (m1 : Memory) (keys : List ℕ)
      → Delivered xs k m
      → size < 2 ^ 31
      → read < base
      → base + size < 2 ^ 32
      → k1.current ≡ c
      → (k1.task c).kbinfo ≡ (k.task c).kbinfo
      → IsValid k1.uart_read_buffer
      → ((a : ℕ) → base ≤ a → a < base + size → m1 a ≡ m a)
      → contents k1.uart_read_buffer ≡ keys ++ contents (read_on read k1 m1).kernel.uart_read_buffer
      → Delivered (xs ++ keys) (read_on read k1 m1).kernel (read_on read k1 m1).memory
  Turn-Delivered xs k m k1 m1 keys d small below room here same v others front =
      let p : Progress base size (k1.task c).kbinfo = rw same d.progress in
      let r = read_on read k1 m1 in
      let t : Turn read base size (k1.task c).kbinfo k1.uart_read_buffer m1 (r.kernel.task c).kbinfo
          r.kernel.uart_read_buffer r.memory =
        rw (sym here) (read_on-Turn read base size k1 m1 v (rw here p) small below room).0 in
      let (count, bytes) =
        extended xs (k1.task c).kbinfo (r.kernel.task c).kbinfo k1.uart_read_buffer
          r.kernel.uart_read_buffer m m1 r.memory keys (ap (λ i. i.keysread) same ∙ d.count) d.bytes
          below p others front t in
      record { progress = t.progress; count = count; bytes = bytes }

  -- Over any number of turns of a task that reads, all that it has taken from the buffer stands in the
  -- caller's block from its start, in the order in which it came; the reader has counted it, its
  -- pointer stands behind it, and what it has and what it still wants make the size. Between the turns
  -- nobody else is to write to the block, which clones of the task could, or to what the kernel holds of
  -- the read, and the buffer is to be valid at each turn. The size is to be below 2 ^ 31, `read` below
  -- the block, and the block's end below 2 ^ 32.
  pub Turns-Delivered :
      {xs : List ℕ} {k : Kernel} {m : Memory}
      → size < 2 ^ 31
      → read < base
      → base + size < 2 ^ 32
      → Turns xs k m
      → Delivered xs k m
  Turns-Delivered small below room (begins b s z) = record {
    progress = record { pointer = omega (arith, b, z); total = omega (arith, s, z) };
    count = z;
    bytes = λ i h. absurd (omega (arith, h));
  }
  Turns-Delivered small below room (goes_on {xs} {k} {m} t k1 m1 keys here same v others front) =
      Turn-Delivered xs k m k1 m1 keys (Turns-Delivered small below room t) small below room here
        same v others front
