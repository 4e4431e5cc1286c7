-- ===== src/Cbuffer/Valid.antt =====
-- The representation invariant of the circular buffer.
use ze_ospi.Base.{
  ℕ, ◌+◌, ◌-◌, ◌^◌, ◌≤◌, ◌<◌, ◌≡◌, true, false, List, arith, leb, if◌then◌else◌, length, length-set,
}
use ze_ospi.Cbuffer.{
  CircularBuffer, circularb_init, circularb_is_empty, circularb_write, circularb_read,
}

-- The number of characters between `start` and `end`, going round at `size`.
abbrev pub used : CircularBuffer → ℕ
used cb = if leb cb.start cb.end then cb.end - cb.start else cb.end + cb.size - cb.start

pub record IsValid (cb : CircularBuffer) : Type 0 where
  pub storage : cb.size ≤ length cb.buffer
  pub small : cb.size < 2 ^ 31
  pub start_in : cb.start < cb.size
  pub end_in : cb.end < cb.size
  pub counted : cb.numelem ≡ used cb

pub used-lt-size : {cb : CircularBuffer} → IsValid cb → used cb < cb.size
used-lt-size v = ground arith

pub init-IsValid :
    (buf : List ℕ) (size : ℕ)
    → 0 < size
    → size < 2 ^ 31
    → size ≤ length buf
    → IsValid (circularb_init buf size)
unfolding circularb_init
init-IsValid buf size h k l = ground arith

pub write-IsValid : {cb : CircularBuffer} (x : ℕ) → IsValid cb → IsValid (circularb_write cb x).1
unfolding circularb_write
write-IsValid {cb} x v = ground (arith, length-set cb.buffer cb.end x)

pub read-IsValid :
    {cb : CircularBuffer}
    → circularb_is_empty cb ≡ false
    → IsValid cb
    → IsValid (circularb_read cb).1
unfolding circularb_read circularb_is_empty
read-IsValid e v = ground arith

pub is_empty-used : {cb : CircularBuffer} → IsValid cb → circularb_is_empty cb ≡ true → used cb ≡ 0
unfolding circularb_is_empty
is_empty-used v e = ground arith
