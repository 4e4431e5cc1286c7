-- ===== src/Cbuffer/Refine.antt =====
-- The circular buffer against the queue of the characters that it holds.
use ze_ospi.Base.{
  ℕ, zero, suc, ◌+◌, ◌-◌, ◌≤◌, ◌<◌, ◌≡◌, refl, ap, ◌≢◌, false, List, [], ◌∷◌, ◌++◌, arith, leb,
  ◌==◌, if◌then◌else◌, length, get_or, set, get_or-set_self, get_or-set_ne,
}
use ze_ospi.Cbuffer.{
  CircularBuffer, advance, circularb_is_empty, circularb_num_elements, circularb_write,
  circularb_read,
}
use ze_ospi.Cbuffer.Queue.{Queue, enqueue}
use ze_ospi.Cbuffer.Valid.{used, IsValid}

module _ (buf : List ℕ) (size : ℕ) where
  -- The `n` characters from index `i` on, going round at `size`.
  abbrev pub window : ℕ → ℕ → Queue
  window i zero = []
  window i (suc n) = get_or buf i 0 ∷ window (advance size i) n

  length-window : (i n : ℕ) → length (window i n) ≡ n
  length-window i zero = refl
  length-window i (suc n) = ap suc (length-window (advance size i) n)

  window_of_pos : (i n : ℕ) → 0 < n → window i n ≡ get_or buf i 0 ∷ window (advance size i) (n - 1)
  window_of_pos i zero h = absurd (omega arith)
  window_of_pos i (suc n) h = ap (λ k. get_or buf i 0 ∷ window (advance size i) k) (omega arith)

abbrev pub contents : CircularBuffer → Queue
contents cb = window cb.buffer cb.size cb.start (used cb)

pub length-contents : (cb : CircularBuffer) → length (contents cb) ≡ used cb
length-contents cb = length-window cb.buffer cb.size cb.start (used cb)

-- The index `n` places after `i`.
abbrev place : ℕ → ℕ → ℕ → ℕ
place size i n = if leb size (i + n) then i + n - size else i + n

-- A write just past a window makes it longer by that character.
window-set :
    (buf : List ℕ) (size x n i j : ℕ)
    → size ≤ length buf
    → i < size
    → n < size
    → j ≡ place size i n
    → window (set buf j x) size i (suc n) ≡ window buf size i n ++ x ∷ []
window-set buf size x zero i j hs hi hn e =
    let e' : j ≡ i = ground arith in rw (e', get_or-set_self buf i x 0 (omega arith))
window-set buf size x (suc n) i j hs hi hn e =
    let apart : j ≢ i = ground arith in
    rw (get_or-set_ne buf x 0 apart) (
      ap (λ q. get_or buf i 0 ∷ q)
        (window-set buf size x n (advance size i) j hs (ground arith) (omega arith) (ground arith)))

-- A valid buffer takes a character exactly when fewer than `size - 1` are in it: it reports 0 and
-- puts the character behind the others; a full buffer reports -1 and keeps what it had.
pub circularb_write_refines :
    {cb : CircularBuffer} (x : ℕ)
    → IsValid cb
    → let (r, cb') = circularb_write cb x in
      (r, contents cb') ≡ enqueue (cb.size - 1) (contents cb) x
unfolding circularb_write enqueue
circularb_write_refines {cb} x v = ground (
  arith,
  length-contents cb,
  window-set cb.buffer cb.size x (used cb) cb.start cb.end v.storage v.start_in,
)

-- A valid buffer that is not empty gives up its oldest character and keeps the others in order.
pub circularb_read_refines :
    {cb : CircularBuffer}
    → circularb_is_empty cb ≡ false
    → IsValid cb
    → let (c, cb') = circularb_read cb in contents cb ≡ c ∷ contents cb'
unfolding circularb_read circularb_is_empty
circularb_read_refines {cb} e v = ground (arith, window_of_pos cb.buffer cb.size cb.start (used cb))

-- Of a valid buffer, the element count is the length of the queue and the empty test is a test for
-- the empty queue.
pub circularb_num_elements_refines :
    {cb : CircularBuffer}
    → IsValid cb
    → (circularb_num_elements cb ≡ length (contents cb))
      × (circularb_is_empty cb ≡ (length (contents cb) == 0))
unfolding circularb_num_elements circularb_is_empty
circularb_num_elements_refines {cb} v = ground (arith, length-contents cb)
