-- ===== src/Cbuffer.antt =====
-- include/cbuffer.h: the circular buffer of characters that the UART interrupt fills and the
-- read system call drains. One slot always stays free, so that a full buffer differs from an
-- empty one. `int` fields are their bit patterns below 2 ^ 32.
pub mod Queue
pub mod Valid
pub mod Refine
use ze_ospi.Base.{
  ℕ, ◌+◌, ◌-◌, ◌%◌, ◌^◌, Bool, List, leb, ◌==◌, if◌then◌else◌, get_or, set, ℤ, pos, negsuc,
}

pub record CircularBuffer : Type 0 where
  pub start : ℕ
  pub end : ℕ
  pub size : ℕ
  pub numelem : ℕ
  pub buffer : List ℕ

-- `buf` is the storage that the caller provides.
pub circularb_init : List ℕ → ℕ → CircularBuffer
circularb_init buf size = record { start = 0; end = 0; size = size; numelem = 0; buffer = buf }

-- It leaves `numelem` as it was.
pub circularb_free : CircularBuffer → CircularBuffer
circularb_free cb = record cb { start = 0; end = 0 }

-- The "mod operation" of the source, `(aux + 1 >= size) ? (aux + 1) - size : aux + 1`.
abbrev pub advance : ℕ → ℕ → ℕ
advance size aux = if leb size (aux + 1) then aux + 1 - size else aux + 1

pub circularb_is_full : CircularBuffer → Bool
circularb_is_full cb = advance cb.size cb.end == cb.start

pub circularb_num_elements : CircularBuffer → ℕ
circularb_num_elements cb = cb.numelem

unfoldable pub circularb_is_empty : CircularBuffer → Bool
circularb_is_empty cb = cb.end == cb.start

pub circularb_write : CircularBuffer → ℕ → ℤ × CircularBuffer
unfolding circularb_is_full
circularb_write cb element = if circularb_is_full cb then (negsuc 0, cb) else (
  pos 0,
  record cb {
    buffer = set cb.buffer cb.end element;
    end = advance cb.size cb.end;
    numelem = (cb.numelem + 1) % 2 ^ 32;
  },
)

-- The character read and the buffer after the read; there is no test for an empty buffer.
unfoldable pub circularb_read : CircularBuffer → ℕ × CircularBuffer
circularb_read cb = (
  get_or cb.buffer cb.start 0,
  record cb { start = advance cb.size cb.start; numelem = (cb.numelem + 2 ^ 32 - 1) % 2 ^ 32 },
)
