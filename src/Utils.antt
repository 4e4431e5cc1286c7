-- ===== src/Utils.antt =====
-- utils.c: the check of user pointers and the three copy routines.
pub mod Access
pub mod Copy
use ze_ospi.Base.{
  ℕ, zero, suc, ◌+◌, ◌-◌, ◌/◌, ◌%◌, ◌^◌, Bool, true, false, ◌&&◌, ltb, leb, ◌==◌, if◌then◌else◌, ℤ,
  pos,
}

-- include/utils.h
abbrev pub verify_read : ℕ
verify_read = 0

abbrev pub verify_write : ℕ
verify_write = 1

-- include/mm_address.h: `L_USER_START >> 12`, and the pages of code and data.
abbrev pub user_first_page : ℕ
user_first_page = 0x100

abbrev pub num_pag_code : ℕ
num_pag_code = 8

abbrev pub num_pag_data : ℕ
num_pag_data = 20

-- The `switch`: the case for writing has no `break`, so it goes on to the default.
unfoldable pub access_ok : ℕ → ℕ → ℕ → ℕ
access_ok type addr size =
    let addr_ini = addr / 2 ^ 12 in
    let addr_fin = (addr + size) % 2 ^ 32 / 2 ^ 12 in
    let last = user_first_page + num_pag_code + num_pag_data in
    if type == verify_write && (leb (user_first_page + num_pag_code) addr_ini && leb addr_fin last)
    then 1
    else if leb user_first_page addr_ini && leb addr_fin last
    then 1
    else 0

-- Memory by bytes.
abbrev pub Memory : Type 0
Memory = ℕ → ℕ

-- `*q = *p` for `n` bytes at once: the source is read before the target is written. The bytes of a word
-- stand behind each other: no word lies across the end of the addresses.
abbrev pub move : ℕ → ℕ → ℕ → Memory → Memory
move n p q m a = if leb q a && ltb a (q + n) then m (p + (a - q)) else m a

-- `p`, `q`, `size` and the memory. The pointers wrap.
pub record Copying : Type 0 where
  pub from : ℕ
  pub to : ℕ
  pub size : ℕ
  pub memory : Memory

-- `while (size > 4) { *q++ = *p++; size -= 4; }` over words of four bytes.
copy_words : ℕ → Copying → Copying
copy_words zero s = s
copy_words (suc fuel) s = elim (ltb 4 s.size) [
  | true ↦ copy_words fuel (record {
    from = (s.from + 4) % 2 ^ 32;
    to = (s.to + 4) % 2 ^ 32;
    size = s.size - 4;
    memory = move 4 s.from s.to s.memory;
  })
  | false ↦ s
]

-- `while (size > 0) { *q1++ = *p1++; size--; }`
copy_bytes : ℕ → Copying → Copying
copy_bytes zero s = s
copy_bytes (suc fuel) s = elim (ltb 0 s.size) [
  | true ↦ copy_bytes fuel (record {
    from = (s.from + 1) % 2 ^ 32;
    to = (s.to + 1) % 2 ^ 32;
    size = s.size - 1;
    memory = move 1 s.from s.to s.memory;
  })
  | false ↦ s
]

-- Each loop makes at most `size` rounds. A negative `size` copies nothing, as 0 does.
pub copy_data : (start dest size : ℕ) → Memory → Memory
copy_data start dest size m =
    let s : Copying = record { from = start; to = dest; size = size; memory = m } in
    (copy_bytes size (copy_words size s)).memory

-- The same body, which returns 0.
pub copy_from_user : (start dest size : ℕ) → Memory → ℤ × Memory
copy_from_user start dest size m =
    let s : Copying = record { from = start; to = dest; size = size; memory = m } in
    (pos 0, (copy_bytes size (copy_words size s)).memory)

pub copy_to_user : (start dest size : ℕ) → Memory → ℤ × Memory
copy_to_user start dest size m =
    let s : Copying = record { from = start; to = dest; size = size; memory = m } in
    (pos 0, (copy_bytes size (copy_words size s)).memory)
