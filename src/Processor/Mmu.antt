-- ===== src/Processor/Mmu.antt =====
-- mm.c: what the memory unit is told, as the writes to the registers of coprocessor 15 in their
-- order. A register is named by the four numbers of the instructions mcr and mrc.
pub mod Order
use ze_ospi.Base.{
  ℕ, ◌+◌, ◌*◌, ◌/◌, ◌%◌, ◌^◌, ◌-◌, List, [], ◌∷◌, ◌++◌, ◌==◌, ◌&&◌, if◌then◌else◌, Bool,
}

pub record Register : Type 0 where
  pub op1 : ℕ
  pub crn : ℕ
  pub crm : ℕ
  pub op2 : ℕ

abbrev pub reg : (op1 crn crm op2 : ℕ) → Register
reg op1 crn crm op2 = record { op1 = op1; crn = crn; crm = crm; op2 = op2 }

abbrev pub same : Register → Register → Bool
same r s = r.op1 == s.op1 && (r.crn == s.crn && (r.crm == s.crm && r.op2 == s.op2))

abbrev pub control_reg : Register
control_reg = reg 0 1 0 0

abbrev pub ttb0 : Register
ttb0 = reg 0 2 0 0

abbrev pub ttb1 : Register
ttb1 = reg 0 2 0 1

-- A write of 0 here empties both caches, or the translation buffer.
abbrev pub invalidate_caches : Register
invalidate_caches = reg 0 7 7 0

abbrev pub invalidate_tlb : Register
invalidate_tlb = reg 0 8 7 0

abbrev pub flush_prefetch : Register
flush_prefetch = reg 0 7 5 4

pub record Write : Type 0 where
  pub register : Register
  pub value : ℕ

abbrev pub mcr : Register → ℕ → Write
mcr r v = record { register = r; value = v }

-- The writes so far, the last one first, and what the registers held before them.
pub record Coprocessor : Type 0 where
  pub before : Register → ℕ
  pub writes : List Write

abbrev pub writing : List Write → Coprocessor → Coprocessor
writing [] c = c
writing (w ∷ ws) c = writing ws (record c { writes = w ∷ c.writes })

abbrev pub last_of : (Register → ℕ) → Register → List Write → ℕ
last_of before r [] = before r
last_of before r (w ∷ ws) = if same w.register r then w.value else last_of before r ws

abbrev pub mrc : Register → Coprocessor → ℕ
mrc r c = last_of c.before r c.writes

-- `ORR` and `BIC` of one bit.
abbrev pub set_bit : (n w : ℕ) → ℕ
set_bit n w = w - w / 2 ^ n % 2 * 2 ^ n + 2 ^ n

abbrev pub clear_bit : (n w : ℕ) → ℕ
clear_bit n w = w - w / 2 ^ n % 2 * 2 ^ n

unfoldable pub enable_icache : Coprocessor → Coprocessor
enable_icache c = writing (mcr control_reg (set_bit 12 (mrc control_reg c)) ∷ []) c

unfoldable pub disable_icache : Coprocessor → Coprocessor
disable_icache c = writing (mcr control_reg (clear_bit 12 (mrc control_reg c)) ∷ []) c

-- `ttb` is the address `&fl_ptable[1][ENTRY_DIR_PAGES]`.
unfoldable pub set_coprocessor_reg_mmu : (ttb : ℕ) → Coprocessor → Coprocessor
set_coprocessor_reg_mmu ttb = writing (
    mcr (reg 0 1 1 2) 0
    ∷ mcr ttb0 ttb
    ∷ mcr ttb1 ttb
    ∷ mcr (reg 0 2 0 2) 0
    ∷ mcr (reg 0 3 0 0) 0xFFFFFFFF
    ∷ mcr (reg 0 10 0 0) 0
    ∷ mcr (reg 0 10 2 0) 0x98AA4
    ∷ mcr (reg 0 10 2 1) 0x44E048E0
    ∷ mcr (reg 0 13 0 0) 0
    ∷ mcr (reg 0 13 0 1) 0
    ∷ mcr (reg 0 15 2 4) 0
    ∷ mcr (reg 5 15 4 2) 0
    ∷ mcr (reg 5 15 5 2) 0
    ∷ mcr (reg 5 15 6 2) 0
    ∷ mcr (reg 5 15 7 2) 0
    ∷ [])

unfoldable pub mmu_change_dir : (dir : ℕ) → Coprocessor → Coprocessor
mmu_change_dir dir =
    writing (mcr ttb0 dir ∷ mcr ttb1 dir ∷ mcr invalidate_caches 0 ∷ mcr invalidate_tlb 0 ∷ [])

-- The end of `set_vitual_to_phsycial`, behind the change of the tables.
unfoldable pub flush_remapped : Coprocessor → Coprocessor
flush_remapped = writing (
    mcr flush_prefetch 0
    ∷ mcr (reg 0 7 6 0) 0
    ∷ mcr invalidate_caches 0
    ∷ mcr invalidate_tlb 0
    ∷ [])

-- include/types.h, `ctrl_reg`: the bits M and XP.
abbrev pub ctrl_m : ℕ
ctrl_m = 0

abbrev pub ctrl_xp : ℕ
ctrl_xp = 23

-- `init_mm` without the tables. What should read the control register is an `mcr` too: it writes
-- `chosen`, which is what the register that the compiler chooses for `creg` holds.
unfoldable pub start_mmu : (ttb chosen : ℕ) → Coprocessor → Coprocessor
start_mmu ttb chosen c =
    let off = disable_icache (set_coprocessor_reg_mmu ttb c) in
    enable_icache (
      writing
        (mcr invalidate_caches 0
          ∷ mcr invalidate_tlb 0
          ∷ mcr flush_prefetch 0
          ∷ mcr control_reg chosen
          ∷ mcr control_reg (set_bit ctrl_m (set_bit ctrl_xp chosen))
          ∷ mcr invalidate_caches 0
          ∷ [])
        off)

-- interrupt.c; `base` is the address of the vector.
unfoldable pub set_exception_base : (base : ℕ) → Coprocessor → Coprocessor
set_exception_base base = writing (mcr (reg 0 12 0 0) base ∷ [])
