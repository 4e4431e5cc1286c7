-- ===== src/Processor.antt =====
-- hardware.c: the banked stacks and the way into user mode, as instructions on the processor. The
-- operands %0 and %1 of the inline assembly are in registers that the compiler chooses.
pub mod Gate
pub mod Mmu
use ze_ospi.Base.{ℕ, ◌+◌, ◌-◌, ◌*◌, ◌/◌, ◌%◌, ◌^◌, List, [], ◌∷◌, ◌==◌, if◌then◌else◌}
use ze_ospi.Utils.{num_pag_code, num_pag_data}
use ze_ospi.Kernel.{add32, sub32}

pub data Operand : Type 0 where
  op0 op1 r0 : Operand

-- The modes, as the lowest five bits of the status word have them.
abbrev pub usr : ℕ
usr = 0x10

abbrev pub fiq : ℕ
fiq = 0x11

abbrev pub irq : ℕ
irq = 0x12

abbrev pub svc : ℕ
svc = 0x13

abbrev pub abt : ℕ
abt = 0x17

abbrev pub und : ℕ
und = 0x1B

abbrev pub sys : ℕ
sys = 0x1F

pub record Processor : Type 0 where
  -- The status word: its lowest five bits, and those above.
  pub mode : ℕ
  pub flags : ℕ
  pub pc : ℕ
  pub operand0 : ℕ
  pub operand1 : ℕ
  pub scratch : ℕ
  -- The stack pointer and the link register of each mode.
  pub sp : ℕ → ℕ
  pub lr : ℕ → ℕ
  -- The words of the memory.
  pub word : ℕ → ℕ

abbrev pub cpsr : Processor → ℕ
cpsr p = p.flags * 2 ^ 5 + p.mode

-- User mode has the registers of the system mode.
abbrev pub bank : ℕ → ℕ
bank m = if m == usr then sys else m

abbrev pub operand : Operand → Processor → ℕ
operand op0 p = p.operand0
operand op1 p = p.operand1
operand r0 p = p.scratch

abbrev pub with_operand : Operand → ℕ → Processor → Processor
with_operand op0 v p = record p { operand0 = v }
with_operand op1 v p = record p { operand1 = v }
with_operand r0 v p = record p { scratch = v }

abbrev pub put_at_mode : (ℕ → ℕ) → ℕ → ℕ → ℕ → ℕ
put_at_mode f i v j = if i == j then v else f j

-- The stack pointer that `sp` is in the present mode.
abbrev pub top : Processor → ℕ
top p = p.sp (bank p.mode)

abbrev pub with_top : ℕ → Processor → Processor
with_top v p = record p { sp = put_at_mode p.sp (bank p.mode) v }

-- `bic` with 131, which clears the bits 7, 1 and 0.
abbrev pub clear_131 : ℕ → ℕ
clear_131 w = w - w / 2 ^ 7 % 2 * 2 ^ 7 - w % 4

-- The instructions that hardware.c uses.
pub data Instruction : Type 0 where
  cps : (mode : ℕ) → Instruction
  mov_sp mov_lr : Operand → Instruction
  clear_lr : Instruction
  sub : (to from : Operand) (k : ℕ) → Instruction
  mrs bic_131 push : Operand → Instruction
  rfeia : Instruction

-- `cps` does nothing in user mode.
unfoldable pub execute : Instruction → Processor → Processor
execute (cps m) p = if p.mode == usr then p else record p { mode = m }
execute (mov_sp o) p = with_top (operand o p) p
execute (mov_lr o) p = record p { lr = put_at_mode p.lr (bank p.mode) (operand o p) }
execute clear_lr p = record p { lr = put_at_mode p.lr (bank p.mode) 0 }
execute (sub to from k) p = with_operand to (sub32 (operand from p) k) p
execute (mrs o) p = with_operand o (cpsr p) p
execute (bic_131 o) p = with_operand o (clear_131 (operand o p)) p
execute (push o) p =
    let a = sub32 (top p) 4 in with_top a (record p { word = put_at_mode p.word a (operand o p) })
execute rfeia p =
    let a = top p in
    let w = p.word (add32 a 4) in
    record (with_top (add32 a 8) p) { pc = p.word a; mode = w % 2 ^ 5; flags = w / 2 ^ 5 }

unfoldable pub execute_all : List Instruction → Processor → Processor
execute_all [] p = p
execute_all (i ∷ is) p = execute_all is (execute i p)

unfoldable pub set_worlds_stacks : (stack : ℕ) → Processor → Processor
set_worlds_stacks stack p =
    execute_all
      (sub r0 op0 0x500
        ∷ cps fiq
        ∷ mov_sp r0
        ∷ clear_lr
        ∷ cps irq
        ∷ mov_sp r0
        ∷ clear_lr
        ∷ sub r0 op0 0x200
        ∷ cps sys
        ∷ mov_sp r0
        ∷ clear_lr
        ∷ sub r0 op0 0x200
        ∷ cps abt
        ∷ mov_sp r0
        ∷ clear_lr
        ∷ cps und
        ∷ mov_sp r0
        ∷ clear_lr
        ∷ cps svc
        ∷ [])
      (record p { operand0 = stack })

-- include/mm_address.h
abbrev pub l_user_start : ℕ
l_user_start = 0x100000

abbrev pub user_sp : ℕ
user_sp = l_user_start + (num_pag_code + num_pag_data) * 0x1000 - 0x10

unfoldable pub return_gate : (sp pc : ℕ) → Processor → Processor
return_gate sp pc p =
    execute_all
      (cps sys
        ∷ mov_sp op0
        ∷ mov_lr op1
        ∷ cps svc
        ∷ mrs op0
        ∷ bic_131 op0
        ∷ push op0
        ∷ push op1
        ∷ rfeia
        ∷ [])
      (record p { operand0 = sp; operand1 = pc })
