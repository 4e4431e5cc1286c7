-- ===== src/Processor/Gate.antt =====
-- The stacks of the modes, and the entry into user mode.
use ze_ospi.Base.{
  ℕ, ◌+◌, ◌-◌, ◌*◌, ◌/◌, ◌%◌, ◌^◌, ◌<◌, ◌≤◌, ◌≡◌, refl, ◌==◌, ◌||◌, if◌then◌else◌, arith, Bool, ◌≢◌,
  ◌∙◌, false,
}
use ze_ospi.Kernel.{sub32, add32}
use ze_ospi.Processor.{
  Processor, usr, fiq, irq, svc, abt, und, sys, bank, execute, execute_all, set_worlds_stacks,
  return_gate, user_sp, l_user_start,
}

-- The modes that operand a stack, by the distance of the stack from the top.
abbrev pub is_far : ℕ → Bool
is_far m = m == fiq || m == irq

abbrev pub is_near : ℕ → Bool
is_near m = m == sys || (m == abt || m == und)

pub set_worlds_stacks_lem :
    (stack : ℕ) (p : Processor) (m : ℕ)
    → let p' = set_worlds_stacks stack p in
      p.mode ≡ svc
      → 0x500 ≤ stack
      → stack < 2 ^ 32
      → (p'.mode ≡ svc)
        × (p'.flags ≡ p.flags)
        × (p'.sp m
            ≡ (if is_far m then stack - 0x500 else if is_near m then stack - 0x200 else p.sp m))
        × (p'.lr m ≡ (if is_far m || is_near m then 0 else p.lr m))
unfolding set_worlds_stacks execute_all execute
set_worlds_stacks_lem stack p m s big small = rw s (refl, refl, ground arith, ground arith)

-- `pc` and the status word go over the stack.
return_gate_lem :
    (sp pc : ℕ) (p : Processor) (m : ℕ)
    → let p' = return_gate sp pc p in
      p.mode ≡ svc
      → 8 ≤ p.sp svc
      → p.sp svc < 2 ^ 32
      → (p'.pc ≡ pc)
        × (p'.mode ≡ usr)
        × (p'.flags + p.flags / 4 % 2 * 4 ≡ p.flags)
        × (p'.sp m ≡ (if m == sys then sp else p.sp m))
        × (p'.lr m ≡ (if m == sys then pc else p.lr m))
unfolding return_gate execute_all execute
return_gate_lem sp pc p m s big small =
    let first : sub32 (p.sp svc) 4 ≡ p.sp svc - 4 = omega arith in
    let second : sub32 (p.sp svc - 4) 4 ≡ p.sp svc - 8 = omega arith in
    let above : add32 (p.sp svc - 8) 4 ≡ p.sp svc - 4 = omega arith in
    let back : add32 (p.sp svc - 8) 8 ≡ p.sp svc = omega arith in
    let apart : (p.sp svc - 4 == p.sp svc - 8) ≡ false = ground arith in
    rw (s, first, second, above, back, apart)
      (ground arith, ground arith, ground arith, ground arith, ground arith)

-- From the first instructions of `main` to its last one: the processor runs the user's code at its
-- first address, in user mode, with interrupts on and the user's stack below the end of its pages. The
-- stack of the kernel is where it was before, the one for interrupts lies 0x500 below the top, and those for
-- the aborts 0x200. What runs in between is to leave the stacks of the other modes alone, and to end in the
-- kernel's mode.
pub enter_user :
    (stack : ℕ) (p q : Processor)
    → let u = return_gate user_sp l_user_start q in
      p.mode ≡ svc
      → 0x500 ≤ stack
      → stack < 2 ^ 32
      → q.mode ≡ svc
      → 8 ≤ q.sp svc
      → q.sp svc < 2 ^ 32
      → ((m : ℕ) → m ≢ svc → q.sp m ≡ (set_worlds_stacks stack p).sp m)
      → (u.pc ≡ 0x100000)
        × (u.mode ≡ usr)
        × (u.flags / 4 % 2 ≡ 0)
        × (u.sp (bank usr) ≡ 0x11BFF0)
        × (u.sp irq ≡ stack - 0x500)
        × (u.sp abt ≡ stack - 0x200)
        × (u.sp und ≡ stack - 0x200)
        × (u.sp svc ≡ q.sp svc)
enter_user stack p q s big small s' room small' kept =
    let (_, _, at_irq, _) = set_worlds_stacks_lem stack p irq s big small in
    let (_, _, at_abt, _) = set_worlds_stacks_lem stack p abt s big small in
    let (_, _, at_und, _) = set_worlds_stacks_lem stack p und s big small in
    let (at, user, on, usp, _) = return_gate_lem user_sp l_user_start q sys s' room small' in
    let (_, _, _, isp, _) = return_gate_lem user_sp l_user_start q irq s' room small' in
    let (_, _, _, asp, _) = return_gate_lem user_sp l_user_start q abt s' room small' in
    let (_, _, _, unp, _) = return_gate_lem user_sp l_user_start q und s' room small' in
    let (_, _, _, ksp, _) = return_gate_lem user_sp l_user_start q svc s' room small' in
    (
      at,
      user,
      omega (arith, on),
      usp,
      isp ∙ kept irq (λ e. omega (arith, e)) ∙ at_irq,
      asp ∙ kept abt (λ e. omega (arith, e)) ∙ at_abt,
      unp ∙ kept und (λ e. omega (arith, e)) ∙ at_und,
      ksp,
    )
