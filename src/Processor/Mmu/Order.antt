-- ===== src/Processor/Mmu/Order.antt =====
-- The order in which the memory unit is told of tables and of stale entries.
use ze_ospi.Base.{
  ℕ, ◌/◌, ◌%◌, ◌^◌, ◌≡◌, refl, arith, List, [], ◌∷◌, Bool, true, false, not, ◌&&◌, ◌||◌, ◌==◌,
  if◌then◌else◌,
}
use ze_ospi.Processor.Mmu.{
  Register, reg, same, control_reg, ttb0, ttb1, invalidate_tlb, invalidate_caches, Write,
  Coprocessor, mrc, set_bit, clear_bit, enable_icache, disable_icache, set_coprocessor_reg_mmu,
  mmu_change_dir, start_mmu,
}

-- What the translation buffer may hold: nothing, or entries of the tables at `base`, or those of
-- others too.
pub record Watch : Type 0 where
  -- The unit translates.
  pub on : Bool
  -- Entries of other tables than the present may be in the buffer.
  pub stale : Bool
  -- The unit has never begun to translate with such entries.
  pub sound : Bool

abbrev pub watch_write : Write → Watch → Watch
watch_write w s =
    let table = same w.register ttb0 || same w.register ttb1 in
    let on = if same w.register control_reg then w.value % 2 == 1 else s.on in
    let stale = if same w.register invalidate_tlb then false else s.stale || table in
    record { on = on; stale = stale; sound = not (stale && (on && not s.on)) && s.sound }

abbrev pub watch : Watch → List Write → Watch
watch s [] = s
watch s (w ∷ ws) = watch_write w (watch s ws)

-- The tables are those of `dir` after a change of the directory, no entry of others is left, and a
-- register other than those of the two tables and of the two operations that empty the caches and the buffer
-- holds what it held.
mmu_change_dir_lem :
    (dir : ℕ) (c : Coprocessor) (s : Watch) (r : Register)
    → let c' = mmu_change_dir dir c in
      same ttb0 r ≡ false
      → same ttb1 r ≡ false
      → same invalidate_caches r ≡ false
      → same invalidate_tlb r ≡ false
      → (mrc ttb0 c' ≡ dir)
        × (mrc ttb1 c' ≡ dir)
        × ((watch s c'.writes).stale ≡ false)
        × ((watch s c'.writes).on ≡ (watch s c.writes).on)
        × (mrc r c' ≡ mrc r c)
unfolding mmu_change_dir
mmu_change_dir_lem dir c s r n0 n1 nc nt = (refl, refl, refl, refl, rw (n0, n1, nc, nt) refl)

-- However the translation begins: the unit is on, with the extended tables and the instruction cache,
-- over the tables at `ttb`, it has no entry of others when it goes on, and the base of the exceptions stays. Of
-- what the control register held before nothing is left: its other bits are those of `chosen`. The unit is to
-- be off before.
pub start_mmu_lem :
    (ttb chosen : ℕ) (c : Coprocessor) (s : Watch)
    → let c' = start_mmu ttb chosen c in
      let before = watch s c.writes in
      let after = watch s c'.writes in
      mrc control_reg c % 2 ≡ 0
      → before.on ≡ false
      → before.sound ≡ true
      → (mrc ttb0 c' ≡ ttb)
        × (mrc ttb1 c' ≡ ttb)
        × (mrc control_reg c' ≡ set_bit 12 (set_bit 0 (set_bit 23 chosen)))
        × (mrc control_reg c' % 2 ≡ 1)
        × (mrc control_reg c' / 2 ^ 12 % 2 ≡ 1)
        × (mrc control_reg c' / 2 ^ 23 % 2 ≡ 1)
        × (mrc (reg 0 12 0 0) c' ≡ mrc (reg 0 12 0 0) c)
        × (after.on ≡ true)
        × (after.stale ≡ false)
        × (after.sound ≡ true)
unfolding start_mmu set_coprocessor_reg_mmu enable_icache disable_icache
start_mmu_lem ttb chosen c s off on sound =
    let still_off : (clear_bit 12 (mrc control_reg c) % 2 == 1) ≡ false = ground (arith, off) in
    (
      refl,
      refl,
      refl,
      omega arith,
      omega arith,
      omega arith,
      refl,
      ground arith,
      refl,
      ground (arith, on, sound, still_off),
    )
