-- ===== src/Devices/Pins.antt =====
-- The functions of the pins, and the interrupts of the peripherals.
use ze_ospi.Base.{
  ℕ, ◌+◌, ◌-◌, ◌*◌, ◌/◌, ◌%◌, ◌^◌, ◌<◌, ◌≤◌, ◌≡◌, refl, ap, ◌≢◌, arith, false, ltb, ◌==◌, ◌&&◌,
  if◌then◌else◌, eq→==, inl, inr, Bool-cases,
}
use ze_ospi.Devices.{
  RegisterMap, load, gpio_base, irq_base, gpio_set_func, enable_interrupt_peripheral,
  disable_interrupt_peripheral,
}
use ze_ospi.Devices.Bits.{with_bits-HasField}

-- `gpio_set_func` sets the three bits of a pin up to 53 in that pin's register to the given code. The
-- other bits of the register, which belong to other pins, and all other registers stay as they were.
pub gpio_set_func_lem :
    (pin func : ℕ) (r : RegisterMap)
    → pin ≤ 53
    → func < 8
    → let r' = gpio_set_func pin func r in
      let reg = gpio_base + pin / 10 * 4 in
      let at = pin % 10 * 3 in
      (load reg r' / 2 ^ at % 8 ≡ func)
      × (load reg r' / 2 ^ (at + 3) ≡ load reg r / 2 ^ (at + 3))
      × (load reg r' % 2 ^ at ≡ load reg r % 2 ^ at)
      × ((a : ℕ) → a ≢ reg → load a r' ≡ load a r)
unfolding gpio_set_func
gpio_set_func_lem pin func r h b =
    let reg = gpio_base + pin / 10 * 4 in
    let ok : ltb 53 pin ≡ false = ground arith in
    let (x, y, z) = with_bits-HasField (pin % 10) func (load reg r) (omega arith) b in
    rw (ok, eq→== reg reg refl) (x, y, z, λ a ne. ground arith)

-- The interrupt `irq` below 72 is bit `irq % 32` of the register `irq / 32`: enabling and disabling it
-- write that bit alone, to different registers. Other numbers write nothing.
pub enable_interrupt_peripheral_lem :
    (irq a : ℕ) (r : RegisterMap)
    → (load a (enable_interrupt_peripheral irq r) ≡ (
        if ltb irq 72 && (irq_base + 0x210 + 4 * (irq / 32) == a)
        then 2 ^ (irq % 32)
        else load a r))
      × (load a (disable_interrupt_peripheral irq r) ≡ (
          if ltb irq 72 && (irq_base + 0x21C + 4 * (irq / 32) == a)
          then 2 ^ (irq % 32)
          else load a r))
unfolding enable_interrupt_peripheral disable_interrupt_peripheral
enable_interrupt_peripheral_lem irq a r = elim (Bool-cases (ltb irq 32)) [
  | inl first ↦ let e : irq ≡ irq % 32 = ground arith in ground (arith, ap (λ n. 2 ^ n) e)
  | inr more ↦ elim (Bool-cases (ltb irq 64)) [
    | inl second ↦ let e : irq - 32 ≡ irq % 32 = ground arith in ground (arith, ap (λ n. 2 ^ n) e)
    | inr last ↦ elim (Bool-cases (ltb irq 72)) [
      | inl third ↦ let e : irq - 64 ≡ irq % 32 = ground arith in ground (arith, ap (λ n. 2 ^ n) e)
      | inr none_left ↦ ground arith
    ]
  ]
]
