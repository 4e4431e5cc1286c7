-- ===== src/Devices.antt =====
-- gpio.c, uart.c, timer.c and interrupt.c: the setup of the devices, as stores to their registers,
-- and `set_vitual_to_phsycial` of mm.c, which maps their pages. A register is named by its address;
-- `store` and `load` are `set_address_to` and `get_value_from` of utils.c. The caches and the
-- translation buffer, which the mapping flushes, are not in the model.
pub mod Pins
pub mod Bits
pub mod Map
pub mod Serial
use ze_ospi.Base.{
  true, ℕ, ◌+◌, ◌-◌, ◌*◌, ◌/◌, ◌%◌, ◌^◌, Bool, not, ltb, ◌==◌, if◌then◌else◌, count_up,
}
use ze_ospi.Paging.{nr_tasks, SlEntry, Tables, put_at}

abbrev pub RegisterMap : Type 0
RegisterMap = ℕ → ℕ

abbrev pub store : (address value : ℕ) → RegisterMap → RegisterMap
store address value r a = if address == a then value else r a

abbrev pub load : (address : ℕ) → RegisterMap → ℕ
load address r = r address

-- The registers and the tables `sl_ptable`.
pub record Board : Type 0 where
  pub registers : RegisterMap
  pub tables : Tables

-- With `to_current_task` 0, as every caller has it.
unfoldable pub set_virtual_to_physical : (virtual ph : ℕ) → Tables → Tables
set_virtual_to_physical virtual ph t =
    let dir = virtual / 2 ^ 20 % 2 in
    let page = virtual / 2 ^ 12 % 2 ^ 8 in
    count_up nr_tasks 0
      (λ i t. put_at t i dir page (record (t i dir page) { pbase_addr = ph / 2 ^ 12 % 2 ^ 20 })) t

-- include/gpio.h
abbrev pub gpio_base : ℕ
gpio_base = 0xF2000

abbrev pub gpio_base_ph : ℕ
gpio_base_ph = 0x20200000

abbrev pub gpset0 : ℕ
gpset0 = gpio_base + 0x1C

abbrev pub gpclr0 : ℕ
gpclr0 = gpio_base + 0x28

abbrev pub gpio_func_out : ℕ
gpio_func_out = 1

abbrev pub gpio_func_alt5 : ℕ
gpio_func_alt5 = 2

-- Three bits are cleared and then set to `func`, one of the eight codes of three bits, so that the
-- "or" is a sum.
abbrev pub with_bits : (offset func word : ℕ) → ℕ
with_bits offset func word = word - word / 2 ^ offset % 8 * 2 ^ offset + func * 2 ^ offset

unfoldable pub gpio_set_func : (gpio_pin func : ℕ) → RegisterMap → RegisterMap
gpio_set_func gpio_pin func r =
    let reg_dir = gpio_base + gpio_pin / 10 * 4 in
    let in_offset = gpio_pin % 10 * 3 in
    if ltb 53 gpio_pin then r else store reg_dir (with_bits in_offset func (load reg_dir r)) r

unfoldable pub gpio_set_uart_function : RegisterMap → RegisterMap
gpio_set_uart_function r = gpio_set_func 15 gpio_func_alt5 (gpio_set_func 14 gpio_func_alt5 r)

-- The LED is on when the pin is low.
unfoldable pub gpio_set_led_on : RegisterMap → RegisterMap
gpio_set_led_on r = store gpclr0 (2 ^ 16) r

unfoldable pub gpio_set_led_off : RegisterMap → RegisterMap
gpio_set_led_off r = store gpset0 (2 ^ 16) r

unfoldable pub gpio_set_led_function : RegisterMap → RegisterMap
gpio_set_led_function r = gpio_set_led_off (gpio_set_func 16 gpio_func_out r)

unfoldable pub init_gpio : Board → Board
init_gpio b = record {
  registers = gpio_set_led_function (gpio_set_uart_function b.registers);
  tables = set_virtual_to_physical gpio_base gpio_base_ph b.tables;
}

-- sys.c
unfoldable pub sys_led : (state : ℕ) → RegisterMap → RegisterMap
sys_led state r = if not (state == 0) then gpio_set_led_on r else gpio_set_led_off r

-- include/uart.h
abbrev pub aux_base : ℕ
aux_base = 0xF0000

abbrev pub aux_base_ph : ℕ
aux_base_ph = 0x20215000

abbrev pub aux_mu_cntl_reg : ℕ
aux_mu_cntl_reg = aux_base + 0x60

abbrev pub baudrate_reg_115200 : ℕ
baudrate_reg_115200 = 270

-- One bit of a word set or cleared.
abbrev pub with_bit : (n : ℕ) → Bool → (word : ℕ) → ℕ
with_bit n b word = word - word / 2 ^ n % 2 * 2 ^ n + (if b then 2 ^ n else 0)

unfoldable pub uart_toggle_reception : (enable : Bool) → RegisterMap → RegisterMap
uart_toggle_reception enable r =
    store aux_mu_cntl_reg (with_bit 0 enable (load aux_mu_cntl_reg r)) r

unfoldable pub uart_toggle_transmission : (enable : Bool) → RegisterMap → RegisterMap
uart_toggle_transmission enable r =
    store aux_mu_cntl_reg (with_bit 1 enable (load aux_mu_cntl_reg r)) r

unfoldable pub init_uart : Board → Board
init_uart b =
    let r = store (aux_base + 0x04) 0x01 b.registers in
    let r = store aux_mu_cntl_reg 0x00 r in
    let r = store (aux_base + 0x4C) 0x03 r in
    let r = store (aux_base + 0x50) 0x00 r in
    let r = store (aux_base + 0x44) 0x05 r in
    let r = store (aux_base + 0x48) 0xC6 r in
    let r = store (aux_base + 0x68) baudrate_reg_115200 r in
    record {
      registers = uart_toggle_transmission true (uart_toggle_reception true r);
      tables = set_virtual_to_physical aux_base aux_base_ph b.tables;
    }

-- `(LSR >> 5) & 0x1` and `LSR & 0x1`
unfoldable pub uart_tx_ready : RegisterMap → ℕ
uart_tx_ready r = load (aux_base + 0x54) r / 2 ^ 5 % 2

unfoldable pub uart_data_available : RegisterMap → ℕ
uart_data_available r = load (aux_base + 0x54) r % 2

-- include/timer.h
abbrev pub timer_base : ℕ
timer_base = 0xF3000

abbrev pub timer_base_ph : ℕ
timer_base_ph = 0x2000B000

unfoldable pub timer_set_initial_time : (time : ℕ) → RegisterMap → RegisterMap
timer_set_initial_time time r = store (timer_base + 0x400) time r

-- `-1` as an unsigned int.
unfoldable pub timer_clear_irq : RegisterMap → RegisterMap
timer_clear_irq r = store (timer_base + 0x40C) (2 ^ 32 - 1) r

-- `clock_time` is set in Boot.
unfoldable pub init_timer : Board → Board
init_timer b = record {
  registers = store (timer_base + 0x408) 0xF900A2 (timer_set_initial_time 1000 b.registers);
  tables = set_virtual_to_physical timer_base timer_base_ph b.tables;
}

-- include/interrupt.h
abbrev pub irq_base : ℕ
irq_base = 0xF1000

abbrev pub irq_base_ph : ℕ
irq_base_ph = 0x2000B000

abbrev pub irq_phpl_aux : ℕ
irq_phpl_aux = 29

abbrev pub irq_phpl_timer : ℕ
irq_phpl_timer = 64

unfoldable pub enable_interrupt_peripheral : (irq : ℕ) → RegisterMap → RegisterMap
enable_interrupt_peripheral irq r =
    if ltb irq 32
    then store (irq_base + 0x210) (2 ^ irq) r
    else if ltb irq 64
    then store (irq_base + 0x214) (2 ^ (irq - 32)) r
    else if ltb irq 72
    then store (irq_base + 0x218) (2 ^ (irq - 64)) r
    else r

unfoldable pub disable_interrupt_peripheral : (irq : ℕ) → RegisterMap → RegisterMap
disable_interrupt_peripheral irq r =
    if ltb irq 32
    then store (irq_base + 0x21C) (2 ^ irq) r
    else if ltb irq 64
    then store (irq_base + 0x220) (2 ^ (irq - 32)) r
    else if ltb irq 72
    then store (irq_base + 0x224) (2 ^ (irq - 64)) r
    else r

unfoldable pub set_interruptions : Board → Board
set_interruptions b = record {
  registers =
      enable_interrupt_peripheral irq_phpl_timer
        (enable_interrupt_peripheral irq_phpl_aux b.registers);
  tables = set_virtual_to_physical irq_base irq_base_ph b.tables;
}
