-- ===== src/Devices/Map.antt =====
-- Where the kernel's pages are once the devices are set up.
use ze_ospi.Base.{
  ℕ, ◌+◌, ◌/◌, ◌%◌, ◌^◌, ◌<◌, ◌≡◌, refl, ap, ◌∙◌, arith, ltb, ◌==◌, ◌&&◌, if◌then◌else◌, count_up,
  zero, suc, leb,
}
use ze_ospi.Paging.{SlEntry, kernel_page, Tables, put_at, init_table_pages}
use ze_ospi.Paging.Init.{init_table_pages_lem}
use ze_ospi.Duplicate.{kernel_frame}
use ze_ospi.Devices.{
  Board, RegisterMap, set_virtual_to_physical, init_gpio, init_uart, init_timer, set_interruptions,
}

-- The frame behind page `p` of table 0 of task `i`.
abbrev pub frame_at : Tables → ℕ → ℕ → ℕ
frame_at t i p = (t i 0 p).pbase_addr

map_loop :
    (n lo page frame : ℕ) (t : Tables) (i p : ℕ)
    → frame_at
        (count_up n lo (λ i t. put_at t i 0 page (record (t i 0 page) { pbase_addr = frame })) t)
        i
        p
      ≡ (if leb lo i && ltb i (lo + n) && (page == p) then frame else frame_at t i p)
unfolding count_up
map_loop zero lo page frame t i p = ground arith
map_loop (suc n) lo page frame t i p = ground (
  arith,
  map_loop n (lo + 1) page frame (put_at t lo 0 page (record (t lo 0 page) { pbase_addr = frame }))
      i p,
)

map_lem :
    (virtual ph : ℕ) (t : Tables) (i p : ℕ)
    → virtual / 2 ^ 20 % 2 ≡ 0
    → i < 10
    → frame_at (set_virtual_to_physical virtual ph t) i p
      ≡ (if virtual / 2 ^ 12 % 2 ^ 8 == p then ph / 2 ^ 12 % 2 ^ 20 else frame_at t i p)
unfolding set_virtual_to_physical
map_lem virtual ph t i p z h =
    rw z (map_loop 10 0 (virtual / 2 ^ 12 % 2 ^ 8) (ph / 2 ^ 12 % 2 ^ 20) t i p ∙ ground arith)

-- After `init_table_pages` and the setup of the devices, each of the ten tasks has the kernel's page `p`
-- at frame `p`, but for the four pages of the devices, which are at the frames of their registers.
pub devices-kernel_frame :
    (empty_ph_page i p : ℕ) (r : RegisterMap) (t : Tables)
    → i < 10
    → p < 256
    → let start : Board = record { registers = r; tables = init_table_pages empty_ph_page t } in
      let b = set_interruptions (init_timer (init_uart (init_gpio start))) in
      frame_at b.tables i p ≡ kernel_frame p
unfolding init_gpio init_uart init_timer set_interruptions kernel_page
devices-kernel_frame empty i p r t hi hp =
    let t0 = init_table_pages empty t in
    let t1 = set_virtual_to_physical 0xF2000 0x20200000 t0 in
    let t2 = set_virtual_to_physical 0xF0000 0x20215000 t1 in
    let t3 = set_virtual_to_physical 0xF3000 0x2000B000 t2 in
    let first : frame_at t0 i p ≡ p =
      ap (λ (e : SlEntry). e.pbase_addr) (init_table_pages_lem empty t i 0 p) ∙ ground arith in
    ground (
      arith,
      map_lem 0xF1000 0x2000B000 t3 i p refl hi,
      map_lem 0xF3000 0x2000B000 t2 i p refl hi,
      map_lem 0xF0000 0x20215000 t1 i p refl hi,
      map_lem 0xF2000 0x20200000 t0 i p refl hi,
      first,
    )
