-- ===== src/Image/Written.antt =====
-- The image that build.c writes.
use ze_ospi.Base.{
  ℕ, ◌≤◌, ◌<◌, ◌%◌, ◌^◌, ◌≡◌, refl, sym, ap, ◌∙◌, arith, List, [], ◌∷◌, ◌++◌, length, some, drop,
  drop-drop,
}
use ze_ospi.Image.{
  Host, Failure, returned, put_file, put_header, build, low_bytes, seek_to, write_whole,
  branch_failed, system_failed, user_failed,
}
use ze_ospi.Image.Files.{
  Posix, IsAtEnd, overwrite, write_whole-Leaves, seek_to-Leaves, copy_file-Appends,
}

-- The branch over the header, and the sizes of the two programs.
abbrev pub header : (sys_size usr_size : ℕ) → List ℕ
header sys_size usr_size = 1 ∷ 0 ∷ 0 ∷ 0xeb ∷ (low_bytes sys_size ++ low_bytes usr_size)

module _ {h : Host} (x : Posix h) where
  -- A regular file of that name and with those bytes.
  pub record Holds (name bytes : List ℕ) : Type 0 where
    pub source : h.Source
    pub opened : h.open_file name ≡ some source
    pub sized : h.fstat source ≡ some (length bytes)
    pub whole : x.remaining source ≡ bytes
    pub short : length bytes < 2 ^ 32

  put_file-writes :
      (name bytes : List ℕ) (o : h.Output)
      → Holds name bytes
      → IsAtEnd x o
      → (o1 : h.Output) × (put_file h name o ≡ returned (length bytes) o1)
        × (x.content o1 ≡ x.content o ++ bytes)
        × IsAtEnd x o1
  unfolding put_file
  put_file-writes name bytes o f end =
      let small : length bytes % 2 ^ 32 ≡ length bytes = omega (arith, f.short) in
      let (o1, is, c, p) =
        copy_file-Appends x (length bytes % 2 ^ 32) name (length bytes % 2 ^ 32) f.source o
          (omega arith) (ap length f.whole ∙ sym small) end in
      (
        o1,
        rw (f.opened, f.sized, is) (ap (λ k. returned k o1) small),
        c ∙ ap (λ b. x.content o ++ b) f.whole,
        p ∙ ap length (sym c),
      )

  seek_write :
      (offset : ℕ) (bytes : List ℕ) (e : Failure) (o : h.Output)
      → offset ≤ length (x.content o)
      → (o1 o2 : h.Output) × (seek_to h offset o ≡ returned tt o1)
        × (write_whole h bytes e o1 ≡ returned tt o2)
        × (x.content o2 ≡ overwrite offset bytes (x.content o))
  seek_write offset bytes e o inside =
      let (o1, sought, c, p) = seek_to-Leaves x offset o in
      let (o2, wrote, c2, _) =
        write_whole-Leaves x bytes e o1 (omega (arith, p, ap length c, inside)) in
      (o1, o2, sought, wrote, c2 ∙ rw (p, c) refl)

  put_header-writes :
      (sys_size usr_size : ℕ) (o : h.Output)
      → (o1 : h.Output) × (put_header h sys_size usr_size o ≡ returned tt o1)
        × (x.content o1 ≡ header sys_size usr_size ++ drop 12 (x.content o))
  unfolding put_header
  put_header-writes sys_size usr_size o =
      let jump : List ℕ = 1 ∷ 0 ∷ 0 ∷ 0xeb ∷ [] in
      let (a1, a2, s0, w0, c0) = seek_write 0 jump branch_failed o (omega arith) in
      let (b1, b2, s4, w4, c4) =
        seek_write 4 (low_bytes sys_size) system_failed a2 (rw c0 (omega arith)) in
      let (d1, d2, s8, w8, c8) =
        seek_write 8 (low_bytes usr_size) user_failed b2 (rw (c4, c0) (omega arith)) in
      (
        d2,
        rw (s0, w0, s4, w4, s8) w8,
        rw (c8, c4, c0)
            (ap (λ r. header sys_size usr_size ++ r)
              (drop-drop 4 4 (drop 4 (x.content o)) ∙ drop-drop 8 4 (x.content o))),
      )

  -- If the two files are regular, with sizes below 2 ^ 32, and the output is empty and takes what is
  -- written, `build` returns, and the output holds the header and behind it the bytes of the two
  -- files but for the first 12.
  pub build-image :
      (system user sys usr : List ℕ) (o : h.Output)
      → Holds system sys
      → Holds user usr
      → x.content o ≡ []
      → x.position o ≡ 0
      → (o1 : h.Output) × (build h (system ∷ user ∷ []) o ≡ returned tt o1)
        × (x.content o1 ≡ header (length sys) (length usr) ++ drop 12 (sys ++ usr))
  unfolding build
  build-image system user sys usr o hs hu empty start =
      let (o1, put1, c1, end1) = put_file-writes system sys o hs (start ∙ ap length (sym empty)) in
      let (o2, put2, c2, _) = put_file-writes user usr o1 hu end1 in
      let (o3, put3, c3) = put_header-writes (length sys) (length usr) o2 in
      let both : x.content o2 ≡ sys ++ usr = rw (c2, c1, empty) refl in
      (o3, rw (put1, put2) put3, c3 ∙ ap (λ d. header (length sys) (length usr) ++ drop 12 d) both)
