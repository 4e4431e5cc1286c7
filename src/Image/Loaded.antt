-- ===== src/Image/Loaded.antt =====
-- From the files that build.c reads to the first instruction of the user's program: the image, once
-- it stands in memory, and the start of the kernel, which takes the user's program out of it.
use ze_ospi.Base.{
  ℕ, ◌+◌, ◌*◌, ◌-◌, ◌≤◌, ◌<◌, ◌%◌, ◌/◌, ◌^◌, ◌≡◌, refl, ap, ◌∙◌, arith, List, [], ◌∷◌, ◌++◌, length,
  get_or, get_or-append, get_or-drop, drop, length-append, length-drop,
}
use ze_ospi.Utils.{Memory, move}
use ze_ospi.Startup.{
  Linked, Computer, kernel_start, ph_user_start, word_of, sys_size, usr_size, start,
}
use ze_ospi.Startup.Ready.{start-memory}
use ze_ospi.Image.{Host, returned, build}
use ze_ospi.Image.Files.{Posix}
use ze_ospi.Image.Written.{header, Holds, build-image}

abbrev pub image : List ℕ → List ℕ → List ℕ
image sys usr = header (length sys) (length usr) ++ drop 12 (sys ++ usr)

abbrev pub HasAt : Memory → ℕ → List ℕ → Type 0
HasAt m a bytes = (i : ℕ) → i < length bytes → m (a + i) ≡ get_or bytes i 0

low_bytes-size :
    (n : ℕ)
    → n < 2 ^ 24
    → n % 256 + 256 * (n / 2 ^ 8 % 256 + 256 * (n / 2 ^ 16 % 256 + 256 * 0)) ≡ n
low_bytes-size n small = omega arith

image-tail :
    (sys usr : List ℕ) (i : ℕ) → 12 ≤ i → get_or (image sys usr) i 0 ≡ get_or (sys ++ usr) i 0
image-tail sys usr i behind =
    let skip = get_or-drop 12 (i - 12) (sys ++ usr) 0 in
    let there : 12 + (i - 12) ≡ i = omega arith in
    get_or-append (header (length sys) (length usr)) (drop 12 (sys ++ usr)) i 0
    ∙ ground (arith, skip, there)

length-image :
    (sys usr : List ℕ) → 12 ≤ length sys → length (image sys usr) ≡ length sys + length usr
length-image sys usr long =
    length-append (header (length sys) (length usr)) (drop 12 (sys ++ usr))
    ∙ omega (arith, length-drop 12 (sys ++ usr), length-append sys usr)

get_or-second : (sys usr : List ℕ) (i : ℕ) → get_or (sys ++ usr) (length sys + i) 0 ≡ get_or usr i 0
get_or-second sys usr i =
    let off : length sys + i - length sys ≡ i = omega arith in
    get_or-append sys usr (length sys + i) 0 ∙ ground (arith, off)

module _ (sys usr : List ℕ) (m : Memory) (has : HasAt m kernel_start (image sys usr)) where
  header-at : (i : ℕ) → i < 12 → m (kernel_start + i) ≡ get_or (image sys usr) i 0
  header-at i h =
      has i (omega (arith, length-append (header (length sys) (length usr)) (drop 12 (sys ++ usr))))

  image-sizes :
      length sys < 2 ^ 24
      → length usr < 2 ^ 24
      → (word_of m kernel_start ≡ 0xeb000001)
        × (sys_size m ≡ length sys)
        × (usr_size m ≡ length usr)
  image-sizes short_sys short_usr =
      let byte : (i : ℕ) → i < 12 → m (kernel_start + i) ≡ get_or (image sys usr) i 0 = header-at in
      (
        rw
            (
              header-at 0 (omega arith),
              header-at 1 (omega arith),
              header-at 2 (omega arith),
              header-at 3 (omega arith),
            )
            refl,
        rw
            (
              header-at 4 (omega arith),
              header-at 5 (omega arith),
              header-at 6 (omega arith),
              header-at 7 (omega arith),
            )
            (low_bytes-size (length sys) short_sys),
        rw
            (
              header-at 8 (omega arith),
              header-at 9 (omega arith),
              header-at 10 (omega arith),
              header-at 11 (omega arith),
            )
            (low_bytes-size (length usr) short_usr),
      )

  image-usr :
      (i : ℕ)
      → 12 ≤ length sys
      → i < length usr
      → m (kernel_start + length sys + i) ≡ get_or usr i 0
  image-usr i long inside =
      let there : kernel_start + length sys + i ≡ kernel_start + (length sys + i) = omega arith in
      ap m there
      ∙ has (length sys + i) (omega (arith, length-image sys usr long))
      ∙ image-tail sys usr (length sys + i) (omega arith)
      ∙ get_or-second sys usr i

moved-at : (n p q i : ℕ) (m : Memory) → i < n → move n p q m (q + i) ≡ m (p + i)
moved-at n p q i m inside = let back : q + i - q ≡ i = omega arith in ground (arith, back)

module _ {h : Host} (x : Posix h) (load : List ℕ → Memory) where
  -- If the kernel's file has 12 bytes at least, it and the user's file end at the devices' pages, at
  -- 0xF0000, at most when they are put one behind the other from `kernel_start` on, and the user's fits
  -- into the 28 pages that have frames, `build` returns; both are to be regular, and the output empty
  -- and to take what is written. With `load` to put the image at `kernel_start`, the word there is the
  -- branch over the header, and after the start of the kernel each byte of the user's file stands at
  -- its place from `ph_user_start` on.
  pub build-start :
      (system user sys usr : List ℕ) (o : h.Output) (l : Linked) (chosen : ℕ) (arr : List ℕ)
      → (c : Computer) (i : ℕ) → Holds x system sys
      → Holds x user usr
      → x.content o ≡ []
      → x.position o ≡ 0
      → ((bytes : List ℕ) → HasAt (load bytes) kernel_start bytes)
      → 12 ≤ length sys
      → kernel_start + length sys + length usr ≤ 0xF0000
      → length usr ≤ 28 * 2 ^ 12
      → i < length usr
      → (o1 : h.Output) × (build h (system ∷ user ∷ []) o ≡ returned tt o1)
        × (word_of (load (x.content o1)) kernel_start ≡ 0xeb000001)
        × ((start l chosen arr (record c { memory = load (x.content o1) })).memory
              (ph_user_start + i)
            ≡ get_or usr i 0)
  build-start system user sys usr o l chosen arr c i hs hu empty at0 loads long fits pages inside =
      let (o1, built, content) = build-image x system user sys usr o hs hu empty at0 in
      let m = load (x.content o1) in
      let has : HasAt m kernel_start (image sys usr) = λ j below.
        loads (x.content o1) j (omega (arith, below, ap length content))
        ∙ ap (λ b. get_or b j 0) content in
      let (branch, s, u) = image-sizes sys usr m has (omega arith) (omega arith) in
      let moved =
        start-memory l chosen arr (record c { memory = m }) (omega (arith, u, pages))
          (omega (arith, s, u, fits)) in
      (
        o1,
        built,
        branch,
        ap (λ f. f (ph_user_start + i)) moved
            ∙ rw (s, u) (moved-at (length usr) (kernel_start + length sys) ph_user_start i m inside)
            ∙ image-usr sys usr m has i long inside,
      )
