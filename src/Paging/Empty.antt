-- ===== src/Paging/Empty.antt =====
-- mm.c, `init_empty_pages`: the empty table and the bytes of the frame that its entries name.
use ze_ospi.Base.{
  ℕ, zero, suc, ◌+◌, ◌*◌, ◌<◌, ◌≡◌, refl, arith, [], ◌∷◌, ◌==◌, leb, ltb, ◌&&◌, if◌then◌else◌,
  get_or, true, count_up, look-count_up,
}
use ze_ospi.Paging.{PageTable, put, total_pages_entries, set_empty_page}

abbrev pub FrameBytes : Type 0
FrameBytes = ℕ → ℕ

-- The eight stores of a round, `i` being eight times `k`.
abbrev pub eight_stores : (i : ℕ) → FrameBytes → FrameBytes
eight_stores i b j =
    if i + 7 == j
    then 0x89
    else if i + 6 == j
    then 0xab
    else if i + 5 == j
    then 0xcd
    else if i + 4 == j
    then 0xef
    else if i + 3 == j
    then 0x01
    else if i + 2 == j
    then 0x23
    else if i + 1 == j
    then 0x45
    else if i == j
    then 0x67
    else b j

unfoldable pub init_empty_pages :
    (empty_ph_page : ℕ) → PageTable × FrameBytes → PageTable × FrameBytes
init_empty_pages e (pt, b) = (
  count_up total_pages_entries 0 (λ i pt. put pt i (set_empty_page e)) pt,
  count_up 512 0 (λ k b. eight_stores (8 * k) b) b,
)

-- The word of four bytes at `8 * k + first`, the lowest byte first.
abbrev pub word_at : (k first : ℕ) → FrameBytes → ℕ
word_at k first b =
    b (8 * k + first)
    + 256
      * (b (8 * k + (first + 1)) + 256 * (b (8 * k + (first + 2)) + 256 * b (8 * k + (first + 3))))

abbrev pattern_byte : ℕ → ℕ
pattern_byte c = get_or (0x67 ∷ 0x45 ∷ 0x23 ∷ 0x01 ∷ 0xef ∷ 0xcd ∷ 0xab ∷ 0x89 ∷ []) c 0

-- The place `8 * j + c` is written in round `j` only.
writes :
    (c i : ℕ) (b : FrameBytes) (j : ℕ)
    → c < 8
    → eight_stores (8 * i) b (8 * j + c) ≡ (if i == j then pattern_byte c else b (8 * j + c))
writes zero i b j h = ground arith
writes (suc zero) i b j h = ground arith
writes (suc (suc zero)) i b j h = ground arith
writes (suc (suc (suc zero))) i b j h = ground arith
writes (suc (suc (suc (suc zero)))) i b j h = ground arith
writes (suc (suc (suc (suc (suc zero))))) i b j h = ground arith
writes (suc (suc (suc (suc (suc (suc zero)))))) i b j h = ground arith
writes (suc (suc (suc (suc (suc (suc (suc zero))))))) i b j h = ground arith
writes (suc (suc (suc (suc (suc (suc (suc (suc c)))))))) i b j h = absurd (omega arith)

-- All 256 entries of the empty table are the empty page, and the words of its frame are 0x01234567 and
-- 0x89abcdef in turn.
pub init_empty_pages_lem :
    (e : ℕ) (pt : PageTable) (b : FrameBytes) (i k : ℕ)
    → let p = init_empty_pages e (pt, b) in
      i < 256
      → k < 512
      → (p.0 i ≡ set_empty_page e) × (word_at k 0 p.1 ≡ 0x01234567) × (word_at k 4 p.1 ≡ 0x89abcdef)
unfolding init_empty_pages
init_empty_pages_lem e pt b i k hi hk =
    let entry =
      look-count_up (λ (pt : PageTable) j. pt j) (λ j x. set_empty_page e)
        (λ i pt. put pt i (set_empty_page e)) (λ i pt j. refl) 256 0 pt i in
    let inside : (leb 0 k && ltb k (0 + 512)) ≡ true = ground arith in
    let b' = count_up 512 0 (λ k (b : FrameBytes). eight_stores (8 * k) b) b in
    let byte : (c : ℕ) → c < 8 → b' (8 * k + c) ≡ pattern_byte c = λ c h. rw inside at (
      look-count_up (λ (b : FrameBytes) j. b (8 * j + c)) (λ j x. pattern_byte c)
        (λ k b. eight_stores (8 * k) b) (λ i b j. writes c i b j h) 512 0 b k) in
    (
      ground (arith, entry),
      rw (byte 0 (omega arith), byte 1 (omega arith), byte 2 (omega arith), byte 3 (omega arith))
          refl,
      rw (byte 4 (omega arith), byte 5 (omega arith), byte 6 (omega arith), byte 7 (omega arith))
          refl,
    )
