-- ===== src/Image/Files.antt =====
-- What build.c relies on: regular files that hold what their sizes say, and an output that takes all
-- that is written and can be gone back in.
use mathlib.Core.List.{append_assoc, append-nil}
use ze_ospi.Base.{
  ℕ, zero, suc, ◌+◌, ◌-◌, ◌≤◌, ◌<◌, ◌≡◌, refl, sym, ap, ◌∙◌, arith, List, [], ◌∷◌, ◌++◌, length,
  some, take, drop, length-take, length-drop, length-append, take-append-drop, drop-all, ltb, eq→==,
  Bool-cases, ltb→lt, ltb→le, inl, inr,
}
use ze_ospi.Image.{
  Host, Failure, BuildOutcome, returned, seek_to, write_whole, read_chunk, copy_file, round_size,
  buf_size, write_failed, ◌>>=◌, ◌>>◌,
}

abbrev pub overwrite : ℕ → List ℕ → List ℕ → List ℕ
overwrite p bytes c = take p c ++ (bytes ++ drop (p + length bytes) c)

pub record Posix (h : Host) : Type 0 where
  -- What a file has from its position on; what the output holds, and its position.
  pub remaining : h.Source → List ℕ
  pub content : h.Output → List ℕ
  pub position : h.Output → ℕ
  pub reads :
      (l : ℕ) (s : h.Source)
      → l ≤ length (remaining s)
      → ((h.read l s).0 ≡ some (take l (remaining s)))
        × (remaining ((h.read l s).1) ≡ drop l (remaining s))
  pub writes :
      (bytes : List ℕ) (o : h.Output)
      → position o ≤ length (content o)
      → ((h.write bytes o).0 ≡ some (length bytes))
        × (content ((h.write bytes o).1) ≡ overwrite (position o) bytes (content o))
        × (position ((h.write bytes o).1) ≡ position o + length bytes)
  pub seeks :
      (offset : ℕ) (o : h.Output)
      → ((h.seek offset o).0 ≡ some offset)
        × (content ((h.seek offset o).1) ≡ content o)
        × (position ((h.seek offset o).1) ≡ offset)

overwrite-behind :
    (a bytes c : List ℕ)
    → overwrite (length a) bytes (a ++ c) ≡ a ++ (bytes ++ drop (length bytes) c)
overwrite-behind [] bytes c =
    let e : 0 + length bytes ≡ length bytes = omega arith in ap (λ k. bytes ++ drop k c) e
overwrite-behind (y ∷ a) bytes c =
    let e : suc (length a) + length bytes ≡ suc (length a + length bytes) = omega arith in
    rw e (ap (λ l. y ∷ l) (overwrite-behind a bytes c))

drop-[] : (n : ℕ) → drop {A = ℕ} n [] ≡ []
drop-[] n = drop-all n [] (omega arith)

pub overwrite-end : (bytes c : List ℕ) → overwrite (length c) bytes c ≡ c ++ bytes
overwrite-end bytes c =
    ap (overwrite (length c) bytes) (sym (append-nil c))
    ∙ overwrite-behind c bytes []
    ∙ ap (λ l. c ++ (bytes ++ l)) (drop-[] (length bytes))
    ∙ ap (λ l. c ++ l) (append-nil bytes)

length-zero : (l : List ℕ) → length l ≡ 0 → l ≡ []
length-zero [] e = refl
length-zero (y ∷ l) e = absurd (omega (arith, e))

pub round_size-bounds : (sz : ℕ) → 0 < sz → (0 < round_size sz) × (round_size sz ≤ sz)
round_size-bounds sz more = elim (Bool-cases (ltb buf_size sz)) [
  | inl large ↦ (rw large (omega arith), rw large (omega (arith, ltb→lt buf_size sz large)))
  | inr small ↦ (rw small more, rw small (omega arith))
]

module _ {h : Host} (x : Posix h) where
  -- The call succeeds, and leaves the output with the content and the position.
  abbrev Leaves : BuildOutcome h.Output Unit → List ℕ → ℕ → Type 0
  Leaves r c p = (o : h.Output) × (r ≡ returned tt o) × (x.content o ≡ c) × (x.position o ≡ p)

  pub write_whole-Leaves :
      (bytes : List ℕ) (e : Failure) (o : h.Output)
      → x.position o ≤ length (x.content o)
      → Leaves
          (write_whole h bytes e o)
          (overwrite (x.position o) bytes (x.content o))
          (x.position o + length bytes)
  write_whole-Leaves bytes e o inside =
      let (ok, c, p) = x.writes bytes o inside in
      ((h.write bytes o).1, rw (ok, eq→== (length bytes) (length bytes) refl) refl, c, p)

  pub seek_to-Leaves :
      (offset : ℕ) (o : h.Output) → Leaves (seek_to h offset o) (x.content o) offset
  seek_to-Leaves offset o =
      let (ok, c, p) = x.seeks offset o in
      ((h.seek offset o).1, rw (ok, eq→== offset offset refl) refl, c, p)

  -- As `Leaves`, with the position at the end of the content.
  abbrev Appends : h.Output → BuildOutcome h.Output Unit → List ℕ → Type 0
  Appends o r bytes = Leaves r (x.content o ++ bytes) (length (x.content o ++ bytes))

  abbrev pub IsAtEnd : h.Output → Type 0
  IsAtEnd o = x.position o ≡ length (x.content o)

  write_whole-Appends :
      (bytes : List ℕ) (e : Failure) (o : h.Output)
      → IsAtEnd o
      → Appends o (write_whole h bytes e o) bytes
  write_whole-Appends bytes e o end =
      let (o1, is, c, p) = write_whole-Leaves bytes e o (omega (arith, end)) in
      (
        o1,
        is,
        c ∙ ap (λ k. overwrite k bytes (x.content o)) end ∙ overwrite-end bytes (x.content o),
        omega (arith, p, end, length-append (x.content o) bytes),
      )

  read_chunk-reads :
      (name : List ℕ) (l : ℕ) (s : h.Source) (o : h.Output)
      → l ≤ length (x.remaining s)
      → read_chunk h name l (h.read l s) o ≡ returned (take l (x.remaining s), (h.read l s).1) o
  read_chunk-reads name l s o le =
      let (ok, _) = x.reads l s le in
      rw (ok, eq→== (length (take l (x.remaining s))) l (length-take l (x.remaining s) le)) refl

  -- One round, and what follows it.
  round-Appends :
      (fuel : ℕ) (name : List ℕ) (sz l : ℕ) (s : h.Source) (o : h.Output)
      → l ≤ length (x.remaining s)
      → IsAtEnd o
      → ((o1 : h.Output)
          → IsAtEnd o1
          → Appends o1
              (copy_file h fuel name (sz - l) ((h.read l s).1) o1)
              (x.remaining ((h.read l s).1)))
      → Appends o
          ((read_chunk h name l (h.read l s) >>= λ r.
              write_whole h (r.0) write_failed >> copy_file h fuel name (sz - l) (r.1))
            o)
          (x.remaining s)
  round-Appends fuel name sz l s o le end rest =
      let (_, left) = x.reads l s le in
      let bytes = take l (x.remaining s) in
      let (o1, wrote, c1, p1) = write_whole-Appends bytes write_failed o end in
      let (o2, is, c2, p2) = rest o1 (p1 ∙ ap length (sym c1)) in
      let all : x.content o1 ++ x.remaining ((h.read l s).1) ≡ x.content o ++ x.remaining s =
        rw (c1, left)
          (append_assoc (x.content o) bytes (drop l (x.remaining s))
            ∙ ap (λ r. x.content o ++ r) (take-append-drop l (x.remaining s))) in
      (o2, rw (read_chunk-reads name l s o le, wrote) is, c2 ∙ all, p2 ∙ ap length all)

  nothing-Appends :
      (s : h.Source) (o : h.Output)
      → length (x.remaining s) ≡ 0
      → IsAtEnd o
      → Appends o (returned tt o) (x.remaining s)
  nothing-Appends s o none_left end =
      let same : x.content o ≡ x.content o ++ x.remaining s =
        rw (length-zero (x.remaining s) none_left) (sym (append-nil (x.content o))) in
      (o, refl, same, end ∙ ap length same)

  -- The loop puts all that is left of a file behind the output, with a round for each byte at most.
  pub copy_file-Appends :
      (fuel : ℕ) (name : List ℕ) (sz : ℕ) (s : h.Source) (o : h.Output)
      → sz ≤ fuel
      → length (x.remaining s) ≡ sz
      → IsAtEnd o
      → Appends o (copy_file h fuel name sz s o) (x.remaining s)
  unfolding copy_file
  copy_file-Appends zero name sz s o enough size end = nothing-Appends s o (omega arith) end
  copy_file-Appends (suc fuel) name sz s o enough size end = elim (Bool-cases (ltb 0 sz)) [
    | inl more ↦
        let (some_l, le) = round_size-bounds sz (ltb→lt 0 sz more) in
        rw (more, copy_file)
          (round-Appends fuel name sz (round_size sz) s o (omega arith) end λ o1 end1.
            copy_file-Appends fuel name (sz - round_size sz) ((h.read (round_size sz) s).1) o1
              (omega arith)
              (ap length ((x.reads (round_size sz) s (omega arith)).1)
                ∙ length-drop (round_size sz) (x.remaining s)
                ∙ omega arith)
              end1)
    | inr done ↦
        rw (done, copy_file) (nothing-Appends s o (omega (arith, size, ltb→le 0 sz done)) end)
  ]
