-- ===== src/Image/Failures.antt =====
-- build.c on a host whose calls may fail: the tool does not finish with a wrong image.
use ze_ospi.Base.{
  ℕ, zero, suc, ◌+◌, ◌-◌, ◌≤◌, ◌<◌, ◌%◌, ◌^◌, ◌≡◌, refl, sym, ap, ◌∙◌, arith, List, [], ◌∷◌, ◌++◌,
  length, Option, none, some, take, drop, drop-drop, length-append, ltb, ◌==◌, ==→eq, true,
  Bool-cases, ltb→lt, ltb→le, inl, inr,
}
use mathlib.Core.List.{append_assoc, append-nil}
use ze_ospi.Image.{
  Host, Failure, Build, BuildOutcome, died, returned, ◌>>=◌, ◌>>◌, go_on, gives, put_file,
  put_header, build, low_bytes, copy_file, round_size, read_chunk, seek_to, write_whole, checked,
  branch_failed, system_failed, user_failed, write_failed, seek_failed,
}
use ze_ospi.Image.Files.{overwrite, overwrite-end, round_size-bounds}
use ze_ospi.Image.Written.{header}

-- What holds of the result and the output if the tool goes on.
abbrev pub After : {O A : Type 0} → (A → O → Type 0) → BuildOutcome O A → Type 0
After P (died e o) = Unit
After P (returned a o) = P a o

go_on-After :
    {O A B : Type 0} (P : A → O → Type 0) (Q : B → O → Type 0) (f : A → Build O B)
    → (r : BuildOutcome O A) → After P r
    → ((a : A) (o : O) → P a o → After Q (f a o))
    → After Q (go_on f r)
go_on-After P Q f (died e o) p k = tt
go_on-After P Q f (returned a o) p k = k a o p

After-map :
    {O A : Type 0} (P Q : A → O → Type 0) (r : BuildOutcome O A)
    → ((a : A) (o : O) → P a o → Q a o)
    → After P r
    → After Q r
After-map P Q (died e o) k p = tt
After-map P Q (returned a o) k p = k a o p

-- The calls may fail, or do less than they are asked for; one that says that it has done all has done
-- so.
pub record Honest (h : Host) : Type 0 where
  pub remaining : h.Source → List ℕ
  pub content : h.Output → List ℕ
  pub position : h.Output → ℕ
  pub reads :
      (l : ℕ) (s : h.Source) (bytes : List ℕ)
      → (h.read l s).0 ≡ some bytes
      → length bytes ≡ l
      → (bytes ≡ take l (remaining s)) × (remaining ((h.read l s).1) ≡ drop l (remaining s))
  pub writes :
      (bytes : List ℕ) (o : h.Output)
      → position o ≤ length (content o)
      → (h.write bytes o).0 ≡ some (length bytes)
      → (content ((h.write bytes o).1) ≡ overwrite (position o) bytes (content o))
        × (position ((h.write bytes o).1) ≡ position o + length bytes)
  pub seeks :
      (offset : ℕ) (o : h.Output)
      → (h.seek offset o).0 ≡ some offset
      → (content ((h.seek offset o).1) ≡ content o) × (position ((h.seek offset o).1) ≡ offset)

gives-some : (r : Option ℕ) (n : ℕ) → gives r n ≡ true → r ≡ some n
gives-some none n e = absurd (ground (arith, e))
gives-some (some r) n e = ap some (==→eq r n e)

take-[] : {A : Type 0} (n : ℕ) → take {A = A} n [] ≡ []
take-[] zero = refl
take-[] (suc n) = refl

take-split :
    {A : Type 0} (l n : ℕ) (xs : List A) → l ≤ n → take l xs ++ take (n - l) (drop l xs) ≡ take n xs
take-split zero n xs le = let e : n - 0 ≡ n = omega arith in ap (λ k. take k xs) e
take-split (suc l) zero xs le = absurd (omega arith)
take-split (suc l) (suc n) [] le = take-[] (suc n - suc l)
take-split (suc l) (suc n) (x ∷ xs) le =
    let e : suc n - suc l ≡ n - l = omega arith in
    rw e (ap (λ r. x ∷ r) (take-split l n xs (omega arith)))

module _ {h : Host} (x : Honest h) where
  checked-After :
      (P : Unit → h.Output → Type 0) (r : Option ℕ × h.Output) (n : ℕ) (e : Failure)
      → (r.0 ≡ some n → P tt (r.1))
      → After P (checked h r n e)
  checked-After P r n e k = elim (Bool-cases (gives (r.0) n)) [
    | inl ok ↦ rw ok (k (gives-some (r.0) n ok))
    | inr short ↦ rw short tt
  ]

  read_chunk-After :
      (P : List ℕ × h.Source → h.Output → Type 0) (name : List ℕ) (l : ℕ)
      → (r : Option (List ℕ)) (s : h.Source) (o : h.Output)
      → ((bytes : List ℕ) → r ≡ some bytes → length bytes ≡ l → P (bytes, s) o)
      → After P (read_chunk h name l (r, s) o)
  read_chunk-After P name l none s o k = tt
  read_chunk-After P name l (some bytes) s o k = elim (Bool-cases (length bytes == l)) [
    | inl full ↦ rw full (k bytes refl (==→eq (length bytes) l full))
    | inr short ↦ rw short tt
  ]

  abbrev IsAtEnd : h.Output → Type 0
  IsAtEnd o = x.position o ≡ length (x.content o)

  -- The output has the content, and its position is the end.
  abbrev Has : {A : Type 0} → List ℕ → A → h.Output → Type 0
  Has c u o = (x.content o ≡ c) × IsAtEnd o

  append-After :
      (bytes : List ℕ) (e : Failure) (o : h.Output)
      → IsAtEnd o
      → After (Has (x.content o ++ bytes)) (write_whole h bytes e o)
  append-After bytes e o end =
      checked-After (Has (x.content o ++ bytes)) (h.write bytes o) (length bytes) e λ ok.
        let (c, p) = x.writes bytes o (omega (arith, end)) ok in
        let put : x.content ((h.write bytes o).1) ≡ x.content o ++ bytes =
          c ∙ ap (λ k. overwrite k bytes (x.content o)) end ∙ overwrite-end bytes (x.content o) in
        (put, omega (arith, p, end, ap length put, length-append (x.content o) bytes))

  -- One round, and what follows it.
  round-After :
      (fuel : ℕ) (name : List ℕ) (sz l : ℕ) (s : h.Source) (o : h.Output)
      → l ≤ sz
      → IsAtEnd o
      → ((s1 : h.Source) (o1 : h.Output)
          → IsAtEnd o1
          → After
              (Has (x.content o1 ++ take (sz - l) (x.remaining s1)))
              (copy_file h fuel name (sz - l) s1 o1))
      → After (Has (x.content o ++ take sz (x.remaining s))) (
          (read_chunk h name l (h.read l s) >>= λ r.
          write_whole h (r.0) write_failed >> copy_file h fuel name (sz - l) (r.1))
            o)
  round-After fuel name sz l s o le end rest =
      let Q = Has (x.content o ++ take sz (x.remaining s)) in
      let P : List ℕ × h.Source → h.Output → Type 0 = λ r o1.
        (r.0 ≡ take l (x.remaining s)) × (x.remaining (r.1) ≡ drop l (x.remaining s)) × (o1 ≡ o) in
      let reading =
        read_chunk-After P name l ((h.read l s).0) ((h.read l s).1) o
          λ bytes is full. let (b, left) = x.reads l s bytes is full in (b, left, refl) in
      go_on-After P Q _ (read_chunk h name l (h.read l s) o) reading λ r o1 (b, left, same).
        let writing =
          append-After (r.0) write_failed o1
            (ap x.position same ∙ end ∙ ap (λ y. length (x.content y)) (sym same)) in
        go_on-After (Has (x.content o1 ++ r.0)) Q _ (write_whole h (r.0) write_failed o1) writing
          λ u o2 (c, end2).
            let both : x.content o2 ++ take (sz - l) (x.remaining (r.1))
                ≡ x.content o ++ take sz (x.remaining s) =
              rw (c, left, b, same)
                (append_assoc (x.content o) (take l (x.remaining s))
                    (take (sz - l) (drop l (x.remaining s)))
                  ∙ ap (λ t. x.content o ++ t) (take-split l sz (x.remaining s) le)) in
            After-map (Has (x.content o2 ++ take (sz - l) (x.remaining (r.1)))) Q
              (copy_file h fuel name (sz - l) (r.1) o2) (λ v o3 (is, end3). (is ∙ both, end3))
              (rest (r.1) o2 end2)

  copy_file-After :
      (fuel : ℕ) (name : List ℕ) (sz : ℕ) (s : h.Source) (o : h.Output)
      → sz ≤ fuel
      → IsAtEnd o
      → After (Has (x.content o ++ take sz (x.remaining s))) (copy_file h fuel name sz s o)
  unfolding copy_file
  copy_file-After zero name sz s o enough end =
      let none_left : sz ≡ 0 = omega arith in rw none_left (sym (append-nil (x.content o)), end)
  copy_file-After (suc fuel) name sz s o enough end = elim (Bool-cases (ltb 0 sz)) [
    | inl more ↦
        let (some_l, le) = round_size-bounds sz (ltb→lt 0 sz more) in
        rw (more, copy_file)
          (round-After fuel name sz (round_size sz) s o le end
            λ s1 o1 end1. copy_file-After fuel name (sz - round_size sz) s1 o1 (omega arith) end1)
    | inr done ↦
        let none_left : sz ≡ 0 = omega (arith, ltb→le 0 sz done) in
        rw (done, copy_file) (rw none_left (sym (append-nil (x.content o)), end))
  ]

  put_file-After :
      (name : List ℕ) (s : h.Source) (n : ℕ) (o : h.Output)
      → h.open_file name ≡ some s
      → h.fstat s ≡ some n
      → n < 2 ^ 32
      → IsAtEnd o
      → After
          (λ sz o1. (sz ≡ n) × Has (x.content o ++ take n (x.remaining s)) sz o1)
          (put_file h name o)
  unfolding put_file
  put_file-After name s n o opened sized short end =
      let small : n % 2 ^ 32 ≡ n = omega arith in
      rw (opened, sized)
        (go_on-After (Has (x.content o ++ take (n % 2 ^ 32) (x.remaining s))) _ _
          (copy_file h (n % 2 ^ 32) name (n % 2 ^ 32) s o)
          (copy_file-After (n % 2 ^ 32) name (n % 2 ^ 32) s o (omega arith) end)
          λ u o1 (c, end1).
            (small, (c ∙ ap (λ k. x.content o ++ take k (x.remaining s)) small, end1)))

  abbrev Written : ℕ → List ℕ → h.Output → Unit {0} → h.Output → Type 0
  Written offset bytes o u o1 = x.content o1 ≡ overwrite offset bytes (x.content o)

  abbrev Sought : ℕ → h.Output → Unit {0} → h.Output → Type 0
  Sought offset o u o1 = (x.content o1 ≡ x.content o) × (x.position o1 ≡ offset)

  seek_to-After : (offset : ℕ) (o : h.Output) → After (Sought offset o) (seek_to h offset o)
  seek_to-After offset o =
      checked-After (Sought offset o) (h.seek offset o) offset seek_failed (x.seeks offset o)

  write_at-After :
      (offset : ℕ) (bytes : List ℕ) (e : Failure) (o o1 : h.Output)
      → offset ≤ length (x.content o)
      → Sought offset o tt o1
      → After (Written offset bytes o) (write_whole h bytes e o1)
  write_at-After offset bytes e o o1 inside (c, p) =
      checked-After (Written offset bytes o) (h.write bytes o1) (length bytes) e
        λ ok. (x.writes bytes o1 (omega (arith, p, ap length c, inside)) ok).0 ∙ rw (p, c) refl

  seek_write-After :
      (Q : Unit → h.Output → Type 0) (k : Build h.Output Unit)
      → (offset : ℕ) (bytes : List ℕ) (e : Failure) (o : h.Output) → offset ≤ length (x.content o)
      → ((o1 : h.Output) → Written offset bytes o tt o1 → After Q (k o1))
      → After Q ((seek_to h offset >> (write_whole h bytes e >> k)) o)
  seek_write-After Q k offset bytes e o inside rest =
      go_on-After (Sought offset o) Q _ (seek_to h offset o) (seek_to-After offset o) λ u o1 sought.
        go_on-After (Written offset bytes o) Q _ (write_whole h bytes e o1)
          (write_at-After offset bytes e o o1 inside sought) λ v o2 wrote. rest o2 wrote

  abbrev Headed : ℕ → ℕ → List ℕ → Unit {0} → h.Output → Type 0
  Headed s u bytes v o = x.content o ≡ header s u ++ drop 12 bytes

  put_header-After :
      (sys_size usr_size : ℕ) (o : h.Output)
      → After (Headed sys_size usr_size (x.content o)) (put_header h sys_size usr_size o)
  unfolding put_header
  put_header-After sys_size usr_size o =
      let jump : List ℕ = 1 ∷ 0 ∷ 0 ∷ 0xeb ∷ [] in
      let Q = Headed sys_size usr_size (x.content o) in
      seek_write-After Q _ 0 jump branch_failed o (omega arith) λ a c0.
        seek_write-After Q _ 4 (low_bytes sys_size) system_failed a (rw c0 (omega arith)) λ b c4.
          go_on-After (Sought 8 b) Q _ (seek_to h 8 b) (seek_to-After 8 b) λ u d sought.
            let room : 8 ≤ length (x.content b) = rw (c4, c0) (omega arith) in
            checked-After Q (h.write (low_bytes usr_size) d) 4 user_failed λ ok.
              (x.writes (low_bytes usr_size) d (omega (arith, sought.1, ap length (sought.0), room))
                ok).0
              ∙ rw (sought.1, sought.0, c4, c0)
                  (ap (λ r. header sys_size usr_size ++ r)
                    (drop-drop 4 4 (drop 4 (x.content o)) ∙ drop-drop 8 4 (x.content o)))

  -- If the two files can be opened and their sizes are below 2 ^ 32, and the output is empty, then
  -- whatever else fails, `build` dies or leaves the header and behind it what the two files held up to
  -- their sizes, but for the first 12 bytes. A call that says that it has done all it was asked is to
  -- have done so.
  pub build-After :
      (system user : List ℕ) (s u : h.Source) (m n : ℕ) (o : h.Output)
      → h.open_file system ≡ some s
      → h.fstat s ≡ some m
      → m < 2 ^ 32
      → h.open_file user ≡ some u
      → h.fstat u ≡ some n
      → n < 2 ^ 32
      → x.content o ≡ []
      → x.position o ≡ 0
      → After
          (Headed m n (take m (x.remaining s) ++ take n (x.remaining u)))
          (build h (system ∷ user ∷ []) o)
  unfolding build
  build-After system user s u m n o opened sized short opened' sized' short' empty at0 =
      let Q = Headed m n (take m (x.remaining s) ++ take n (x.remaining u)) in
      go_on-After _ Q _ (put_file h system o)
        (put_file-After system s m o opened sized short (at0 ∙ ap length (sym empty)))
        λ sz o1 (same, (c, end)).
          go_on-After _ Q _ (put_file h user o1)
            (put_file-After user u n o1 opened' sized' short' end)
            λ uz o2 (same', (c', end')).
              After-map (Headed sz uz (x.content o2)) Q (put_header h sz uz o2)
                (λ v o3 is. is ∙ rw (same, same', c', c, empty) refl) (put_header-After sz uz o2)
