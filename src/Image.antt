-- ===== src/Image.antt =====
-- build.c: the tool that puts the kernel's and the user's program into one image. The calls of the
-- host's system are a parameter, a `Host`. The messages about sizes are left out.
pub mod Files
pub mod Written
pub mod Loaded
pub mod Failures
use ze_ospi.Base.{
  ℕ, zero, suc, ◌-◌, ◌/◌, ◌%◌, ◌^◌, List, [], ◌∷◌, length, Option, none, some, ltb, ◌==◌,
  if◌then◌else◌, Bool, false,
}

-- What the tool relies on. `fstat` gives `st_size`; `none` is a result below 0. `read` and `write` get
-- the number of bytes, and the bytes, and `seek` the position; they give what the calls return, and the
-- open file after them.
pub record Host : Type 1 where
  pub Source : Type 0
  pub Output : Type 0
  pub open_file : (name : List ℕ) → Option Source
  pub fstat : Source → Option ℕ
  pub read : (count : ℕ) → Source → Option (List ℕ) × Source
  pub write : (bytes : List ℕ) → Output → Option ℕ × Output
  pub seek : (offset : ℕ) → Output → Option ℕ × Output

-- The messages of `die`.
pub data Failure : Type 0 where
  usage seek_failed write_failed branch_failed system_failed user_failed : Failure
  unable_to_open unable_to_stat error_reading unexpected_eof : (name : List ℕ) → Failure

-- `died` is `exit(1)`.
pub data BuildOutcome (O A : Type 0) : Type 0 where
  died : Failure → O → BuildOutcome O A
  returned : A → O → BuildOutcome O A

abbrev pub Build : Type 0 → Type 0 → Type 0
Build O A = O → BuildOutcome O A

infixl 5 ◌>>=◌ ◌>>◌
abbrev pub go_on : {O A B : Type 0} → (A → Build O B) → BuildOutcome O A → BuildOutcome O B
go_on f (died e o) = died e o
go_on f (returned a o) = f a o

abbrev pub ◌>>=◌ : {O A B : Type 0} → Build O A → (A → Build O B) → Build O B
◌>>=◌ m f o = go_on f (m o)

abbrev pub ◌>>◌ : {O A B : Type 0} → Build O A → Build O B → Build O B
m >> k = m >>= λ _. k

abbrev pub give : {O A : Type 0} → A → Build O A
give a o = returned a o

abbrev die : {O A : Type 0} → Failure → Build O A
die e o = died e o

abbrev or_die : {O A : Type 0} → Option A → Failure → Build O A
or_die none e = die e
or_die (some a) e = give a

abbrev pub gives : Option ℕ → ℕ → Bool
gives none n = false
gives (some r) n = r == n

-- `buf`
abbrev pub buf_size : ℕ
buf_size = 1024

abbrev pub round_size : ℕ → ℕ
round_size sz = if ltb buf_size sz then buf_size else sz

abbrev pub low_bytes : ℕ → List ℕ
low_bytes size = size % 256 ∷ size / 2 ^ 8 % 256 ∷ size / 2 ^ 16 % 256 ∷ 0 ∷ []

module _ (h : Host) where
  abbrev checked : (Option ℕ × h.Output) → ℕ → Failure → BuildOutcome h.Output Unit
  checked r n e = if gives (r.0) n then returned tt (r.1) else died e (r.1)

  abbrev pub write_whole : List ℕ → Failure → Build h.Output Unit
  write_whole bytes e o = checked (h.write bytes o) (length bytes) e

  abbrev pub seek_to : ℕ → Build h.Output Unit
  seek_to offset o = checked (h.seek offset o) offset seek_failed

  -- A `read` of `l` bytes into `buf`, and the test of what it returns.
  abbrev pub read_chunk :
      List ℕ → ℕ → Option (List ℕ) × h.Source → Build h.Output (List ℕ × h.Source)
  read_chunk name l (none, s) = die (error_reading name)
  read_chunk name l (some bytes, s) =
      if length bytes == l then give (bytes, s) else die (unexpected_eof name)

  -- The loop over a file. It gets a number of rounds.
  unfoldable pub copy_file : (fuel : ℕ) → List ℕ → (sz : ℕ) → h.Source → Build h.Output Unit
  copy_file zero name sz s = give tt
  copy_file (suc fuel) name sz s =
      let l = round_size sz in
      let round : Build h.Output Unit = do
        (bytes, s') ← read_chunk name l (h.read l s)
        write_whole bytes write_failed
        copy_file fuel name (sz - l) s'
      in if ltb 0 sz then round else give tt

  -- One file: its size, as an `unsigned int`.
  unfoldable pub put_file : List ℕ → Build h.Output ℕ
  put_file name = do
    s ← or_die (h.open_file name) (unable_to_open name)
    st_size ← or_die (h.fstat s) (unable_to_stat name)
    copy_file (st_size % 2 ^ 32) name (st_size % 2 ^ 32) s
    give (st_size % 2 ^ 32)

  unfoldable pub put_header : (sys_size usr_size : ℕ) → Build h.Output Unit
  put_header sys_size usr_size = do
    seek_to 0
    write_whole (1 ∷ 0 ∷ 0 ∷ 0xeb ∷ []) branch_failed
    seek_to 4
    write_whole (low_bytes sys_size) system_failed
    seek_to 8
    write_whole (low_bytes usr_size) user_failed

  -- `arguments` are `argv[1]` and on.
  unfoldable pub build : (arguments : List (List ℕ)) → Build h.Output Unit
  build (system ∷ user ∷ []) = do
    sys_size ← put_file system
    usr_size ← put_file user
    put_header sys_size usr_size
  build _ = die usage
