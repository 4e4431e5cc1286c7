-- ===== src/User/Perror.antt =====
-- perror.c.
use ze_ospi.Base.{
  chars, ℕ, ◌≡◌, refl, List, [], ◌∷◌, ◌++◌, ltb, if◌then◌else◌, length, get_or, Option, none, some,
  ℤ, pos, negsuc,
}
use ze_ospi.User.{Action, write, Response, M, ◌>>=◌, ◌>>◌, give, write_text, write_all, run}

abbrev pub sys_errlist : List (List ℕ)
sys_errlist =
    chars "No error condition exists"
    ∷ chars "Bad file number"
    ∷ chars "Permission denied"
    ∷ chars "Function not implemented"
    ∷ chars "Pointer is null"
    ∷ chars "Size is not positive"
    ∷ chars "Can't access pointer"
    ∷ chars "There are no more free tasks"
    ∷ chars "There are no more free physical pages"
    ∷ chars "There is no task with the specified pid"
    ∷ chars "There are no enough page table entries for the process"
    ∷ chars "Invalid semaphore number"
    ∷ chars "Semaphore already initialised"
    ∷ chars "Semaphore not initialised"
    ∷ chars "Blocked in a destroyed semaphore"
    ∷ chars "Not the owner of the semaphore"
    ∷ chars "Not enough free memory in the heap"
    ∷ chars "Heap limit reached"
    ∷ []

abbrev pub sys_nerr : ℕ
sys_nerr = 17

-- `cp`. The source reads the table before it tests the number; what it reads beyond the table is not used.
abbrev pub message : (errno : ℤ) → List ℕ
message (pos n) = if ltb sys_nerr n then chars "Unknown error" else get_or sys_errlist n []
message (negsuc n) = chars "Unknown error"

abbrev errno : M ℤ
errno e = give e e

-- `none` is NULL.
abbrev pub announce : Option (List ℕ) → M (Unit {0})
announce none = give tt
announce (some s) = do write_all s; write_text ": " 2; give tt

unfoldable pub perror : Option (List ℕ) → M (Unit {0})
perror s = do n ← errno; announce s; write_all (message n); write_text "\n" 1; give tt

abbrev pub announced : Option (List ℕ) → List Action
announced none = []
announced (some s) = write s (length s) ∷ write (chars ": ") 2 ∷ []

module _ {S : Type 0} (answer : Action → S → Response × S) where
  perror-log :
      (s : Option (List ℕ)) (e : ℤ) (state : S)
      → (run answer (perror s e) state).log
        ≡ announced s ++ write (message e) (length (message e)) ∷ write (chars "\n") 1 ∷ []
  unfolding perror
  perror-log none e state = refl
  perror-log (some s) e state = refl
