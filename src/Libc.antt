-- ===== src/Libc.antt =====
-- libc.c: the wrappers of the system calls, and sys_call_table.S, through which the instruction
-- `svc` finds the handler of the number in r7.
pub mod Calls
use ze_ospi.Base.{ℕ, List, [], ◌∷◌, ◌==◌, if◌then◌else◌, ltb, ◌+◌, ◌-◌, ◌%◌, ◌^◌, ℤ, pos, negsuc}

-- The entries of `sys_call_table`.
pub data Handler : Type 0 where
  ni_syscall_handler exit_handler fork_handler clone_handler write_handler read_handler
        debug_tswitch_handler :
      Handler
  gettime_handler led_handler getpid_handler sem_init_handler sem_wait_handler sem_signal_handler :
      Handler
  sem_destroy_handler sbrk_handler get_stats_handler : Handler

-- The table has the entries 0 to 40.
unfoldable pub sys_call_table : ℕ → Handler
sys_call_table n =
    if n == 1
    then exit_handler
    else if n == 2
    then fork_handler
    else if n == 3
    then clone_handler
    else if n == 4
    then write_handler
    else if n == 5
    then read_handler
    else if n == 9
    then debug_tswitch_handler
    else if n == 10
    then gettime_handler
    else if n == 15
    then led_handler
    else if n == 20
    then getpid_handler
    else if n == 21
    then sem_init_handler
    else if n == 22
    then sem_wait_handler
    else if n == 23
    then sem_signal_handler
    else if n == 24
    then sem_destroy_handler
    else if n == 25
    then sbrk_handler
    else if n == 35
    then get_stats_handler
    else ni_syscall_handler

-- The state of a user's program: `errno`, and whatever the handlers work on.
pub record User (S : Type 0) : Type 0 where
  pub errno : ℤ
  pub rest : S

-- The result in r0 as an `int`: a word of 2 ^ 31 or above is a negative number.
abbrev pub as_int : ℤ → ℤ
as_int (pos n) = let w = n % 2 ^ 32 in if ltb w (2 ^ 31) then pos w else negsuc (2 ^ 32 - 1 - w)
as_int (negsuc n) = let w = n % 2 ^ 32 in if ltb w (2 ^ 31) then negsuc w else pos (2 ^ 32 - 1 - w)

abbrev pub in_r0 : {S : Type 0} → ℤ × S → ℤ × S
in_r0 (r, s) = (as_int r, s)

-- `if (ret < 0) { errno = -ret; ret = -1; }`, on an `int`. The negative of -2 ^ 31 is undefined in C; no
-- theorem is about it.
abbrev pub check_result : {S : Type 0} → ℤ × S → ℤ → ℤ × User S
check_result (pos n, s) e = (pos n, record { errno = e; rest = s })
check_result (negsuc n, s) e = (negsuc 0, record { errno = pos (n + 1); rest = s })

-- The result as it is.
abbrev pub plain_result : {S : Type 0} → ℤ × S → ℤ → ℤ × User S
plain_result (r, s) e = (r, record { errno = e; rest = s })

-- What the handlers do with the arguments in r0, r1 and r2. Arguments are words.
module _ {S : Type 0} (handle : Handler → List ℕ → S → ℤ × S) where
  -- The `svc` instruction with `number` in r7.
  abbrev pub svc : ℕ → List ℕ → S → ℤ × S
  svc number args s = in_r0 (handle (sys_call_table number) args s)

  unfoldable pub write : (fd buffer size : ℕ) → User S → ℤ × User S
  write fd buffer size u = check_result (svc 4 (fd ∷ buffer ∷ size ∷ []) u.rest) u.errno

  unfoldable pub read : (fd buffer size : ℕ) → User S → ℤ × User S
  read fd buffer size u = check_result (svc 5 (fd ∷ buffer ∷ size ∷ []) u.rest) u.errno

  unfoldable pub gettime : User S → ℤ × User S
  gettime u = plain_result (svc 10 [] u.rest) u.errno

  unfoldable pub getpid : User S → ℤ × User S
  getpid u = plain_result (svc 20 [] u.rest) u.errno

  unfoldable pub fork : User S → ℤ × User S
  fork u = check_result (svc 2 [] u.rest) u.errno

  unfoldable pub debug_task_switch : User S → ℤ × User S
  debug_task_switch u = plain_result (svc 9 [] u.rest) u.errno

  -- Nothing is returned.
  unfoldable pub exit : User S → User S
  exit u = record u { rest = (svc 1 [] u.rest).1 }

  unfoldable pub get_stats : (pid st : ℕ) → User S → ℤ × User S
  get_stats pid st u = check_result (svc 35 (pid ∷ st ∷ []) u.rest) u.errno

  unfoldable pub clone : (function stack : ℕ) → User S → ℤ × User S
  clone function stack u = check_result (svc 3 (function ∷ stack ∷ []) u.rest) u.errno

  unfoldable pub sem_init : (n_sem value : ℕ) → User S → ℤ × User S
  sem_init n_sem value u = check_result (svc 21 (n_sem ∷ value ∷ []) u.rest) u.errno

  unfoldable pub sem_wait : (n_sem : ℕ) → User S → ℤ × User S
  sem_wait n_sem u = check_result (svc 22 (n_sem ∷ []) u.rest) u.errno

  unfoldable pub sem_signal : (n_sem : ℕ) → User S → ℤ × User S
  sem_signal n_sem u = check_result (svc 23 (n_sem ∷ []) u.rest) u.errno

  unfoldable pub sem_destroy : (n_sem : ℕ) → User S → ℤ × User S
  sem_destroy n_sem u = check_result (svc 24 (n_sem ∷ []) u.rest) u.errno

  unfoldable pub sbrk : (increment : ℕ) → User S → ℤ × User S
  sbrk increment u = check_result (svc 25 (increment ∷ []) u.rest) u.errno

  -- Nothing is returned.
  unfoldable pub change_led : (status : ℕ) → User S → User S
  change_led status u = record u { rest = (svc 15 (status ∷ []) u.rest).1 }
