-- ===== src/Libc/Calls.antt =====
-- The wrappers of libc.c against the handlers that they are for.
use ze_ospi.Base.{
  ℕ, ◌+◌, ◌-◌, ◌%◌, ◌^◌, ◌<◌, ◌≡◌, refl, arith, ltb, lt→ltb, false, List, [], ◌∷◌, ℤ, pos, negsuc,
}
use ze_ospi.Libc.{
  Handler, exit_handler, fork_handler, clone_handler, write_handler, read_handler,
  debug_tswitch_handler, gettime_handler, led_handler, getpid_handler, sem_init_handler,
  sem_wait_handler, sem_signal_handler, sem_destroy_handler, sbrk_handler, get_stats_handler, User,
  sys_call_table, as_int, in_r0, check_result, write, read, gettime, getpid, fork,
  debug_task_switch, exit, get_stats, clone, sem_init, sem_wait, sem_signal, sem_destroy, sbrk,
  change_led,
}

as_int-small : (n : ℕ) → n < 2 ^ 31 → as_int (pos n) ≡ pos n
as_int-small n small =
    let same : n % 2 ^ 32 ≡ n = omega arith in rw (same, lt→ltb n (2 ^ 31) small) refl

as_int-negsuc : (n : ℕ) → n + 1 < 2 ^ 31 → as_int (negsuc n) ≡ negsuc n
as_int-negsuc n small =
    let same : n % 2 ^ 32 ≡ n = omega arith in rw (same, lt→ltb n (2 ^ 31) (omega arith)) refl

as_int-large : (n : ℕ) → 2 ^ 31 < n → n < 2 ^ 32 → as_int (pos n) ≡ negsuc (2 ^ 32 - 1 - n)
as_int-large n large word =
    let same : n % 2 ^ 32 ≡ n = omega arith in
    let off : ltb n (2 ^ 31) ≡ false = ground arith in rw (same, off) refl

module _ {S : Type 0} (handle : Handler → List ℕ → S → ℤ × S) where
  -- A wrapper that follows the convention of errors: it leads to that handler with those arguments;
  -- a result from 0 to 2 ^ 31 - 1 is passed on, and `errno` stays; one from -2 ^ 31 + 1 to -1 becomes
  -- -1, and `errno` its absolute value; and so does a word above 2 ^ 31, with what is missing to 2 ^ 32.
  -- The handler's effect is the same.
  abbrev pub Reports : Handler → List ℕ → (User S → ℤ × User S) → Type 0
  Reports h args wrapper =
      (u : User S) (s : S) (n : ℕ)
      → (n < 2 ^ 31
          → handle h args u.rest ≡ (pos n, s)
          → wrapper u ≡ (pos n, record { errno = u.errno; rest = s }))
        × (n + 1 < 2 ^ 31
            → handle h args u.rest ≡ (negsuc n, s)
            → wrapper u ≡ (negsuc 0, record { errno = pos (n + 1); rest = s }))
        × (2 ^ 31 < n
            → n < 2 ^ 32
            → handle h args u.rest ≡ (pos n, s)
            → wrapper u ≡ (negsuc 0, record { errno = pos (2 ^ 32 - n); rest = s }))

  reports :
      (h : Handler) (args : List ℕ)
      → Reports h args (λ u. check_result (in_r0 (handle h args u.rest)) u.errno)
  reports h args u s n = (
    λ small e. rw (e, as_int-small n small) refl,
    λ small e. rw (e, as_int-negsuc n small) refl,
    λ large word e.
        let back : 2 ^ 32 - 1 - n + 1 ≡ 2 ^ 32 - n = omega arith in
        rw (e, as_int-large n large word, back) refl,
  )

  -- Each wrapper but five finds its own handler in the table, hands its arguments on in
  -- their order, and treats what the handler leaves in r0 as an `int`: 0 to 2 ^ 31 - 1 is passed on,
  -- a number from -2 ^ 31 + 1 to -1 is reported as -1 with its absolute value in `errno`, and a word w
  -- above 2 ^ 31, as a high break is, as -1 too, with 2 ^ 32 - w in `errno`.
  pub wrappers-Reports :
      (a b c : ℕ)
      → Reports write_handler (a ∷ b ∷ c ∷ []) (write handle a b c)
        × Reports read_handler (a ∷ b ∷ c ∷ []) (read handle a b c)
        × Reports fork_handler [] (fork handle)
        × Reports get_stats_handler (a ∷ b ∷ []) (get_stats handle a b)
        × Reports clone_handler (a ∷ b ∷ []) (clone handle a b)
        × Reports sem_init_handler (a ∷ b ∷ []) (sem_init handle a b)
        × Reports sem_wait_handler (a ∷ []) (sem_wait handle a)
        × Reports sem_signal_handler (a ∷ []) (sem_signal handle a)
        × Reports sem_destroy_handler (a ∷ []) (sem_destroy handle a)
        × Reports sbrk_handler (a ∷ []) (sbrk handle a)
  unfolding sys_call_table write read fork get_stats clone sem_init sem_wait sem_signal sem_destroy
      sbrk
  wrappers-Reports a b c = (
    reports write_handler (a ∷ b ∷ c ∷ []),
    reports read_handler (a ∷ b ∷ c ∷ []),
    reports fork_handler [],
    reports get_stats_handler (a ∷ b ∷ []),
    reports clone_handler (a ∷ b ∷ []),
    reports sem_init_handler (a ∷ b ∷ []),
    reports sem_wait_handler (a ∷ []),
    reports sem_signal_handler (a ∷ []),
    reports sem_destroy_handler (a ∷ []),
    reports sbrk_handler (a ∷ []),
  )

  abbrev pub after : Handler → List ℕ → User S → User S
  after h args u = record u { rest = (handle h args u.rest).1 }

  -- The other five find theirs too, and leave `errno` alone: three pass on whatever `int` there is,
  -- and two return nothing.
  pub wrappers-plain :
      (a : ℕ) (u : User S)
      → (gettime handle u
          ≡ (as_int (handle gettime_handler [] u.rest).0, after gettime_handler [] u))
        × (getpid handle u
            ≡ (as_int (handle getpid_handler [] u.rest).0, after getpid_handler [] u))
        × (debug_task_switch handle u
            ≡ (as_int (handle debug_tswitch_handler [] u.rest).0, after debug_tswitch_handler [] u))
        × (exit handle u ≡ after exit_handler [] u)
        × (change_led handle a u ≡ after led_handler (a ∷ []) u)
  unfolding sys_call_table gettime getpid debug_task_switch exit change_led
  wrappers-plain a u = (refl, refl, refl, refl, refl)
