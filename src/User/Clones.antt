-- ===== src/User/Clones.antt =====
-- `semaphores_test1` of user.c, its clones, and `main`, before any answers.
use ze_ospi.Base.{
  chars, ℕ, ◌+◌, ◌≡◌, refl, List, [], ◌∷◌, ◌++◌, length, ℤ, ◌⊎◌, inl, inr, pos, negsuc,
}
use ze_ospi.User.{Action, write, sem_wait, exit, Response, run}
use ze_ospi.User.Perror.{message, perror}
use ze_ospi.User.Programs.{semaphores_test1sub_body, semaphores_test1, user_main}

ℤ-cases : (z : ℤ) → ((n : ℕ) × (z ≡ pos n)) ⊎ ((n : ℕ) × (z ≡ negsuc n))
ℤ-cases (pos n) = inl (n, refl)
ℤ-cases (negsuc n) = inr (n, refl)

module _ {S : Type 0} (answer : Action → S → Response × S) where
  abbrev pub first_write : Action
  first_write = write (chars "Clone bloquejant-me pel semaphore 0\n") 36

  abbrev pub wait_answer : S → ℤ
  wait_answer s = (answer (sem_wait 0) (answer first_write s).1).0.ret

  -- What stands between the wait and the end, by the wait's answer.
  abbrev pub complaint : ℤ → List Action
  complaint (pos n) = []
  complaint (negsuc n) =
      write (chars "Sem") 3
      ∷ write (chars ": ") 2
      ∷ write (message (pos (n + 1))) (length (message (pos (n + 1))))
      ∷ write (chars "\n") 1
      ∷ []

  -- A clone says that it waits, and waits. If the kernel refuses or ends the wait with an error, it
  -- prints "Sem: " and the text of what `errno` holds, its own here: in the program the tasks of one
  -- memory share it, so that another task can write it in between. Then it says that it goes on, and exits.
  pub clone-log :
      (e : ℤ) (s : S)
      → (run answer (semaphores_test1sub_body e) s).log
        ≡ first_write ∷ sem_wait 0 ∷ complaint (wait_answer s)
          ++ write (chars "Clone desbloquejat\n") 19 ∷ exit ∷ []
  unfolding semaphores_test1sub_body perror
  clone-log e s = elim (ℤ-cases (wait_answer s)) [
    | inl (n, fine) ↦ rw fine refl
    | inr (n, bad) ↦ rw bad refl
  ]

  user_main-semaphores_test1 :
      (rounds : ℕ) (pidc buff : List ℕ) (e : ℤ) (s : S)
      → run answer (user_main rounds pidc buff e) s ≡ run answer (semaphores_test1 pidc e) s
  unfolding user_main semaphores_test1
  user_main-semaphores_test1 rounds pidc buff e s = refl
