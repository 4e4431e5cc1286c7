-- ===== src/User/Programs.antt =====
-- user.c: the programs. `buff` and `pidc` are the bytes of the arrays; a pointer into an array is
-- what stands there from that place on.
use ze_ospi.Base.{
  chars, ℕ, zero, suc, ◌+◌, Bool, true, false, if◌then◌else◌, List, [], ◌∷◌, ◌++◌, length, some, ℤ,
  pos, negsuc,
}
use ze_ospi.Text.{Buffer, itoa, strlen}
use ze_ospi.User.{
  semaphores_test1sub, write, read, sem_init, sem_wait, sem_signal, clone, fork, exit, sbrk, store,
  load, Response, unfinished, M, ◌>>=◌, ◌>>◌, give, spin, system, plain, write_text, write_all,
}
use ze_ospi.User.Perror.{perror}

-- `== -1`
abbrev pub failed : ℤ → Bool
failed (negsuc zero) = true
failed _ = false

abbrev pub is_zero : ℤ → Bool
is_zero (pos zero) = true
is_zero _ = false

abbrev pub is_positive : ℤ → Bool
is_positive (pos (suc n)) = true
is_positive _ = false

abbrev pub drop : ℕ → List ℕ → List ℕ
drop zero xs = xs
drop (suc n) [] = []
drop (suc n) (x ∷ xs) = drop n xs

-- Bytes that are put into an array from place `i` on.
abbrev pub put_bytes : (i : ℕ) → List ℕ → List ℕ → List ℕ
put_bytes zero bytes xs = bytes ++ drop (length bytes) xs
put_bytes (suc i) bytes [] = []
put_bytes (suc i) bytes (x ∷ xs) = x ∷ put_bytes i bytes xs

-- The first `n` bytes of a buffer from `i` on.
abbrev pub bytes_from : (n i : ℕ) → Buffer → List ℕ
bytes_from zero i b = []
bytes_from (suc n) i b = b i ∷ bytes_from n (i + 1) b

-- `itoa(n,cbuff)`, with the text that is then written; `cbuff` has 11 bytes.
abbrev pub number_text : ℤ → List ℕ
number_text n = let b = itoa n (λ _. 0) in bytes_from (strlen 11 0 b) 0 b

-- `write(1,&buff[i],1); read(0,&buff[1],1); write(1,&buff[1],1);` in a loop.
unfoldable pub echo : (rounds i : ℕ) (buff : List ℕ) → M (Unit {0})
echo zero i buff = λ e. unfinished
echo (suc n) i buff = do
  system (write (drop i buff) 1)
  r ← system (read 1)
  let buff' = put_bytes 1 r.bytes buff
  system (write (drop 1 buff') 1)
  echo n i buff'

unfoldable pub clone_hello_body : (rounds : ℕ) (buff : List ℕ) → M (Unit {0})
clone_hello_body n buff = echo n 3 (put_bytes 3 (b'c' ∷ []) buff)

unfoldable pub semaphores_test1sub_body : M (Unit {0})
semaphores_test1sub_body = do
  write_text "Clone bloquejant-me pel semaphore 0\n" 36
  err ← system (sem_wait 0)
  if failed err.ret then perror (some (chars "Sem")) else give tt
  write_text "Clone desbloquejat\n" 19
  plain exit
  give tt

unfoldable pub semaphores_test1 : (pidc : List ℕ) → M (Unit {0})
semaphores_test1 pidc = do
  system (sem_init 0 0)
  system (clone semaphores_test1sub 1024)
  system (clone semaphores_test1sub 2048)
  write_text "Allibero els clones si em parles: \n" 35
  r ← system (read 5)
  system (write (put_bytes 0 r.bytes pidc) 5)
  system (sem_signal 0)
  system (sem_signal 0)
  write_text "\nAlliberats!\n" 13
  spin

unfoldable pub user_main : (rounds : ℕ) (pidc buff : List ℕ) → M (Unit {0})
user_main n pidc buff = do
  semaphores_test1 pidc
  pid ← system fork
  echo n 0 (put_bytes 0 ((if is_zero pid.ret then b'f' else b'p') ∷ []) buff)

-- The loop of `dinam_test` and its count.
unfoldable pub grab : (rounds c : ℕ) → M ℕ
grab zero c = λ e. unfinished
grab (suc n) c =
    let rest = grab n (c + 1) in
    system (sbrk (pos 4096)) >>= λ r. if failed r.ret then give (c + 1) else rest

-- The loop ends with the pointer at -1 only.
unfoldable pub dinam_test : (rounds : ℕ) → M (Unit {0})
dinam_test n = do
  c ← grab n 0
  perror (some (chars "Memoria"))
  write_all (number_text (pos c))
  plain (store (negsuc 0) 0 1)
  plain (store (negsuc 0) 1 2)
  plain (store (negsuc 0) 2 3)
  plain (store (negsuc 0) 3 4)
  plain (store (negsuc 0) 4 5)
  spin

-- `itoa(n,cbuff);write(1,cbuff,strlen(cbuff));write(1,"\n",1);`
abbrev pub print_line : ℤ → M Response
print_line n = do write_all (number_text n); write_text "\n" 1

-- The three numbers that each of the two tasks shows.
abbrev pub show : (pointer ini_pointer : ℤ) → M Response
show pointer ini_pointer = do
  print_line pointer
  a ← plain (load ini_pointer 2)
  print_line a.ret
  b ← plain (load ini_pointer 3)
  print_line b.ret

abbrev pub parent_part : (ini_pointer : ℤ) → M Response
parent_part ini = do
  p ← system (sbrk (pos 4097))
  plain (store ini 2 1)
  plain (store ini 3 1)
  write_text "Pare:\n" 6
  show p.ret ini

abbrev pub child_part : (ini_pointer : ℤ) → M Response
child_part ini = do
  system (sbrk (pos 0))
  plain (store ini 2 2)
  plain (store ini 3 2)
  p ← system (sbrk (pos 9000))
  plain (store p.ret 2 3)
  plain (store p.ret 3 4)
  write_text "Fill:\n" 6
  show p.ret ini

-- By what `fork` returns.
abbrev pub either_part : (pid ini_pointer : ℤ) → M Response
either_part pid ini =
    if is_positive pid
    then parent_part ini
    else if is_zero pid
    then child_part ini
    else give (record { ret = pid; bytes = [] })

unfoldable pub dinam_test2 : M (Unit {0})
dinam_test2 = do
  ini ← system (sbrk (pos 16))
  plain (store ini.ret 0 1)
  plain (store ini.ret 1 2)
  plain (store ini.ret 2 3)
  plain (store ini.ret 3 4)
  pid ← system fork
  either_part pid.ret ini.ret
  spin
