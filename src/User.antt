-- ===== src/User.antt =====
-- user.c and perror.c: what a user's program does, as a tree of its actions. An action is a system
-- call or an access through a pointer, and the program goes on with its answer. The tasks that share
-- a memory share `errno` too; here a task has its own: the text that `perror` finds is that of the last
-- error of this task.
pub mod Perror
pub mod Programs
pub mod Dynamic
pub mod Clones
pub mod Released
use Prim.Native.String.{String}
use ze_ospi.Base.{
  chars, ℕ, zero, suc, ◌+◌, ◌*◌, ◌-◌, List, [], ◌∷◌, ◌==◌, ltb, ◌≡◌, refl, ◌++◌, if◌then◌else◌,
  true, false, length, get_or, Option, none, some, ℤ, pos, negsuc,
}
use ze_ospi.Libc.{check_result}
use ze_ospi.Text.{Buffer, itoa, strlen}

-- The functions that are given to `clone`.
pub data Function : Type 0 where
  semaphores_test1sub clone_hello : Function

-- `text` is what stands at the address given to `write`.
pub data Action : Type 0 where
  write : (text : List ℕ) (size : ℕ) → Action
  read : (size : ℕ) → Action
  sem_init : (n_sem value : ℕ) → Action
  sem_wait sem_signal : (n_sem : ℕ) → Action
  clone : Function → (stack : ℕ) → Action
  fork exit : Action
  sbrk : (increment : ℤ) → Action
  store : (address : ℤ) (index value : ℕ) → Action
  load : (address : ℤ) (index : ℕ) → Action

-- The result, and what a read has put at the address that it was given.
pub record Response : Type 0 where
  pub ret : ℤ
  pub bytes : List ℕ

-- `spins` is `while(1);`, and `unfinished` a loop whose rounds are used up.
pub data Program (A : Type 0) : Type 0 where
  done : A → Program A
  spins : Program A
  unfinished : Program A
  act : Action → (Response → Program A) → Program A

infixl 5 ◌>>=◌ ◌>>◌
abbrev then_do : {A B : Type 0} → Program A → (A → Program B) → Program B
then_do (done a) f = f a
then_do spins f = spins
then_do unfinished f = unfinished
then_do (act x k) f = act x (λ r. then_do (k r) f)

-- A program with its `errno`.
abbrev pub M : Type 0 → Type 0
M A = ℤ → Program (A × ℤ)

abbrev pub ◌>>=◌ : {A B : Type 0} → M A → (A → M B) → M B
◌>>=◌ m f e = then_do (m e) (λ p. f p.0 p.1)

abbrev pub ◌>>◌ : {A B : Type 0} → M A → M B → M B
m >> k = m >>= λ _. k

abbrev pub give : {A : Type 0} → A → M A
give a e = done (a, e)

abbrev pub spin : {A : Type 0} → M A
spin e = spins

-- A wrapper of libc.c: an error of the kernel becomes -1, with its code in `errno`.
abbrev pub system : Action → M Response
system x e = act x (λ r.
    let p = check_result (r.ret, r.bytes) e in
    done (record { ret = p.0; bytes = p.1.rest }, p.1.errno))

-- A wrapper that leaves `errno` alone, or an access.
abbrev pub plain : Action → M Response
plain x e = act x (λ r. done (r, e))

-- `write(1, text, size)`
abbrev pub write_text : (text : String) (size : ℕ) → M Response
write_text s size = system (write (chars s) size)

-- `write(1, s, strlen(s))`
abbrev pub write_all : (text : List ℕ) → M Response
write_all s = system (write s (length s))

-- How a run ends.
pub data Ending (A : Type 0) : Type 0 where
  returned : A → Ending A
  spinning out_of_rounds : Ending A

-- The actions in their order, the ending and the state of those who answer.
pub record Run (A S : Type 0) : Type 0 where
  pub log : List Action
  pub ending : Ending A
  pub state : S

-- A program before one who answers, the kernel for example.
module _ {S : Type 0} (answer : Action → S → Response × S) where
  abbrev pub run : {A : Type 0} → Program A → S → Run A S
  run (done a) s = record { log = []; ending = returned a; state = s }
  run spins s = record { log = []; ending = spinning; state = s }
  run unfinished s = record { log = []; ending = out_of_rounds; state = s }
  run (act x k) s =
      let (r, s') = answer x s in let rest = run (k r) s' in record rest { log = x ∷ rest.log }

  -- What is run after a run.
  abbrev pub continued : {A B : Type 0} → Ending A → List Action → S → (A → Program B) → Run B S
  continued (returned a) log s f = let rest = run (f a) s in record rest { log = log ++ rest.log }
  continued spinning log s f = record { log = log; ending = spinning; state = s }
  continued out_of_rounds log s f = record { log = log; ending = out_of_rounds; state = s }

  continued-cons :
      {A B : Type 0} (x : Action) (e : Ending A) (log : List Action) (s : S) (f : A → Program B)
      → record (continued e log s f) { log = x ∷ (continued e log s f).log }
        ≡ continued e (x ∷ log) s f
  continued-cons x (returned a) log s f = refl
  continued-cons x spinning log s f = refl
  continued-cons x out_of_rounds log s f = refl

  pub run-then_do :
      {A B : Type 0} (p : Program A) (f : A → Program B) (s : S)
      → let r = run p s in run (then_do p f) s ≡ continued r.ending r.log r.state f
  run-then_do (done a) f s = refl
  run-then_do spins f s = refl
  run-then_do unfinished f s = refl
  run-then_do (act x k) f s =
      let (r, s') = answer x s in
      let first = run (k r) s' in
      rw (run-then_do (k r) f s') (continued-cons x first.ending first.log first.state f)
