-- ===== src/Input/Progress.antt =====
-- A reader's progress from one turn on the processor to the next.
use ze_ospi.Base.{
  ℕ, ◌+◌, ◌-◌, ◌%◌, ◌^◌, ◌<◌, ◌≡◌, refl, ap, ◌∙◌, ◌≢◌, List, [], ◌++◌, inl, inr, ◌⊎◌, arith, true,
  false, not, ltb, leb, ◌&&◌, ◌==◌, if◌then◌else◌, Bool-cases, ==→eq, ltb→lt, ltb→le, length,
  get_or, pos, eq→==, Bool,
}
use ze_ospi.Cbuffer.{CircularBuffer, circularb_is_empty}
use ze_ospi.Cbuffer.Valid.{IsValid}
use ze_ospi.Cbuffer.Refine.{contents}
use ze_ospi.Kernel.{KeyboardInfo, Task, Kernel, with_task, sub32, st_ready, returns, waits}
use ze_ospi.Sched.{
  with_quantum, count_switch, default_rr_quantum, keyboard, choose, give_cpu, task_switch,
  task_switch_wrapper, sched_update_queues_state_rr, sched_switch_process_rr,
}
use ze_ospi.Sched.Untouched.{choose-keeps}
use ze_ospi.Utils.{Memory}
use ze_ospi.Input.{Reading, took, read_keys, take_keys, sleep, answer, read_on}
use ze_ospi.Input.Chars.{read_keys-TakenKeys, no_contents}

-- What a reader is told by the kernel when it runs again.
abbrev Same : ℕ → Kernel → Kernel → Type 0
Same c k' k = (k'.uart_read_buffer ≡ k.uart_read_buffer) × ((k'.task c).kbinfo ≡ (k.task c).kbinfo)

-- A task is stored that has the same.
with_task-kbinfo :
    (t c : ℕ) (x : Task) (k : Kernel)
    → x.kbinfo ≡ (k.task t).kbinfo
    → ((with_task t x k).task c).kbinfo ≡ (k.task c).kbinfo
with_task-kbinfo t c x k e = elim (Bool-cases (t == c)) [
  | inl here ↦ rw here (e ∙ ap (λ i. (k.task i).kbinfo) (==→eq t c here))
  | inr other ↦ rw other refl
]

task_switch-Same : (new sp c : ℕ) (k : Kernel) → Same c (task_switch new sp k) k
unfolding task_switch
task_switch-Same new sp c k = (
  refl,
  with_task-kbinfo k.current c (record (k.task k.current) { kernel_sp = sp; kernel_lr = k.cpu.lr })
      k refl,
)

either :
    (c : ℕ) (k : Kernel) (b : Bool) (k1 k2 : Kernel)
    → Same c k1 k
    → Same c k2 k
    → Same c (if not b then k1 else k2) k
either c k true k1 k2 s s' = s'
either c k false k1 k2 s s' = s

give_cpu-Same : (t c : ℕ) (k : Kernel) → Same c (give_cpu t k) k
unfolding give_cpu task_switch_wrapper
give_cpu-Same t c k =
    let k1 = record (with_task t (with_quantum (k.task t)) k) { rr_quantum = default_rr_quantum } in
    let first = with_task-kbinfo t c (with_quantum (k.task t)) k refl in
    let k2 = with_task t (count_switch (k1.task t)) k1 in
    let x = record (k2.task k.current) { process_state = st_ready } in
    let (b, i) = task_switch-Same t (sub32 k2.cpu.sp 52) c (with_task k.current x k2) in
    either c k (t == k.current) _ _
      (
        b,
        i
            ∙ with_task-kbinfo k.current c x k2 refl
            ∙ with_task-kbinfo t c (count_switch (k1.task t)) k1 refl
            ∙ first,
      )
      (refl, first)

choose-Same : (c : ℕ) (k : Kernel) → Same c (choose k).1 k
choose-Same c k = (
  choose-keeps (λ k. k.uart_read_buffer) (λ k ts. refl) (λ k ts. refl) k,
  choose-keeps (λ k. (k.task c).kbinfo) (λ k ts. refl) (λ k ts. refl) k,
)

put-Same : (c : ℕ) (k : Kernel) → Same c (sched_update_queues_state_rr keyboard c k) k
unfolding sched_update_queues_state_rr
put-Same c k = ground arith

requeue-Same :
    (c : ℕ) (k : Kernel)
    → Same c (sched_switch_process_rr (sched_update_queues_state_rr keyboard c k)) k
unfolding sched_switch_process_rr
requeue-Same c k =
    let k1 = sched_update_queues_state_rr keyboard c k in
    let (b, i) = give_cpu-Same (choose k1).0 c (choose k1).1 in
    let (b', i') = choose-Same c k1 in let (b'', i'') = put-Same c k in (b ∙ b' ∙ b'', i ∙ i' ∙ i'')

-- `keysread` of `size` characters are in the block at `base`.
pub record Progress (base size : ℕ) (i : KeyboardInfo) : Type 0 where
  pub pointer : i.keybuffer ≡ base + i.keysread
  pub total : i.keysread + i.keystoread ≡ size

module _ (read : ℕ) where
  -- One turn: the reader has taken `keys` from the front of the buffer.
  pub record Turn (base size : ℕ) (i : KeyboardInfo) (cb : CircularBuffer) (m : Memory)
      (i' : KeyboardInfo) (cb' : CircularBuffer) (m' : Memory) : Type 0 where
    pub keys : List ℕ
    pub front : contents cb ≡ keys ++ contents cb'
    pub progress : Progress base size i'
    pub count : i'.keysread ≡ i.keysread + length keys
    pub bytes :
        (a : ℕ)
        → a ≢ read
        → let from = base + i.keysread in
          m' a
          ≡ (if leb from a && ltb a (from + length keys) then get_or keys (a - from) 0 else m a)
    pub early : 0 < i'.keystoread → contents cb' ≡ []
    pub valid : IsValid cb'

  read_keys-Turn :
      (base size : ℕ) (i : KeyboardInfo) (cb : CircularBuffer) (m : Memory)
      → IsValid cb
      → Progress base size i
      → size < 2 ^ 31
      → read < base
      → base + size < 2 ^ 32
      → let r = read_keys read i.keystoread i.keybuffer cb m in
        Turn base size i cb m (took read i.keysread i.keystoread r) r.buffer r.memory
  read_keys-Turn base size i cb m v p small below room =
      let t =
        read_keys-TakenKeys read i.keystoread i.keybuffer cb m v (omega (arith, p.pointer))
          (omega (arith, p.pointer, p.total, room)) in
      let count : (i.keysread
              + (i.keystoread - (read_keys read i.keystoread i.keybuffer cb m).left))
            % 2 ^ 32
          ≡ i.keysread + length t.keys =
        omega (arith, t.count, p.total) in
      record {
        keys = t.keys;
        front = t.front;
        progress = record {
          pointer = omega (arith, t.pointer, p.pointer, count);
          total = omega (arith, t.count, p.total, count);
        };
        count = count;
        bytes = λ a ne. rw (← p.pointer) (t.bytes a ne);
        early = t.early;
        valid = t.valid;
      }

  take_keys-Turn :
      (base size : ℕ) (k : Kernel) (m : Memory)
      → IsValid k.uart_read_buffer
      → Progress base size (k.task k.current).kbinfo
      → size < 2 ^ 31
      → read < base
      → base + size < 2 ^ 32
      → let (k', m') = take_keys read k m in
        Turn base size
          (k.task k.current).kbinfo
          k.uart_read_buffer
          m
          (k'.task k.current).kbinfo
          k'.uart_read_buffer
          m'
        × (k'.current ≡ k.current)
  unfolding take_keys
  take_keys-Turn base size k m v p small below room =
      let i = (k.task k.current).kbinfo in
      elim (Bool-cases (circularb_is_empty k.uart_read_buffer)) [
        | inl empty ↦ rw empty (
          record {
            keys = [];
            front = refl;
            progress = p;
            count = omega arith;
            bytes = λ a ne. ground arith;
            early = λ h. no_contents read k.uart_read_buffer v empty;
            valid = v;
          },
          refl,
        )
        | inr some_keys ↦
            let r = read_keys read i.keystoread i.keybuffer k.uart_read_buffer m in
            let x = record (k.task k.current) { kbinfo = took read i.keysread i.keystoread r } in
            let info : (if k.current == k.current then x else k.task k.current).kbinfo ≡ x.kbinfo =
              rw (eq→== k.current k.current refl) refl in
            rw some_keys
              (rw info (read_keys-Turn base size i k.uart_read_buffer m v p small below room), refl)
      ]

  -- What the end of a turn says.
  abbrev pub Verdict : (size : ℕ) → Reading → KeyboardInfo → Type 0
  Verdict size r i' =
      ((r.reply ≡ returns (pos size)) × (i'.keystoread ≡ 0))
      ⊎ ((r.reply ≡ waits) × (0 < i'.keystoread) × (contents r.kernel.uart_read_buffer ≡ []))

  Turn-answer :
      (base size c : ℕ) (i : KeyboardInfo) (cb : CircularBuffer) (m : Memory) (k' : Kernel)
      (m' : Memory)
      → k'.current ≡ c
      → Turn base size i cb m (k'.task c).kbinfo k'.uart_read_buffer m'
      → let r : Reading =
          if ltb 0 (k'.task k'.current).kbinfo.keystoread
          then sleep read k' m'
          else answer read k' m' in
        Turn base size i cb m (r.kernel.task c).kbinfo r.kernel.uart_read_buffer r.memory
        × Verdict size r (r.kernel.task c).kbinfo
  Turn-answer base size c i cb m k' m' e turn =
      elim (Bool-cases (ltb 0 (k'.task c).kbinfo.keystoread)) [
        | inr done ↦
            let all : (k'.task c).kbinfo.keysread ≡ size =
              omega (arith, turn.progress.total, ltb→le 0 (k'.task c).kbinfo.keystoread done) in
            rw (e, done)
              (
                turn,
                inl (
                  ap (λ n. returns (pos n)) all,
                  omega (arith, ltb→le 0 (k'.task c).kbinfo.keystoread done),
                ),
              )
        | inl more ↦
            let (b, info) = requeue-Same c (record k' { current = c }) in
            let left = ltb→lt 0 (k'.task c).kbinfo.keystoread more in
            rw (e, more)
              (rw (b, info) turn, inr (refl, rw info left, ap contents b ∙ turn.early left))
      ]

  -- A reader that has `keysread` of its `size` characters goes on: it takes characters from the front of
  -- the buffer, in their order, into the block behind those that it has, and no other byte but the
  -- kernel's `read` changes. It returns `size` when it has them all. Otherwise the buffer is empty, it
  -- waits, and it will go on with what it has then. The buffer is to be valid, the size below 2 ^ 31, `read` below the
  -- block, and the block's end below 2 ^ 32.
  pub read_on-Turn :
      (base size : ℕ) (k : Kernel) (m : Memory)
      → IsValid k.uart_read_buffer
      → Progress base size (k.task k.current).kbinfo
      → size < 2 ^ 31
      → read < base
      → base + size < 2 ^ 32
      → let r = read_on read k m in
        let i' = (r.kernel.task k.current).kbinfo in
        Turn base size
          (k.task k.current).kbinfo
          k.uart_read_buffer
          m
          i'
          r.kernel.uart_read_buffer
          r.memory
        × Verdict size r i'
  unfolding read_on
  read_on-Turn base size k m v p small below room =
      let (turn, same) = take_keys-Turn base size k m v p small below room in
      let (k', m') = take_keys read k m in
      elim (Bool-cases (ltb 0 (k.task k.current).kbinfo.keystoread)) [
        | inr done ↦
            let none_left = ltb→le 0 (k.task k.current).kbinfo.keystoread done in
            rw done (
              record {
                keys = [];
                front = refl;
                progress = p;
                count = omega arith;
                bytes = λ a ne. ground arith;
                early = λ h. absurd (omega arith);
                valid = v;
              },
              inl (ap (λ n. returns (pos n)) (omega (arith, p.total)), omega arith),
            )
        | inl more ↦ rw more (
            Turn-answer base size k.current (k.task k.current).kbinfo k.uart_read_buffer m k' m'
              same turn)
      ]
