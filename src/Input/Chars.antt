-- ===== src/Input/Chars.antt =====
-- The characters that a reader takes from the buffer of the UART.
use ze_ospi.Base.{
  ℕ, zero, suc, ◌+◌, ◌-◌, ◌^◌, ◌<◌, ◌≡◌, refl, ap, ◌∙◌, ◌≢◌, List, [], ◌∷◌, ◌++◌, inl, inr, arith,
  true, ltb, leb, ◌&&◌, ◌==◌, if◌then◌else◌, Bool-cases, ltb→lt, ==→eq, ==→ne, length, get_or,
}
use ze_ospi.Cbuffer.{CircularBuffer, circularb_is_empty, circularb_read}
use ze_ospi.Cbuffer.Valid.{IsValid, read-IsValid, is_empty-used}
use ze_ospi.Cbuffer.Refine.{contents, circularb_read_refines}
use ze_ospi.Kernel.{add32}
use ze_ospi.Utils.{Memory}
use ze_ospi.Utils.Copy.{copy_data_lem}
use ze_ospi.Input.{Keys, store_key, read_keys}

zero_off : (to a : ℕ) → to ≡ a → a - to ≡ 0
zero_off to a e = omega arith

suc_off : (to a : ℕ) → to < a → a - to ≡ suc (a - (to + 1))
suc_off to a e = omega arith

module _ (read : ℕ) where
  store_key_lem :
      (target c : ℕ) (m : Memory) (a : ℕ)
      → read < target
      → target < 2 ^ 32
      → a ≢ read
      → store_key read target c m a ≡ (if target == a then c else m a)
  unfolding store_key
  store_key_lem target c m a below word ne =
      rw
        (
          store_key,
          (copy_data_lem read target 1 (λ x. if read == x then c else m x) (inr (omega arith))
              (omega arith) (omega arith)).2,
        )
        (ground arith)

  -- What the loop leaves: `keys`, from the front of the buffer, lie in the caller's block in their
  -- order, the others are still in the buffer, and it stops early only if that is empty.
  pub record TakenKeys (n to : ℕ) (cb : CircularBuffer) (m : Memory) (r : Keys) : Type 0 where
    pub keys : List ℕ
    pub front : contents cb ≡ keys ++ contents r.buffer
    pub count : length keys + r.left ≡ n
    pub pointer : r.target ≡ to + length keys
    pub bytes :
        (a : ℕ)
        → a ≢ read
        → r.memory a
          ≡ (if leb to a && ltb a (to + length keys) then get_or keys (a - to) 0 else m a)
    pub early : 0 < r.left → contents r.buffer ≡ []
    pub valid : IsValid r.buffer

  pub no_contents :
      (cb : CircularBuffer) → IsValid cb → circularb_is_empty cb ≡ true → contents cb ≡ []
  no_contents cb v e = rw (is_empty-used v e) refl

  -- One character more in front.
  TakenKeys-suc :
      (n to c : ℕ) (cb cb' : CircularBuffer) (m : Memory) (r : Keys)
      → read < to
      → to < 2 ^ 32
      → contents cb ≡ c ∷ contents cb'
      → TakenKeys n (to + 1) cb' (store_key read to c m) r
      → TakenKeys (suc n) to cb m r
  TakenKeys-suc n to c cb cb' m r below word front t = record {
    keys = c ∷ t.keys;
    front = front ∙ ap (λ xs. c ∷ xs) t.front;
    count = omega (arith, t.count);
    pointer = omega (arith, t.pointer);
    bytes = λ a ne.
        let after = t.bytes a ne in
        let stored = store_key_lem to c m a below word ne in
        elim (Bool-cases (to == a)) [
          | inl here ↦
              let e : to ≡ a = ==→eq to a here in
              ground (arith, after, stored, ap (get_or (c ∷ t.keys)) (zero_off to a e))
          | inr other ↦
              let e : to ≢ a = ==→ne to a other in
              elim (Bool-cases (ltb to a)) [
                | inl above ↦ ground (
                  arith,
                  after,
                  stored,
                  ap (λ j. get_or (c ∷ t.keys) j 0) (suc_off to a (ltb→lt to a above)),
                )
                | inr before ↦ ground (arith, after, stored)
              ]
        ];
    early = t.early;
    valid = t.valid;
  }

  pub read_keys-TakenKeys :
      (n to : ℕ) (cb : CircularBuffer) (m : Memory)
      → IsValid cb
      → read < to
      → to + n < 2 ^ 32
      → TakenKeys n to cb m (read_keys read n to cb m)
  unfolding read_keys
  read_keys-TakenKeys zero to cb m v below room = record {
    keys = [];
    front = refl;
    count = omega arith;
    pointer = omega arith;
    bytes = λ a ne. ground arith;
    early = λ h. absurd (omega arith);
    valid = v;
  }
  read_keys-TakenKeys (suc n) to cb m v below room = elim (Bool-cases (circularb_is_empty cb)) [
    | inl empty ↦
        rw (empty, read_keys)
          (record {
            keys = [];
            front = refl;
            count = omega arith;
            pointer = omega arith;
            bytes = λ a ne. ground arith;
            early = λ h. no_contents cb v empty;
            valid = v;
          })
    | inr more ↦
        let (c, cb') = circularb_read cb in
        let next : add32 to 1 ≡ to + 1 = omega arith in
        rw (more, read_keys, next)
          (TakenKeys-suc n to c cb cb' m (read_keys read n (to + 1) cb' (store_key read to c m))
            below (omega arith) (circularb_read_refines more v)
            (read_keys-TakenKeys n (to + 1) cb' (store_key read to c m) (read-IsValid more v)
              (omega arith) (omega arith)))
  ]
