-- ===== src/Tests/Data.antt =====
-- The theorems on the buffer, the lists, the search and the copies, at concrete inputs.
use ze_ospi.Base.{◌≡◌, refl, ◌==◌, if◌then◌else◌, [], ◌∷◌, arith, none}
use ze_ospi.Cbuffer.{CircularBuffer, circularb_is_empty, circularb_write, circularb_read}
use ze_ospi.Cbuffer.Queue.{enqueue}
use ze_ospi.Cbuffer.Valid.{IsValid}
use ze_ospi.Cbuffer.Refine.{contents, circularb_write_refines, circularb_read_refines}
use ze_ospi.Links.{Links, init_list_head, list_add_tail, list_del, list_first}
use ze_ospi.Links.Chain.{IsQueue, init-IsQueue}
use ze_ospi.Links.Insert.{list_add_tail-snoc}
use ze_ospi.Links.Delete.{list_del-list_first}
use ze_ospi.Lookup.{get_struct_pid}
use ze_ospi.Lookup.Outcome.{get_struct_pid_diverges}
use ze_ospi.Print.{printint, reverse_digits, print_digits}
use ze_ospi.Utils.{Memory, access_ok, verify_write}
use ze_ospi.Utils.Access.{access_ok_wraps}

-- A buffer of 4 places that has gone round: 7 and 8 are in it.
abbrev round_buffer : CircularBuffer
round_buffer = record { start = 3; end = 1; size = 4; numelem = 2; buffer = 8 ∷ 0 ∷ 0 ∷ 7 ∷ [] }

round_buffer-IsValid : IsValid round_buffer
round_buffer-IsValid = record {
  storage = omega arith;
  small = omega arith;
  start_in = omega arith;
  end_in = omega arith;
  counted = refl;
}

circularb_write_refines_example :
    ((circularb_write round_buffer 9).0, contents (circularb_write round_buffer 9).1)
    ≡ enqueue 3 (7 ∷ 8 ∷ []) 9
circularb_write_refines_example = circularb_write_refines {cb = round_buffer} 9 round_buffer-IsValid

circularb_read_refines_example :
    7 ∷ 8 ∷ [] ≡ (circularb_read round_buffer).0 ∷ contents (circularb_read round_buffer).1
unfolding circularb_is_empty
circularb_read_refines_example =
    circularb_read_refines {cb = round_buffer} refl round_buffer-IsValid

-- Two queues, at 1 and 2, which are empty; then 10 and 11 in the first, and 20 in the second.
abbrev blank : Links
blank = record { next = λ _. 0; prev = λ _. 0 }

one : IsQueue (list_add_tail 10 1 (init_list_head 1 blank)) 1 (10 ∷ [])
one = list_add_tail-snoc 10 (init-IsQueue blank 1) (omega arith) tt

list_add_tail-snoc_example :
    IsQueue (list_add_tail 11 1 (list_add_tail 10 1 (init_list_head 1 blank))) 1 (10 ∷ 11 ∷ [])
list_add_tail-snoc_example = list_add_tail-snoc 11 one (omega arith) (omega arith, tt)

-- Memory with 10 and 11 in the queue at 1, and 20 in the queue at 2.
abbrev pub wired : Links
wired = record {
  next = λ a.
      if a == 1
      then 10
      else if a == 10
      then 11
      else if a == 11
      then 1
      else if a == 2
      then 20
      else 2;
  prev = λ a.
      if a == 10
      then 1
      else if a == 11
      then 10
      else if a == 1
      then 11
      else if a == 20
      then 2
      else 20;
}

pub wired-first : IsQueue wired 1 (10 ∷ 11 ∷ [])
wired-first = record {
  chain = (refl, refl, (refl, refl, (refl, refl)));
  apart = (omega arith, (omega arith, tt));
  distinct = ((omega arith, tt), (tt, tt));
}

wired-second : IsQueue wired 2 (20 ∷ [])
wired-second = record {
  chain = (refl, refl, (refl, refl));
  apart = (omega arith, tt);
  distinct = (tt, tt);
}

list_del-list_first_example :
    let g = list_del (list_first 1 wired) wired in
    IsQueue g 1 (11 ∷ []) × (g.next 10 ≡ 0) × (g.prev 10 ≡ 0)
list_del-list_first_example = list_del-list_first wired-first

get_struct_pid_diverges_example : get_struct_pid (λ a. a) 11 1 1000 30 99 wired ≡ none
get_struct_pid_diverges_example =
    get_struct_pid_diverges (λ a. a) 11 1 1000 30 99 wired-first (omega arith) (omega arith)
      (omega arith) (omega arith)

-- A memory that holds its addresses.
abbrev addresses : Memory
addresses a = a

access_ok_wraps_example : access_ok verify_write 0xfffffff0 32 ≡ 1
access_ok_wraps_example =
    access_ok_wraps verify_write 0xfffffff0 32 (omega arith) (omega arith) (omega arith)

-- The reversed number 9000000004 does not fit 32 bits: 4000000009 is printed as 2145600140.
ten_digits : printint 4000000009 ≡ 50 ∷ 49 ∷ 52 ∷ 53 ∷ 54 ∷ 48 ∷ 48 ∷ 49 ∷ 52 ∷ 48 ∷ []
unfolding printint reverse_digits print_digits
ten_digits = refl
