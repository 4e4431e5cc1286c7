-- ===== src/Links.antt =====
-- include/list.h: the intrusive doubly linked lists on which the kernel keeps its task queues.
-- A `struct list_head` is an address. Address 0 is `NULL`; the kernel's page 0 is mapped for
-- reading and writing, so an access through `NULL` reads or writes memory and does not fault.
pub mod Chain
pub mod Insert
pub mod Delete
use ze_ospi.Base.{ℕ, ◌==◌, Bool, if◌then◌else◌}

abbrev pub Ptr : Type 0
Ptr = ℕ

-- The two fields of every `struct list_head` in memory.
pub record Links : Type 0 where
  pub next : Ptr → Ptr
  pub prev : Ptr → Ptr

abbrev pub update : (Ptr → Ptr) → Ptr → Ptr → Ptr → Ptr
update f p v q = if p == q then v else f q

-- `p->next = q`
abbrev pub set_next : Ptr → Ptr → Links → Links
set_next p q h = record h { next = update h.next p q }

-- `p->prev = q`
abbrev pub set_prev : Ptr → Ptr → Links → Links
set_prev p q h = record h { prev = update h.prev p q }

unfoldable pub init_list_head : Ptr → Links → Links
init_list_head list h = set_prev list list (set_next list list h)

-- `__list_add`: the four stores in the order of the source.
unfoldable pub raw_list_add : Ptr → Ptr → Ptr → Links → Links
raw_list_add new prev next h =
    set_next prev new (set_prev new prev (set_next new next (set_prev next new h)))

unfoldable pub list_add : Ptr → Ptr → Links → Links
unfolding raw_list_add
list_add new head h = raw_list_add new head (h.next head) h

unfoldable pub list_add_tail : Ptr → Ptr → Links → Links
unfolding raw_list_add
list_add_tail new head h = raw_list_add new (h.prev head) head h

-- `__list_del`
unfoldable pub raw_list_del : Ptr → Ptr → Links → Links
raw_list_del prev next h = set_next prev next (set_prev next prev h)

unfoldable pub list_del : Ptr → Links → Links
unfolding raw_list_del
list_del entry h =
    set_prev entry 0 (set_next entry 0 (raw_list_del (h.prev entry) (h.next entry) h))

pub list_is_last : Ptr → Ptr → Links → Bool
list_is_last list head h = h.next list == head

unfoldable pub list_empty : Ptr → Links → Bool
list_empty head h = h.next head == head

abbrev pub list_first : Ptr → Links → Ptr
list_first head h = h.next head
