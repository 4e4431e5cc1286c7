-- ===== src/Lookup.antt =====
-- sched.c, `getStructPID`: the search of a queue for the task with a given PID, over the linked
-- lists of include/list.h. A task is named by the address of its `list` field, so that
-- `list_head_to_task_struct` is the identity; `pid` reads the `PID` field of the task at an address.
pub mod Outcome
use ze_ospi.Base.{
  ℕ, zero, suc, ◌≡◌, Bool, true, false, not, ◌&&◌, Option, none, some, ◌==◌, if◌then◌else◌,
}
use ze_ospi.Links.{Ptr, Links, list_empty, list_first, list_del, list_add_tail}

-- `found`, `*pointer_to_desired` and the memory.
pub record Search : Type 0 where
  pub found : Bool
  pub desired : Ptr
  pub links : Links

module _ (pid : Ptr → ℕ) (wanted : ℕ) (queue : Ptr) where
  -- One round of the `while` loop.
  unfoldable pub round : Search → Search
  round s =
      let act = list_first queue s.links in
      let hit = pid act == wanted in
      record {
        found = if hit then true else s.found;
        desired = if hit then act else s.desired;
        links = list_add_tail act queue (list_del queue s.links);
      }

  -- The `while` loop; `none` means that the fuel ran out.
  unfoldable pub rounds : ℕ → Ptr → Search → Option Search
  rounds zero first s = none
  rounds (suc fuel) first s = elim (first == list_first queue s.links) [
    | true ↦ some s
    | false ↦ rounds fuel first (round s)
  ]

  -- The test of the first entry before the loop.
  unfoldable pub first_entry : Search → Search
  first_entry s =
      let first = list_first queue s.links in
      if pid first == wanted
      then record s { found = true; desired = first }
      else record s { links = list_add_tail first queue (list_del queue s.links) }

  -- `desired` is what the caller's variable holds before the call.
  unfoldable pub get_struct_pid : ℕ → (current desired : Ptr) → Links → Option Search
  get_struct_pid fuel current desired h =
      let mine = pid current == wanted in
      let s : Search = record {
        found = mine;
        desired = if mine then current else desired;
        links = h;
      } in
      if not (list_empty queue h) && not mine
      then rounds fuel (list_first queue h) (first_entry s)
      else some s
