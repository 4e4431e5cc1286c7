-- ===== src/Statistics.antt =====
-- sys.c, `sys_get_stats`, over the linked queues that `getStructPID` goes through. A task is named by
-- the address of its `list` field; its `statistics` lie `offset` bytes behind that.
pub mod Own
use ze_ospi.Base.{ℕ, ◌+◌, Bool, true, false, ◌==◌, if◌then◌else◌, Option, none, some, ℤ, pos, neg}
use ze_ospi.Errno.{enaccb, enspid}
use ze_ospi.Links.{Ptr, Links}
use ze_ospi.Lookup.{Search, get_struct_pid}
use ze_ospi.Utils.{Memory, access_ok, verify_write, copy_to_user}

-- What the call returns, the links and the memory; `none` if a search has not come to its end.
pub record Answer : Type 0 where
  pub ret : ℤ
  pub links : Links
  pub memory : Memory

module _ (pid : Ptr → ℕ) (offset fuel wanted : ℕ) (ready keyboard current : Ptr) where
  abbrev pub report : (st : ℕ) → Search → Memory → Answer
  report st s m =
      if s.found
      then record {
        ret = pos 0;
        links = s.links;
        memory = (copy_to_user (s.desired + offset) st 12 m).1;
      }
      else record { ret = neg enspid; links = s.links; memory = m }

  abbrev pub and_then : Option Search → (Search → Option Answer) → Option Answer
  and_then none next = none
  and_then (some s) next = next s

  -- `desired` is what the variable holds at first.
  unfoldable pub sys_get_stats : (st : ℕ) → (desired : Ptr) → Links → Memory → Option Answer
  sys_get_stats st desired h m =
      if access_ok verify_write st 12 == 0
      then some (record { ret = neg enaccb; links = h; memory = m })
      else and_then (get_struct_pid pid wanted ready fuel current desired h) (λ s.
        if s.found
        then some (report st s m)
        else and_then (get_struct_pid pid wanted keyboard fuel current s.desired s.links)
            (λ s'. some (report st s' m)))
