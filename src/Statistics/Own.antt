-- ===== src/Statistics/Own.antt =====
-- When `sys_get_stats` finds its task, and when it does not return.
use ze_ospi.Base.{
  ℕ, ◌+◌, ◌^◌, ◌<◌, ◌≤◌, ◌≡◌, ap, ◌≢◌, ◌⊎◌, inl, inr, List, ◌∷◌, true, some, pos, ℤ, ne→==,
}
use ze_ospi.Links.{Ptr, Links}
use ze_ospi.Links.Chain.{IsQueue}
use ze_ospi.Lookup.{get_struct_pid}
use ze_ospi.Lookup.Outcome.{get_struct_pid_finds}
use ze_ospi.Utils.{Memory, move, access_ok, verify_write}
use ze_ospi.Utils.Copy.{IsSafe, copy_data_lem}
use ze_ospi.Statistics.{sys_get_stats}

module _ (pid : Ptr → ℕ) (offset fuel wanted : ℕ) (ready keyboard current : Ptr) where
  -- The task that is wanted is the running one, or the first one that is ready.
  abbrev pub IsAtHand : List Ptr → Ptr → Type 0
  IsAtHand xs x =
      ((pid current ≡ wanted) × (x ≡ current))
      ⊎ ((pid current ≢ wanted) × (rest : List Ptr) × (xs ≡ x ∷ rest) × (pid x ≡ wanted))

  at_hand-found :
      (desired x : Ptr) {h : Links} {xs : List Ptr}
      → IsQueue h ready xs
      → 0 < fuel
      → IsAtHand xs x
      → get_struct_pid pid wanted ready fuel current desired h
        ≡ some (record { found = true; desired = x; links = h })
  at_hand-found desired x {h} q pos_fuel (inl (mine, e)) =
      rw e ((get_struct_pid_finds pid wanted ready fuel current desired q pos_fuel).0 mine)
  at_hand-found desired x q pos_fuel (inr (miss, rest, e, hit)) =
      (get_struct_pid_finds pid wanted ready fuel current desired q pos_fuel).2 x rest miss e hit

  -- If 12 bytes at `st` are writable and the wanted task is the running one or the first of the ready
  -- queue, then `sys_get_stats` returns 0, puts that task's 12 bytes of statistics at `st`, and leaves
  -- all other bytes and the queues alone. The block is not to begin inside those statistics, and
  -- neither of the two is to wrap: each ends at 2 ^ 32 at most.
  pub sys_get_stats-move :
      (st : ℕ) (desired x : Ptr) (m : Memory) {h : Links} {xs : List Ptr}
      → IsQueue h ready xs
      → 0 < fuel
      → access_ok verify_write st 12 ≢ 0
      → IsAtHand xs x
      → IsSafe (x + offset) st 12
      → st + 12 ≤ 2 ^ 32
      → x + offset + 12 ≤ 2 ^ 32
      → sys_get_stats pid offset fuel wanted ready keyboard current st desired h m
        ≡ some (record { ret = pos 0; links = h; memory = move 12 (x + offset) st m })
  unfolding sys_get_stats
  sys_get_stats-move st desired x m {h} q pos_fuel ok hand safe room below =
      let copied =
        ap (λ (p : ℤ × Memory). p.1) (copy_data_lem (x + offset) st 12 m safe below room).2 in
      rw (ne→== (access_ok verify_write st 12) 0 ok, at_hand-found desired x q pos_fuel hand)
        (ap (λ (m : Memory). some (record { ret = pos 0; links = h; memory = m })) copied)
