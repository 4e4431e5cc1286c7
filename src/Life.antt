-- ===== src/Life.antt =====
-- The whole machine: histories of semaphore calls, interrupts, clones, exits and forks.
pub mod Always
pub mod Forks
use ze_ospi.Base.{ℕ, List, [], ◌∷◌}
use ze_ospi.Boot.{System}
use ze_ospi.Events.{Event, step}
use ze_ospi.Duplicate.{Machine}
use ze_ospi.Fork.{sys_fork}
use ze_ospi.Process.{sys_clone, sys_exit}

pub data Action : Type 0 where
  by_event : Event → Action
  by_clone : (function stack last_sp : ℕ) → Action
  by_exit : Action

-- An action of the above, or a fork, with what the stack has where its array is.
pub data Deed : Type 0 where
  by_action : Action → Deed
  by_fork : (last_sp : ℕ) → (frames : ℕ → ℕ) → Deed

module _ (task_at : ℕ → ℕ) (ret_from_fork : ℕ) where
  unfoldable pub act : System → Action → System
  act s (by_event e) = record s { kernel = step s.kernel e }
  act s (by_clone function stack last_sp) =
      (sys_clone task_at ret_from_fork function stack last_sp s).1
  act s by_exit = sys_exit s

  unfoldable pub live : System → List Action → System
  live s [] = s
  live s (a ∷ as_) = live (act s a) as_

  module _ (empty_ph_page : ℕ) where
    unfoldable pub deed : Machine → Deed → Machine
    deed s (by_action a) = record s { system = act s.system a }
    deed s (by_fork last_sp frames) =
        (sys_fork task_at ret_from_fork empty_ph_page last_sp frames s).1

    unfoldable pub history : Machine → List Deed → Machine
    history s [] = s
    history s (d ∷ ds) = history (deed s d) ds
