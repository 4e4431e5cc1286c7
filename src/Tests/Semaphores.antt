-- ===== src/Tests/Semaphores.antt =====
-- The theorems on the semaphores and on histories of events, at concrete kernels.
use ze_ospi.Base.{◌+◌, ◌≡◌, refl, List, [], ◌∷◌, arith, length, All, pos, negsuc, neg}
use ze_ospi.Errno.{esdest}
use ze_ospi.Kernel.{returns, st_ready}
use ze_ospi.Kernel.Places.{places}
use ze_ospi.Sem.{destroy_at, wait_end}
use ze_ospi.Events.{init, wait, signal, destroy, Event, call, irq, run}
use ze_ospi.Events.Safety.{run-places}
use ze_ospi.Events.Destroyed.{destroy_at-wait_end}
use ze_ospi.Events.Permits.{run-permits}
use ze_ospi.Tests.Machine.{three_ready, two_waiting, timer, three_ready-IsConsistent}

abbrev history : List Event
history =
    call (init (pos 1) 2)
    ∷ call (wait (pos 0))
    ∷ irq timer
    ∷ call (signal (pos 0))
    ∷ call (destroy (pos 31))
    ∷ call (wait (negsuc 4))
    ∷ []

run-places_example : places (run three_ready history) 2 ≡ places three_ready 2
run-places_example = run-places history three_ready 2 three_ready-IsConsistent (omega arith)

abbrev permits : List Event
permits = call (wait (pos 0)) ∷ irq timer ∷ []

run-permits_example :
    ((run three_ready permits).sem_array 0).value + 1 + 0
    ≡ 0 + 0 + length ((run three_ready permits).sem_array 0).semqueue
run-permits_example =
    run-permits permits 0 three_ready (omega arith) (omega arith) refl (omega arith, (tt, tt))

-- A clone of the owner signals the semaphore once more, and a timer's interrupt comes.
abbrev afterwards : List Event
afterwards = call (signal (pos 0)) ∷ irq timer ∷ []

destroy_at-wait_end_example :
    let k' = (destroy_at 0 two_waiting).1 in
    ((destroy_at 0 two_waiting).0 ≡ returns (pos 0))
    × (k'.readyqueue ≡ 2 ∷ 3 ∷ [])
    × All (λ t. (k'.task t).process_state ≡ st_ready) (2 ∷ 3 ∷ [])
    × ((k'.sem_array 0).semqueue ≡ [])
    × (wait_end 0 (run k' afterwards) ≡ neg esdest)
destroy_at-wait_end_example =
    destroy_at-wait_end 0 two_waiting afterwards refl refl (omega arith, (omega arith, tt))
      (tt, (tt, tt))
