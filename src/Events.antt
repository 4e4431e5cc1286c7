-- ===== src/Events.antt =====
-- The kernel as a machine that events drive: the semaphore calls of the running task (sys.c) and
-- the interrupt requests (interrupt.c), in any order.
pub mod Safety
pub mod Moves
pub mod Permits
pub mod Destroyed
use ze_ospi.Base.{ℕ, List, [], ◌∷◌, ℤ}
use ze_ospi.Kernel.{Kernel, Reply}
use ze_ospi.Sem.{sys_sem_init, sys_sem_wait, sys_sem_signal, sys_sem_destroy}
use ze_ospi.Interrupt.{Registers, interrupt_request_routine}

pub data SemCall : Type 0 where
  init : ℤ → ℕ → SemCall
  wait signal destroy : ℤ → SemCall

unfoldable pub sem_call : SemCall → Kernel → Reply × Kernel
sem_call (init n value) = sys_sem_init n value
sem_call (wait n) = sys_sem_wait n
sem_call (signal n) = sys_sem_signal n
sem_call (destroy n) = sys_sem_destroy n

pub data Event : Type 0 where
  call : SemCall → Event
  irq : Registers → Event

unfoldable pub step : Kernel → Event → Kernel
step k (call c) = (sem_call c k).1
step k (irq r) = interrupt_request_routine r k

unfoldable pub run : Kernel → List Event → Kernel
run k [] = k
run k (e ∷ es) = run (step k e) es
