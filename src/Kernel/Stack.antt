-- ===== src/Kernel/Stack.antt =====
-- include/sched.h and sched.c: a task and its kernel stack share 4096 bytes, from which `current`
-- finds the task. `task` is the address of the array, which system.lds sets on a page's start.
use ze_ospi.Base.{ℕ, ◌+◌, ◌-◌, ◌*◌, ◌%◌, ◌^◌, ◌<◌, ◌≤◌, ◌≡◌, arith}
use ze_ospi.Kernel.{sub32}

abbrev pub kernel_stack_size : ℕ
kernel_stack_size = 1024

-- `&task[i]`; `union task_union` is as large as its stack, of words of four bytes.
abbrev pub task_at : (task i : ℕ) → ℕ
task_at task i = task + i * (kernel_stack_size * 4)

-- `&task[i].stack[w]`
abbrev pub stack_at : (task i w : ℕ) → ℕ
stack_at task i w = task_at task i + w * 4

-- `INITAL_KERNEL_STACK`
abbrev pub initial_kernel_stack : (task : ℕ) → ℕ
initial_kernel_stack task = stack_at task 1 (kernel_stack_size - 1)

-- `sp & 0xfffff000`, the lowest twelve bits being cleared.
unfoldable pub current : (sp : ℕ) → ℕ
current sp = sp - sp % 2 ^ 12

-- include/list.h
abbrev pub list_entry : (ptr member : ℕ) → ℕ
list_entry ptr member = sub32 ptr member

-- `list` comes behind a number and a pointer.
abbrev pub list_member : ℕ
list_member = 8

unfoldable pub list_head_to_task_struct : (l : ℕ) → ℕ
list_head_to_task_struct l = list_entry l list_member

-- Two stacks have no word in common.
stack_at-Injective :
    (task i j w v : ℕ)
    → w < kernel_stack_size
    → v < kernel_stack_size
    → stack_at task i w ≡ stack_at task j v
    → (i ≡ j) × (w ≡ v)
stack_at-Injective task i j w v in_w in_v e = omega (arith, e)

-- A task is found from its stack pointer wherever in its stack that stands, and from its links. The
-- stacks that the other modes get from that of the start lie in the block of task 1. The array is to
-- begin a page, and its ten blocks to lie below 2 ^ 32.
current-stack_at :
    (task i w : ℕ)
    → task % 2 ^ 12 ≡ 0
    → task + 10 * 2 ^ 12 ≤ 2 ^ 32
    → i < 10
    → w < kernel_stack_size
    → (current (stack_at task i w) ≡ task_at task i)
      × (list_head_to_task_struct (task_at task i + list_member) ≡ task_at task i)
      × (current (initial_kernel_stack task - 0x500) ≡ task_at task 1)
      × (current (initial_kernel_stack task - 0x200) ≡ task_at task 1)
unfolding current list_head_to_task_struct
current-stack_at task i w begins below few in_w =
    (omega arith, omega arith, omega arith, omega arith)
