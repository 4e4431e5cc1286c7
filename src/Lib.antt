-- ===== src/Lib.antt =====
-- zeOSpi, a small operating system for the Raspberry Pi: a model of its kernel.
--
-- The kernel (C, with inline assembly) runs up to ten tasks. Interrupts (interrupt.c) drive the
-- round-robin scheduler (sched.c) and fill the circular buffer of the UART (devices.c,
-- include/cbuffer.h); tasks call the kernel (sys.c), among others for semaphores on which they wait
-- in queues (include/list.h); frames and page tables (mm.c) give each task its address space; and
-- utils.c checks user pointers and copies memory.
--
-- The files:
--   Base        Booleans, lists, integers and counting loops that the others share.
--   Cbuffer     include/cbuffer.h: the buffer with its five fields, each function by its name
--               (circularbWrite is circularb_write).
--   Links       include/list.h: memory as the two fields of every list_head; Chain says when memory
--               holds a queue, Insert and Delete treat the operations.
--   Lookup      sched.c, getStructPID, over Links.
--   Frames      mm.c: the byte map of the frames; Alloc, Count and Leak treat its operations.
--   Utils       utils.c: access_ok and the copies over a memory of bytes.
--   Paging      mm.c and include/types.h: entries, tables and directories.
--   Kernel      include/sched.h, include/sem.h, include/stats.h: the state of the running kernel.
--   Sched       sched.c: the scheduler and the switch of tasks.
--   Errno       include/errno.h.
--   Sem         sys.c, the semaphore calls, and init_semarray of sched.c.
--   Interrupt   interrupt.c with the parts of devices.c, timer.c and uart.c that it calls.
--   Events      the semaphore calls and interrupts as events in any order.
--   Space       mm.c: the directories, program breaks and pages that a task gets.
--   Startup     system.c: main as a whole, over the parts below.
--   Boot        system.c, main, with init_mm and the functions of sched.c that it calls: the state in
--               which user mode begins.
--   Process     sys.c: clone, exit and the small calls.
--   Sbrk        sys.c: sys_sbrk.
--   Duplicate   sys.c: the loops of sys_fork over frames and pages, with the contents of the frames.
--   Fork        sys.c: sys_fork as a whole.
--   Input       sys_read of sys.c with sys_read_uart of devices.c.
--   Output      sys_write of sys.c with sys_write_uart of devices.c, printc and printk of io.c.
--   Statistics  sys.c: sys_get_stats, over Lookup.
--   Devices     gpio.c, uart.c, timer.c, interrupt.c: the setup of the devices; Serial has the busy
--               loops of uart.c, which get a number of readings.
--   Text        libc.c: itoa and strlen.
--   Print       io.c: printint and printhex, as the bytes that they send.
--   Life        the start, and then semaphore calls, interrupts, clones, exits and forks in any order.
--   Processor   hardware.c: the stacks of the modes and the way into user mode, as instructions; mm.c and
--               interrupt.c: the writes to coprocessor 15.
--   User        user.c and perror.c: the user's programs, as trees of their calls.
--   Libc        libc.c: the wrappers of the system calls, through the table of sys_call_table.S.
--   Image       build.c: the tool that makes the image out of the two programs; Loaded follows the image
--               into memory and through the start, and Failures has the calls that fail. The host's
--               system calls are a parameter.
--   Tests       concrete inputs for the theorems.
--
-- In Kernel a queue is the list of the tasks in it: Links shows that the pointer operations do to a
-- queue what the list operations do. A task is named by its index, and the pointer current() is an
-- index too. The switch of tasks is a change of the current task and of the registers; a system call
-- that blocks ends with the reply waits, and wait_end, or read_on for a reader, is what it goes on
-- with. The kernel runs with interrupts off, so calls and interrupts do not interleave inside.
--
-- Machine integers are natural numbers with the wrap-around written out. The loops of the copies run
-- on as much fuel as there are bytes, those of the allocator for the 384 candidates; the search of
-- getStructPID runs on any amount of fuel, since it need not return. The loops of sys_sbrk get 256
-- rounds, one for each page number, and printint 10, one for each digit of a word. The loops of sys_fork get
-- two rounds a page, since each page takes two at most: one that finds no page, and one that copies. The loop
-- of build.c over a file gets a round for each byte.
--
-- Not modelled: the files in assembly, whose instructions lead to the functions here, and what the caches
-- hold. What an instruction of the inline assembly does is taken from the processor's manual. Addresses
-- that the linker fixes are arguments, and so is what an array on the stack holds at first. The tasks
-- of one memory share `errno`; User gives each its own. What the copy of a heap in sys_fork writes over
-- the kernel's own data does not reach the kernel's state: Fork has it in the contents of the frames.
pub mod Base
pub mod Cbuffer
pub mod Links
pub mod Lookup
pub mod Frames
pub mod Utils
pub mod Paging
pub mod Kernel
pub mod Sched
pub mod Errno
pub mod Sem
pub mod Interrupt
pub mod Events
pub mod Libc
pub mod Space
pub mod Boot
pub mod Process
pub mod Processor
pub mod Life
pub mod Sbrk
pub mod Print
pub mod Tests
pub mod Duplicate
pub mod Fork
pub mod Input
pub mod Output
pub mod Devices
pub mod Text
pub mod User
pub mod Image
pub mod Startup
pub mod Statistics
