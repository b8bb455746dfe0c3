-- ===== src/Lib.antt =====
-- ucore: a model of parts of the teaching kernel under code/, with what makes them correct.
--
-- The parts, and the files that model them:
--
-- Sched: code/kern/schedule/sched.c with the round-robin class of sched_RR.c and the feedback
-- class of sched_MLFQ.c, and the fields of code/kern/process/proc.h that they use. Processes are a
-- store from address to record (Sched/Types), run queues are lists by index (Sched/Store,
-- Sched/Rr, Sched/Mlfq), the timer list holds distances (Sched/Timer), and Sched/Run has
-- `wakeup_proc`, `schedule` and `run_timer_list`. The clock tick wakes processes through the timer
-- list; waking puts a process in a queue, and `schedule` takes one out.
-- Pipe: code/kern/fs/pipe/pipe_state.c. Each pass of a reader or a writer under the semaphore is a
-- step, and Pipe/History runs any sequence of them.
-- File: code/kern/fs/file.c, the table of open files of a process. File has the helpers on slots,
-- File/Calls the system calls, File/Steps the table as a state machine. The field `pos` of the
-- source is `offset` here. A call of the virtual file system that may block lies between two steps of
-- the state machine, `vfs_close` among them, with `free_end` after it.
-- Libs: code/libs/string.c, strings as lists of bytes (Libs/Str), and memory as a function from
-- address to byte (Libs/Mem). Libs/Rand: code/libs/hash.c and code/libs/rand.c.
-- Libs/Strtol reads numbers, and Libs/Printnum prints them (code/libs/printfmt.c); Libs/Str/Add is
-- code/kern/libs/string.c.
-- File/Fs: code/kern/fs/fs.c, the files of a process at fork, exec and exit, over the file table.
-- Sfs: code/kern/fs/sfs/bitmap.c, the free map of a disk; a word is the function from offset to bit.
-- Sync: code/kern/sync/wait.c, queues of sleeping processes over the scheduler's state, and
-- Sync/Sem: code/kern/sync/sem.c, semaphores, with the lists of them that processes keep. The value is
-- a 32-bit `int`, and wraps around. Sync/Sem/Fair runs the calls of several processes.
-- File/Iobuf: code/kern/fs/iobuf.c, transfers between the kernel and a region of memory.
-- Mm: code/kern/mm/buddy_pmm.c, the buddy allocator; the orders 0 to 10 bound its loops.
-- Mm/Vmm: code/kern/mm/vmm.c, the areas of an address space, with the sorted list, the tree that is
-- kept in step with it and the cache; Map has the calls that change the areas, Scan those that look
-- through them, Whole those on a whole space. Mm/Tree is the search tree as they see it, an
-- interface that Mm/RbTree fills: code/kern/libs/rb_tree.c, with a context for the parent links. A
-- NULL `shmem` of a shared area is a fault where the code follows it. The rounds of
-- `user_mem_check` are bounded by the length of the range, since each moves on by a byte or more.
-- Proc: code/kern/process/proc.c, the numbers of processes (Pid), and in Table the list of processes,
-- the hash table and the family links, with their changes at a fork and at the end of a wait. A fork is
-- two steps, the test of the limit and the end with interrupts off, as it may block between them. The
-- idle process is counted and never listed.
-- Mm/Shmem: code/kern/mm/shmem.c, the tables of entries of shared memory, linked as areas are.
--
-- Numbers of the source are natural numbers, with the wrap-around of a machine word written out where
-- the code relies on it or can meet it. A failed `assert` and a `panic` are `none` (Prelude/Panic),
-- an error code is `err` (Prelude/Errno), NULL is `none`. A list of the kernel is the list of what its
-- links join, so that two objects never share a link; the list macros themselves are not modelled.
-- Three loops run on fuel: `printnum`, for which more than the number is enough, `get_pid`, for which
-- `MAX_PID` walks are enough, and `user_mem_check`, for which the length of the range is enough. Each
-- other loop is structural in the list, the string or the count that bounds it.
--
-- Not modelled: the balance of the red-black tree, device drivers, traps, the boot code, page tables,
-- the context switch, the rest of the simple file system and the user programs, which are input and
-- output, or stand on hardware, or are not reached yet. The virtual file system is an argument: what
-- its calls return is given to the second half of a system call.
pub mod File
pub mod Libs
pub mod Mm
pub mod Pipe
pub mod Prelude
pub mod Proc
pub mod Sched
pub mod Sfs
pub mod Sync
pub mod Tests
