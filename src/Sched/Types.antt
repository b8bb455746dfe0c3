-- ===== src/Sched/Types.antt =====
-- The part of `struct proc_struct` (kern/process/proc.h) that the scheduler reads and writes, the
-- run queues and timers of kern/schedule/sched.h, and the scheduler's globals.
use Prim.Native.Nat.{bit_and}
use ucorebook_code.Prelude.{ℕ, ◌^◌, Bool, true, false, not, ◌==◌, Option, List}

-- `enum proc_state`
pub data ProcState : Type 0 where
  uninit sleeping runnable zombie : ProcState

unfoldable pub is_zombie : ProcState → Bool
is_zombie zombie = true
is_zombie _ = false

unfoldable pub is_runnable : ProcState → Bool
is_runnable runnable = true
is_runnable _ = false

-- `WT_INTERRUPTED`
abbrev pub wt_interrupted : ℕ
wt_interrupted = 0x80000000

-- `wait_state & WT_INTERRUPTED`
unfoldable pub is_interruptible : ℕ → Bool
is_interruptible wait_state = not (bit_and wait_state wt_interrupted == 0)

-- `linked` says whether `run_link` is in a list (`!list_empty(&run_link)`); `rq` is the index in
-- `__rq` of the queue that the pointer names.
pub record Proc : Type 0 where
  pub pid : ℕ
  pub state : ProcState
  pub runs : ℕ
  pub need_resched : Bool
  pub wait_state : ℕ
  pub rq : Option ℕ
  pub linked : Bool
  pub time_slice : ℕ

-- `run_list` holds the addresses of the processes in order.
pub record RunQueue : Type 0 where
  pub run_list : List ℕ
  pub proc_num : ℕ
  pub max_time_slice : ℕ

-- `id` is the timer's address, `proc` that of its process (0 for NULL).
pub record Timer : Type 0 where
  pub id : ℕ
  pub expires : ℕ
  pub proc : ℕ

-- Processes are named by their addresses, run queues by their indices in `__rq[4]`.
pub record Kernel : Type 0 where
  pub procs : ℕ → Proc
  pub queues : ℕ → RunQueue
  pub timer_list : List Timer
  pub current : ℕ
  pub idleproc : ℕ

-- `unsigned int` arithmetic
abbrev pub u32_mod : ℕ
u32_mod = 2 ^ 32
