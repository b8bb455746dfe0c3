-- ===== src/Sched/Run.antt =====
-- kern/schedule/sched.c: waking, scheduling and the clock tick. `proc_run` (kern/process/proc.c) is
-- here for its write to `current`; the switch of the stack, the page table and the registers is not
-- modelled, and interrupts are off in each of these functions.
pub mod Consistent
pub mod Init
pub mod Schedule
pub mod Wakeup
pub mod Tick
use ucorebook_code.Prelude.{
  ℕ, ◌+◌, ◌-◌, ◌*◌, ◌^◌, true, false, not, ◌&&◌, ◌||◌, ltb, ◌==◌, if◌then◌else◌, List, [], ◌∷◌,
  Option, none, some, assert, ◌>>=◌, ◌>>◌,
}
use ucorebook_code.Sched.Types.{
  runnable, is_zombie, is_runnable, is_interruptible, Proc, RunQueue, Timer, Kernel,
}
use ucorebook_code.Sched.Store.{set_proc, nr_queues}
use ucorebook_code.Sched.Rr
use ucorebook_code.Sched.Mlfq

-- The slice doubles from queue to queue.
unfoldable pub set_slice : ℕ → RunQueue → RunQueue
set_slice i q = if ltb i nr_queues then record q { max_time_slice = 8 * 2 ^ i } else q

unfoldable pub sched_init : Kernel → Kernel
unfolding Mlfq.init set_slice
sched_init k = Mlfq.init (record k { timer_list = []; queues = λ i. set_slice i (k.queues i) })

unfoldable pub sched_class_enqueue : ℕ → Kernel → Option Kernel
sched_class_enqueue p k = if p == k.idleproc then some k else Mlfq.enqueue p k

-- The idle process is always asked to give way.
unfoldable pub sched_class_proc_tick : ℕ → Kernel → Kernel
unfolding Rr.proc_tick set_proc
sched_class_proc_tick p k =
    let v = k.procs p in
    set_proc p (if p == k.idleproc then record v { need_resched = true } else Rr.proc_tick v) k

-- The warning about a runnable process is not modelled.
unfoldable pub wakeup_proc : ℕ → Kernel → Option Kernel
wakeup_proc p k =
    let v = k.procs p in
    let k' = set_proc p (record v { state = runnable; wait_state = 0 }) k in
    do
      assert (not (is_zombie v.state))
      if is_runnable v.state
          then some k
          else if p == k.current
          then some k'
          else sched_class_enqueue p k'

-- `current` goes to its queue if it can run on.
unfoldable pub enqueue_current : Kernel → Option Kernel
enqueue_current k =
    if is_runnable (k.procs k.current).state then sched_class_enqueue k.current k else some k

-- The next process, out of its queue; the idle process where no other is runnable.
unfoldable pub dequeue_next : Option ℕ → Kernel → Option (ℕ × Kernel)
dequeue_next none k = some (k.idleproc, k)
dequeue_next (some p) k = do k' ← Mlfq.dequeue p k; some (p, k')

-- `runs` is an `int` that is not modelled to overflow.
unfoldable pub run_next : ℕ → Kernel → Kernel
unfolding set_proc
run_next p k =
    let v = k.procs p in
    let k' = set_proc p (record v { runs = v.runs + 1 }) k in
    if p == k.current then k' else record k' { current = p }

unfoldable pub schedule : Kernel → Option Kernel
schedule k =
    let v = k.procs k.current in
    do
      k₁ ← enqueue_current (set_proc k.current (record v { need_resched = false }) k)
      (p, k₂) ← dequeue_next (Mlfq.pick_next k₁) k₁
      some (run_next p k₂)

-- The rest of the timer list, from the timer that has just been counted down.
unfoldable pub fire_timers : List Timer → Kernel → Option Kernel
fire_timers [] k = some (record k { timer_list = [] })
fire_timers (t ∷ ts) k = elim (t.expires == 0) [
  | true ↦ (do
    assert ((k.procs t.proc).wait_state == 0 || is_interruptible (k.procs t.proc).wait_state)
    k' ← wakeup_proc t.proc k
    fire_timers ts k')
  | false ↦ some (record k { timer_list = t ∷ ts })
]

unfoldable pub count_down : List Timer → Kernel → Option Kernel
count_down [] k = some k
count_down (t ∷ ts) k = do
  assert (not (t.expires == 0))
  fire_timers (record t { expires = t.expires - 1 } ∷ ts) k

unfoldable pub run_timer_list : Kernel → Option Kernel
run_timer_list k = do k' ← count_down k.timer_list k; some (sched_class_proc_tick k'.current k')
