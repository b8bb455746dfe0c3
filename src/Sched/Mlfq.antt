-- ===== src/Sched/Mlfq.antt =====
-- kern/schedule/sched_MLFQ.c: the feedback queues, whose lists are round-robin queues.
pub mod Priority
use ucorebook_code.Prelude.{
  ℕ, zero, suc, ◌+◌, ◌%◌, not, ltb, ◌==◌, if◌then◌else◌, Option, none, some, assert, ◌>>=◌, ◌>>◌,
}
use ucorebook_code.Sched.Types.{Kernel}
use ucorebook_code.Sched.Store.{nr_queues}
use ucorebook_code.Sched.Rr

-- `list_next(&(rq->rq_link))`
unfoldable pub next_queue : ℕ → ℕ
next_queue i = (i + 1) % nr_queues

unfoldable pub init : Kernel → Kernel
unfolding Rr.init
init k = record k { queues = λ i. if ltb i nr_queues then Rr.init (k.queues i) else k.queues i }

-- The queue for a process: the first one, or the one below its own when its slice is spent.
unfoldable pub choose : Option ℕ → ℕ → ℕ
unfolding next_queue
choose none slice = 0
choose (some r) slice = if slice == 0 then if next_queue r == 0 then r else next_queue r else 0

unfoldable pub enqueue : ℕ → Kernel → Option Kernel
unfolding choose Rr.enqueue
enqueue p k = do
  assert (not (k.procs p).linked)
  Rr.enqueue (choose (k.procs p).rq (k.procs p).time_slice) p k

-- `proc->rq` is not NULL for a linked process.
dequeue_from : Option ℕ → ℕ → Kernel → Option Kernel
unfolding Rr.dequeue
dequeue_from none p k = none
dequeue_from (some i) p k = Rr.dequeue i p k

unfoldable pub dequeue : ℕ → Kernel → Option Kernel
unfolding dequeue_from
dequeue p k = do assert (k.procs p).linked; dequeue_from (k.procs p).rq p k

-- The rounds left and the queue to look at.
unfoldable pub pick_from : ℕ → ℕ → Kernel → Option ℕ
unfolding Rr.pick_next next_queue
pick_from zero i k = none
pick_from (suc n) i k = elim (Rr.pick_next (k.queues i)) [
  | some p ↦ some p
  | none ↦ pick_from n (next_queue i) k
]

unfoldable pub pick_next : Kernel → Option ℕ
unfolding pick_from
pick_next k = pick_from nr_queues 0 k
