-- ===== src/Sched/Rr.antt =====
-- kern/schedule/sched_RR.c: a round-robin queue. Addresses name processes, `i` the queue `__rq[i]`.
pub mod Invariant
use ucorebook_code.Prelude.{
  ℕ, ◌+◌, ◌-◌, ◌%◌, true, false, not, ◌&&◌, ◌||◌, ltb, ◌==◌, if◌then◌else◌, List, [], ◌∷◌, ◌++◌,
  Option, none, some, assert, ◌>>=◌, ◌>>◌,
}
use ucorebook_code.Sched.Types.{Proc, RunQueue, Kernel, u32_mod}
use ucorebook_code.Sched.Store.{set_proc, set_queue, is_queue, unlink}

unfoldable pub init : RunQueue → RunQueue
init q = record q { run_list = []; proc_num = 0 }

-- A spent or too long slice becomes the queue's.
unfoldable pub refill : ℕ → ℕ → ℕ
refill slice max = if slice == 0 || ltb max slice then max else slice

-- The queue with the process at its end.
unfoldable pub append : ℕ → RunQueue → RunQueue
append p q = record q { run_list = q.run_list ++ p ∷ []; proc_num = (q.proc_num + 1) % u32_mod }

unfoldable pub enqueue : ℕ → ℕ → Kernel → Option Kernel
unfolding refill append set_proc set_queue
enqueue i p k =
    let v = k.procs p in
    let q = k.queues i in
    let v' : Proc = record v {
      linked = true;
      time_slice = refill v.time_slice q.max_time_slice;
      rq = some i;
    } in
    do assert (not v.linked); some (set_queue i (append p q) (set_proc p v' k))

-- The queue without the process.
unfoldable pub remove : ℕ → RunQueue → RunQueue
unfolding unlink
remove p q = record q {
  run_list = unlink p q.run_list;
  proc_num = (q.proc_num + u32_mod - 1) % u32_mod;
}

unfoldable pub dequeue : ℕ → ℕ → Kernel → Option Kernel
unfolding remove is_queue set_proc set_queue
dequeue i p k =
    let v = k.procs p in
    do
      assert (v.linked && is_queue v.rq i)
      some (set_queue i (remove p (k.queues i)) (set_proc p (record v { linked = false }) k))

first : List ℕ → Option ℕ
first [] = none
first (p ∷ ps) = some p

unfoldable pub pick_next : RunQueue → Option ℕ
unfolding first
pick_next q = first q.run_list

unfoldable pub proc_tick : Proc → Proc
proc_tick v =
    let slice = if ltb 0 v.time_slice then v.time_slice - 1 else v.time_slice in
    record v { time_slice = slice; need_resched = if slice == 0 then true else v.need_resched }
