-- ===== src/Tests/Sync.antt =====
-- A semaphore that process 2 waits for, and the undo lists of a process.
use ucorebook_code.Prelude.{
  ◌+◌, ◌≡◌, refl, true, ◌==◌, if◌then◌else◌, List, [], ◌∷◌, Option, none, some,
}
use ucorebook_code.Prelude.Int.{pos}
use ucorebook_code.Prelude.{update}
use ucorebook_code.Sched.Store.{set_proc}
use ucorebook_code.Sched.Types.{Kernel, is_zombie, is_runnable}
use ucorebook_code.Sched.Mlfq
use ucorebook_code.Sched.Run.{
  wakeup_proc, schedule, enqueue_current, sched_class_enqueue, dequeue_next, run_next,
}
use ucorebook_code.Sync.{
  wakeup_wait, wait_queue_del, without, wait_current_del, wait_in_queue, Wait, Sync, is_in,
  wait_queue_init, set_head, wait_current_set, wait_init, set_wait, wait_queue_add,
}
use ucorebook_code.Sync.Sem.{
  up_at, down_end, ipc_del_timer, increment, Semaphore, up, sem_init, down_begin, is_positive,
  ipc_add_timer, try_down,
}
use ucorebook_code.Sync.Sem.Up.{GivesBack, CanHandOver, up-GivesBack}
use ucorebook_code.Sync.Sem.Fair.{
  Event, elsewhere, ups, down_returns, downs, tries, run, step, IsFair, run-IsFair,
}
use ucorebook_code.Sync.Sem.Undo.{Store, dup_sem_queue}
use ucorebook_code.Sync.Sem.Counts.{records, dup_sem_queue-balanced}
use ucorebook_code.Tests.Sched.{busy, busy-IsConsistent}

abbrev lock : Semaphore
lock = record { value = pos 0; valid = true; count = 1; wait_queue = 70 }

abbrev entry : Wait
entry = record { proc = 2; wakeup_flags = 0x80000000; wait_queue = 70; linked = true }

abbrev waiting : Sync
waiting = record { kernel = busy; waits = λ w. entry; heads = λ q. if q == 70 then 90 ∷ [] else [] }

waiting-CanHandOver : CanHandOver (90 ∷ []) 0x80000002 lock waiting
unfolding is_in
waiting-CanHandOver = (refl, refl, λ e. cc)

up-GivesBack_example : GivesBack (90 ∷ []) 0x80000002 lock waiting (up 0x80000002 lock waiting)
up-GivesBack_example =
    up-GivesBack 0x80000002 lock waiting refl busy-IsConsistent waiting-CanHandOver

abbrev scheduled : Kernel → Kernel
scheduled k = elim (schedule k) [ none ↦ k | some k' ↦ k' ]

-- Processes 1 and 3 run one after the other and go to sleep in the semaphore; then it is given back
-- twice, which wakes them, and once more, when nobody waits.
abbrev calls : List Event
calls =
    downs 91 0x100 none
    ∷ elsewhere scheduled
    ∷ downs 92 0x100 none
    ∷ elsewhere scheduled
    ∷ tries
    ∷ ups 0x100
    ∷ elsewhere scheduled
    ∷ down_returns 91 0x100 none
    ∷ ups 0x100
    ∷ ups 0x100
    ∷ []

abbrev start : Semaphore × Sync
start = sem_init 70 (pos 0) waiting

abbrev state_of : Option (Semaphore × Sync) → Semaphore × Sync
state_of none = start
state_of (some st) = st

abbrev final : Semaphore × Sync
final = state_of (run calls start)

calls-run : run calls start ≡ some final
unfolding run step sem_init wait_queue_init set_head update down_begin is_positive wait_current_set
    wait_init set_wait wait_queue_add set_proc ipc_add_timer try_down is_zombie is_runnable
    Mlfq.enqueue Mlfq.dequeue Mlfq.pick_next schedule enqueue_current sched_class_enqueue
    dequeue_next run_next wakeup_proc up up_at wakeup_wait wait_queue_del without is_in down_end
    wait_current_del wait_in_queue ipc_del_timer increment
calls-run = refl

given_back : (final.1.heads 70 ≡ []) × (final.0.value ≡ pos 1)
unfolding run step sem_init wait_queue_init set_head update down_begin is_positive wait_current_set
    wait_init set_wait wait_queue_add set_proc ipc_add_timer try_down is_zombie is_runnable
    Mlfq.enqueue Mlfq.dequeue Mlfq.pick_next schedule enqueue_current sched_class_enqueue
    dequeue_next run_next wakeup_proc up up_at wakeup_wait wait_queue_del without is_in down_end
    wait_current_del wait_in_queue ipc_del_timer increment
given_back = (refl, refl)

run-IsFair_example : IsFair final.0 final.1
run-IsFair_example = run-IsFair 70 (pos 0) waiting calls final.0 final.1 calls-run

abbrev store : Store
store = record { sems = λ a. lock; freed = [] }

dup_sem_queue-balanced_example :
    ((dup_sem_queue (λ a. true) [] (7 ∷ 8 ∷ 7 ∷ []) store).2.sems 7).count + records 7 []
    ≡ (store.sems 7).count + records 7 (dup_sem_queue (λ a. true) [] (7 ∷ 8 ∷ 7 ∷ []) store).1
dup_sem_queue-balanced_example = dup_sem_queue-balanced (λ a. true) [] (7 ∷ 8 ∷ 7 ∷ []) store 7
