-- ===== src/Tests/Sched.antt =====
-- A kernel with an idle process (address 0), a running one (1) and two others (2, asleep; 3).
use ucorebook_code.Prelude.{
  ℕ, zero, suc, ◌^◌, ◌<◌, ◌≡◌, ◌≢◌, refl, [], ◌∷◌, Option, none, some, arith, true, false,
  if◌then◌else◌, ◌&&◌, is_some, length, ◌%◌,
}
use ucorebook_code.Sched.Types.{
  ProcState, uninit, sleeping, runnable, zombie, Proc, RunQueue, Timer, Kernel, is_runnable,
  is_zombie, is_interruptible,
}
use ucorebook_code.Sched.Store.{nr_queues, is_queue}
use ucorebook_code.Sched.Timer.{add_timer, del_timer, insert_timer, is_linked}
use ucorebook_code.Sched.Timer.Deadlines.{
  deadlines, insert_deadline, remove_deadline, span, IsArmed, add_timer_lem, del_timer_lem,
}
use ucorebook_code.Sched.Rr.Invariant.{occurrences}
use ucorebook_code.Sched.Mlfq.{pick_next, choose}
use ucorebook_code.Sched.Mlfq.Priority.{Picks, pick_next-Picks, choose_sinks}
use ucorebook_code.Sched.Mlfq
use ucorebook_code.Sched.Run.{
  wakeup_proc, schedule, run_timer_list, enqueue_current, sched_class_enqueue, dequeue_next,
  run_next, count_down, fire_timers, sched_class_proc_tick,
}
use ucorebook_code.Sched.Run.Consistent.{IsConsistent}
use ucorebook_code.Sched.Run.Init.{IsBoot}
use ucorebook_code.Sched.Run.Schedule.{IsScheduled, schedule_total}
use ucorebook_code.Sched.Run.Wakeup.{IsWoken, wakeup_proc_total}
use ucorebook_code.Sched.Run.Tick.{IsTicked, AllCanWake, run_timer_list_total}

abbrev nobody : Proc
nobody = record {
  pid = 0;
  state = uninit;
  runs = 0;
  need_resched = false;
  wait_state = 0;
  rq = none;
  linked = false;
  time_slice = 0;
}

abbrev proc_at : ℕ → Proc
proc_at zero = record nobody { state = runnable }
proc_at (suc zero) = record nobody { pid = 1; state = runnable; rq = some 0; time_slice = 3 }
proc_at (suc (suc zero)) = record nobody { pid = 2; state = sleeping; wait_state = 0x80000002 }
proc_at (suc (suc (suc zero))) = record nobody {
  pid = 3;
  state = runnable;
  rq = some 1;
  linked = true;
  time_slice = 16;
}
proc_at _ = nobody

abbrev queue_at : ℕ → RunQueue
queue_at (suc zero) = record { run_list = 3 ∷ []; proc_num = 1; max_time_slice = 16 }
queue_at _ = record { run_list = []; proc_num = 0; max_time_slice = 8 }

abbrev alarm : Timer
alarm = record { id = 40; expires = 1; proc = 2 }

abbrev late : Timer
late = record { id = 41; expires = 5; proc = 2 }

abbrev pub busy : Kernel
busy = record {
  procs = proc_at;
  queues = queue_at;
  timer_list = alarm ∷ late ∷ [];
  current = 1;
  idleproc = 0;
}

busy-filed :
    (i p : ℕ)
    → i < nr_queues
    → occurrences p (queue_at i).run_list
      ≡ (if (proc_at p).linked && is_queue (proc_at p).rq i then 1 else 0)
unfolding occurrences is_queue
busy-filed (suc zero) (suc (suc (suc zero))) h = refl
busy-filed (suc (suc i)) (suc (suc (suc zero))) h = ground arith
busy-filed i p h = ground arith

busy-ringed : (p i : ℕ) → (proc_at p).rq ≡ some i → i < nr_queues
busy-ringed (suc (suc (suc zero))) i e = ground arith
busy-ringed p i e = ground arith

busy-placed : (p : ℕ) → (proc_at p).linked ≡ true → is_some (proc_at p).rq ≡ true
busy-placed (suc (suc (suc zero))) e = refl
busy-placed p e = cc

busy-sized : (i : ℕ) → i < nr_queues → (queue_at i).proc_num ≡ length (queue_at i).run_list % 2 ^ 32
busy-sized (suc zero) h = refl
busy-sized i h = refl

busy-waiting : (p : ℕ) → p ≢ 0 → p ≢ 1 → is_runnable (proc_at p).state ≡ (proc_at p).linked
unfolding is_runnable
busy-waiting (suc (suc (suc zero))) h h' = refl
busy-waiting zero h h' = absurd (h refl)
busy-waiting (suc zero) h h' = absurd (h' refl)
busy-waiting p h h' = refl

pub busy-IsConsistent : IsConsistent busy
busy-IsConsistent = record {
  queued = record {
    filed = busy-filed;
    sized = busy-sized;
    placed = busy-placed;
    ringed = busy-ringed;
  };
  idle_out = refl;
  current_out = refl;
  waiting = busy-waiting;
}

busy-AllCanWake : AllCanWake busy.timer_list busy
unfolding is_interruptible
busy-AllCanWake = (((λ e. cc), refl), (((λ e. cc), refl), tt))

abbrev running : Option Kernel → Option ℕ
running none = none
running (some k) = some k.current

-- The running process goes on: its queue is above that of process 3.
schedule_runs : running (schedule busy) ≡ some 1
unfolding schedule enqueue_current sched_class_enqueue dequeue_next run_next is_runnable
    Mlfq.enqueue Mlfq.dequeue Mlfq.pick_next
schedule_runs = refl

abbrev woken_state : Option Kernel → ℕ → ProcState
woken_state none p = zombie
woken_state (some k) p = (k.procs p).state

timer_runs : woken_state (run_timer_list busy) 2 ≡ runnable
unfolding run_timer_list count_down fire_timers is_interruptible wakeup_proc is_zombie is_runnable
    sched_class_enqueue sched_class_proc_tick Mlfq.enqueue
timer_runs = refl

add_timer_lem_example :
    (deadlines 0 (alarm ∷ record late { id = 44; expires = 2 } ∷ record late { expires = 3 } ∷ [])
      ≡ insert_deadline 44 3 (deadlines 0 (alarm ∷ record late { expires = 5 } ∷ [])))
    × IsArmed (alarm ∷ record late { id = 44; expires = 2 } ∷ record late { expires = 3 } ∷ [])
unfolding add_timer is_linked insert_timer
add_timer_lem_example =
    add_timer_lem (record late { id = 44; expires = 3 }) (alarm ∷ record late { expires = 5 } ∷ [])
      (omega arith) refl

del_timer_lem_example :
    (deadlines 0 (del_timer 40 (alarm ∷ late ∷ []))
      ≡ remove_deadline 40 (deadlines 0 (alarm ∷ late ∷ [])))
    × IsArmed (del_timer 40 (alarm ∷ late ∷ []))
unfolding span
del_timer_lem_example = del_timer_lem 40 (alarm ∷ late ∷ []) (omega arith) (omega arith)

pick_next-Picks_example : Picks (pick_next busy) busy
pick_next-Picks_example = pick_next-Picks busy

choose_sinks_example : choose (some 1) 0 ≡ 2
choose_sinks_example = choose_sinks 1 0 (omega arith)

wakeup_proc_total_example : (k' : Kernel) × (wakeup_proc 2 busy ≡ some k') × IsWoken 2 busy k'
wakeup_proc_total_example = wakeup_proc_total 2 busy busy-IsConsistent (λ e. cc)

schedule_total_example : (k' : Kernel) × (schedule busy ≡ some k') × IsScheduled k'
schedule_total_example = schedule_total busy busy-IsConsistent

run_timer_list_total_example :
    (k' : Kernel) × (run_timer_list busy ≡ some k') × IsTicked busy.timer_list k'
run_timer_list_total_example =
    run_timer_list_total busy busy-IsConsistent (omega arith) busy-AllCanWake

abbrev boot : Kernel
boot = record busy { procs = λ p. nobody }

boot-IsBoot : IsBoot boot
unfolding is_runnable
boot-IsBoot = record { unlinked = λ p. (refl, refl); asleep = λ p h. refl }
