-- ===== src/Sched/Run/Consistent.antt =====
-- The states of the processes agree with the queues, and waking and scheduling keep it so.
use ucorebook_code.Prelude.{
  ℕ, ◌≡◌, ◌≢◌, refl, Bool, true, false, some, arith, inl, inr, Option-cases, update,
}
use ucorebook_code.Sched.Types.{Kernel, is_runnable}
use ucorebook_code.Sched.Store.{is_queue}
use ucorebook_code.Sched.Rr
use ucorebook_code.Sched.Mlfq
use ucorebook_code.Sched.Rr.Invariant.{IsFiled, occurrences}
use ucorebook_code.Sched.Mlfq.Priority.{IsPicked}

-- Every process but the running one and the idle one is runnable exactly when it stands in a queue;
-- those two stand in none.
pub record IsConsistent (k : Kernel) : Type 0 where
  pub queued : IsFiled k
  pub idle_out : (k.procs k.idleproc).linked ≡ false
  pub current_out : (k.procs k.current).linked ≡ false
  pub waiting :
      (p : ℕ) → p ≢ k.idleproc → p ≢ k.current → is_runnable (k.procs p).state ≡ (k.procs p).linked

-- What linking or unlinking a process leaves as it was.
pub record Relinks (p : ℕ) (old new : Bool) (k k' : Kernel) : Type 0 where
  pub before : (k.procs p).linked ≡ old
  pub after : (k'.procs p).linked ≡ new
  pub same_state : (k'.procs p).state ≡ (k.procs p).state
  pub same_wait : (k'.procs p).wait_state ≡ (k.procs p).wait_state
  pub others : (q : ℕ) → q ≢ p → k'.procs q ≡ k.procs q
  pub same_current : k'.current ≡ k.current
  pub same_idle : k'.idleproc ≡ k.idleproc

pub enqueue-Relinks :
    (p : ℕ) (k : Kernel) {k' : Kernel} → Mlfq.enqueue p k ≡ some k' → Relinks p false true k k'
unfolding Mlfq.enqueue update
enqueue-Relinks p k e = record {
  before = ground arith;
  after = ground arith;
  same_state = ground arith;
  same_wait = ground arith;
  others = λ q h. ground arith;
  same_current = ground arith;
  same_idle = ground arith;
}

pub dequeue-Relinks :
    (p : ℕ) (k : Kernel) {k' : Kernel} → Mlfq.dequeue p k ≡ some k' → Relinks p true false k k'
unfolding Mlfq.dequeue update
dequeue-Relinks p k e = record {
  before = ground arith;
  after = ground arith;
  same_state = ground arith;
  same_wait = ground arith;
  others = λ q h. ground arith;
  same_current = ground arith;
  same_idle = ground arith;
}

-- A process that stands in no queue can be put in one.
pub enqueue_total :
    (p : ℕ) (k : Kernel) → (k.procs p).linked ≡ false → (k' : Kernel) × (Mlfq.enqueue p k ≡ some k')
unfolding Mlfq.enqueue
enqueue_total p k e = rw e (_, refl)

pub picked_linked :
    (p i : ℕ) (k : Kernel)
    → IsFiled k
    → IsPicked k p i
    → ((k.procs p).linked ≡ true) × ((k.procs p).rq ≡ some i)
unfolding Rr.pick_next occurrences is_queue
picked_linked p i k f h = ground (arith, f.filed i p h.queue_lt)

-- A process at the head of a queue can be taken out.
pub dequeue_total :
    (p i : ℕ) (k : Kernel)
    → IsFiled k
    → IsPicked k p i
    → (k' : Kernel) × (Mlfq.dequeue p k ≡ some k')
unfolding Mlfq.dequeue
dequeue_total p i k f h = elim (Option-cases (Mlfq.dequeue p k)) [
  | inr r ↦ r
  | inl e ↦ absurd (ground (arith, picked_linked p i k f h))
]
