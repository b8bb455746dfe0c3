-- ===== src/Sched/Run/Schedule.antt =====
-- `schedule` never panics, keeps the processes and the queues in agreement, and idles only if it
-- must.
use ucorebook_code.Prelude.{
  ℕ, ◌≡◌, ◌≢◌, refl, true, false, some, arith, ◌⊎◌, inl, inr, Option-cases, Bool-cases, ℕ_discrete,
  update,
}
use ucorebook_code.Sched.Types.{Kernel, is_runnable}
use ucorebook_code.Sched.Store.{nr_queues, is_queue, set_proc}
use ucorebook_code.Sched.Mlfq
use ucorebook_code.Sched.Rr.Invariant.{IsFiled, IsFiled-same, occurrences}
use ucorebook_code.Sched.Mlfq.Priority.{
  enqueue-IsFiled, dequeue-IsFiled, pick_next-Picks, IsPicked, EmptyBelow,
}
use ucorebook_code.Sched.Run.{
  sched_class_enqueue, enqueue_current, dequeue_next, run_next, schedule,
}
use ucorebook_code.Sched.Run.Consistent.{
  IsConsistent, enqueue-Relinks, dequeue-Relinks, enqueue_total, dequeue_total,
}

-- Between the two halves of `schedule`: the running process is queued like any other.
record IsSettled (k : Kernel) : Type 0 where
  queued : IsFiled k
  idle_out : (k.procs k.idleproc).linked ≡ false
  waiting : (p : ℕ) → p ≢ k.idleproc → is_runnable (k.procs p).state ≡ (k.procs p).linked

enqueue-IsSettled :
    (k : Kernel) {k' : Kernel}
    → IsConsistent k
    → k.current ≢ k.idleproc
    → is_runnable (k.procs k.current).state ≡ true
    → Mlfq.enqueue k.current k ≡ some k'
    → IsSettled k'
enqueue-IsSettled k v ne r e =
    let f = enqueue-Relinks k.current k e in
    record {
      queued = enqueue-IsFiled k.current k v.queued e;
      idle_out = ground (arith, f.others k.idleproc, v.idle_out);
      waiting = λ p h. elim (ℕ_discrete p k.current) [
        | yes c ↦ ground arith
        | no c ↦ ground (arith, f.others p c, v.waiting p)
      ];
    }

enqueue_current-IsSettled :
    (k : Kernel) → IsConsistent k → (k' : Kernel) × (enqueue_current k ≡ some k') × IsSettled k'
unfolding enqueue_current sched_class_enqueue
enqueue_current-IsSettled k v = elim (Bool-cases (is_runnable (k.procs k.current).state)) [
  | inl r ↦ elim (ℕ_discrete k.current k.idleproc) [
    | yes e ↦ (k, ground arith, same (inl e))
    | no ne ↦
        let (k', e) = enqueue_total k.current k v.current_out in
        (k', ground arith, enqueue-IsSettled k v ne r e)
  ]
  | inr r ↦ (k, ground arith, same (inr r))
]
  where
    same : (k.current ≡ k.idleproc) ⊎ (is_runnable (k.procs k.current).state ≡ false) → IsSettled k
    same h = record {
      queued = v.queued;
      idle_out = v.idle_out;
      waiting = λ p ne. elim (ℕ_discrete p k.current) [
        | yes c ↦ ground (arith, v.current_out)
        | no c ↦ v.waiting p ne c
      ];
    }

-- What `dequeue_next` makes of a settled kernel: the process `p` to run stands in no queue.
record IsChosen (p : ℕ) (k : Kernel) : Type 0 where
  queued : IsFiled k
  idle_out : (k.procs k.idleproc).linked ≡ false
  chosen_out : (k.procs p).linked ≡ false
  waiting : (q : ℕ) → q ≢ k.idleproc → q ≢ p → is_runnable (k.procs q).state ≡ (k.procs q).linked
  runs : p ≢ k.idleproc → is_runnable (k.procs p).state ≡ true
  idles : p ≡ k.idleproc → (q : ℕ) → q ≢ k.idleproc → is_runnable (k.procs q).state ≡ false

dequeue-IsChosen :
    (p i : ℕ) (k : Kernel) {k' : Kernel}
    → IsSettled k
    → IsPicked k p i
    → Mlfq.dequeue p k ≡ some k'
    → IsChosen p k'
dequeue-IsChosen p i k {k'} v h e =
    let f = dequeue-Relinks p k e in
    record {
      queued = dequeue-IsFiled p k v.queued e;
      idle_out = elim (ℕ_discrete k.idleproc p) [
        | yes c ↦ ground arith
        | no c ↦ ground (arith, f.others k.idleproc c, v.idle_out)
      ];
      chosen_out = f.after;
      waiting = λ q ne np. ground (arith, f.others q np, v.waiting q);
      runs = λ ne. ground (arith, v.waiting p);
      idles = λ same q ne. ground (arith, v.idle_out);
    }

-- With every queue empty no process but the idle one can run.
none_waits :
    (k : Kernel) → IsSettled k → EmptyBelow nr_queues k → (q : ℕ) → (k.procs q).linked ≡ false
unfolding is_queue occurrences
none_waits k v h q = elim (Option-cases (k.procs q).rq) [
  | inl e ↦ ground (arith, v.queued.placed q)
  | inr (i, e) ↦ let lt = v.queued.ringed q i e in ground (arith, v.queued.filed i q lt, h i lt)
]

dequeue_next-IsChosen :
    (k : Kernel)
    → IsSettled k
    → (p : ℕ) × (k' : Kernel) × (dequeue_next (Mlfq.pick_next k) k ≡ some (p, k')) × IsChosen p k'
unfolding dequeue_next
dequeue_next-IsChosen k v = elim (pick_next-Picks k) [
  | inl (p, i, e, picked) ↦
      let (k', d) = dequeue_total p i k v.queued picked in
      (p, k', ground arith, dequeue-IsChosen p i k v picked d)
  | inr (e, empty) ↦
      let out = none_waits k v empty in
      (
        k.idleproc,
        k,
        ground arith,
        record {
          queued = v.queued;
          idle_out = v.idle_out;
          chosen_out = v.idle_out;
          waiting = λ q ne _. v.waiting q ne;
          runs = λ ne. absurd (ne refl);
          idles = λ _ q ne. ground (arith, v.waiting q ne, out q);
        },
      )
]

run_next-IsConsistent : (p : ℕ) (k : Kernel) → IsChosen p k → IsConsistent (run_next p k)
unfolding run_next update
run_next-IsConsistent p k v = record {
  queued = IsFiled-same k (run_next p k) v.queued (ground arith) (λ q. ground arith);
  idle_out = ground (arith, v.idle_out);
  current_out = ground (arith, v.chosen_out);
  waiting = λ q ne np. ground (arith, v.waiting q);
}

yield-IsConsistent :
    (k : Kernel)
    → IsConsistent k
    → IsConsistent (set_proc k.current (record (k.procs k.current) { need_resched = false }) k)
unfolding set_proc update
yield-IsConsistent k v = record {
  queued = IsFiled-same k _ v.queued (ground arith) (λ q. ground arith);
  idle_out = ground (arith, v.idle_out);
  current_out = ground (arith, v.current_out);
  waiting = λ q ne np. ground (arith, v.waiting q);
}

-- The running process can run, and it is the idle one only if no other can.
pub record IsScheduled (k : Kernel) : Type 0 where
  pub consistent : IsConsistent k
  pub runs : k.current ≢ k.idleproc → is_runnable (k.procs k.current).state ≡ true
  pub idles :
      k.current ≡ k.idleproc → (q : ℕ) → q ≢ k.idleproc → is_runnable (k.procs q).state ≡ false

run_next-IsScheduled : (p : ℕ) (k : Kernel) → IsChosen p k → IsScheduled (run_next p k)
unfolding run_next update
run_next-IsScheduled p k v = record {
  consistent = run_next-IsConsistent p k v;
  runs = ground (arith, v.runs);
  idles = λ same q ne. ground (arith, v.idles (ground arith) q);
}

-- From a state in which processes and queues agree, `schedule` does not panic; they agree
-- afterwards, the process then running is runnable or the idle one, and the idle one runs only if
-- every other process is not runnable.
pub schedule_total :
    (k : Kernel) → IsConsistent k → (k' : Kernel) × (schedule k ≡ some k') × IsScheduled k'
unfolding schedule
schedule_total k v =
    let (k₁, e₁, v₁) = enqueue_current-IsSettled _ (yield-IsConsistent k v) in
    let (p, k₂, e₂, v₂) = dequeue_next-IsChosen k₁ v₁ in
    (run_next p k₂, rw (e₁, e₂) refl, run_next-IsScheduled p k₂ v₂)
