-- ===== src/Sched/Run/Wakeup.antt =====
-- `wakeup_proc`: what it does to the process, and that the queues keep up.
use ucorebook_code.Prelude.{
  ℕ, ◌≡◌, ◌≢◌, refl, some, arith, ◌⊎◌, inl, inr, Bool-cases, ℕ_discrete, update,
}
use ucorebook_code.Sched.Types.{Kernel, zombie, runnable, is_runnable, is_zombie}
use ucorebook_code.Sched.Store.{set_proc}
use ucorebook_code.Sched.Mlfq
use ucorebook_code.Sched.Rr.Invariant.{IsFiled-same}
use ucorebook_code.Sched.Mlfq.Priority.{enqueue-IsFiled}
use ucorebook_code.Sched.Run.{sched_class_enqueue, wakeup_proc}
use ucorebook_code.Sched.Run.Consistent.{IsConsistent, enqueue-Relinks, enqueue_total}

abbrev mark : ℕ → Kernel → Kernel
mark p k = set_proc p (record (k.procs p) { state = runnable; wait_state = 0 }) k

-- A process that is woken and then queued.
enqueue-IsConsistent :
    (p : ℕ) (k k' : Kernel) {w : Kernel}
    → IsConsistent k
    → p ≢ k.current
    → p ≢ k.idleproc
    → w ≡ mark p k
    → Mlfq.enqueue p w ≡ some k'
    → IsConsistent k'
unfolding set_proc update is_runnable
enqueue-IsConsistent p k k' {w} v nc ni same e =
    let f = enqueue-Relinks p w e in
    record {
      queued = enqueue-IsFiled p w (IsFiled-same k w v.queued (ground arith) (λ q. ground arith)) e;
      idle_out = ground (arith, f.others k.idleproc, v.idle_out);
      current_out = ground (arith, f.others k.current, v.current_out);
      waiting = λ q hi hc. elim (ℕ_discrete q p) [
        | yes c ↦ ground (arith, f.after, f.same_state)
        | no c ↦ ground (arith, f.others q c, v.waiting q)
      ];
    }

-- A process that is the running one or the idle one is only marked.
mark-IsConsistent :
    (p : ℕ) (k : Kernel)
    → IsConsistent k
    → (p ≡ k.current) ⊎ (p ≡ k.idleproc)
    → IsConsistent (mark p k)
unfolding set_proc update is_runnable
mark-IsConsistent p k v h = record {
  queued = IsFiled-same k _ v.queued (ground arith) (λ q. ground arith);
  idle_out = ground (arith, v.idle_out);
  current_out = ground (arith, v.current_out);
  waiting = λ q hi hc. ground (arith, v.waiting q);
}

-- The process is runnable, no other has changed, and processes and queues agree.
pub record IsWoken (p : ℕ) (k k' : Kernel) : Type 0 where
  pub consistent : IsConsistent k'
  pub woken : (k'.procs p).state ≡ runnable
  pub calm : ((k'.procs p).wait_state ≡ 0) ⊎ ((k'.procs p).wait_state ≡ (k.procs p).wait_state)
  pub others : (q : ℕ) → q ≢ p → k'.procs q ≡ k.procs q
  pub same_current : k'.current ≡ k.current
  pub same_idle : k'.idleproc ≡ k.idleproc

mark-IsWoken :
    (p : ℕ) (k : Kernel)
    → IsConsistent k
    → (p ≡ k.current) ⊎ (p ≡ k.idleproc)
    → IsWoken p k (mark p k)
unfolding set_proc update
mark-IsWoken p k v h = record {
  consistent = mark-IsConsistent p k v h;
  woken = ground arith;
  calm = inl (ground arith);
  others = λ q ne. ground arith;
  same_current = refl;
  same_idle = refl;
}

enqueue-IsWoken :
    (p : ℕ) (k k' : Kernel)
    → IsConsistent k
    → p ≢ k.current
    → p ≢ k.idleproc
    → Mlfq.enqueue p (mark p k) ≡ some k'
    → IsWoken p k k'
unfolding set_proc update
enqueue-IsWoken p k k' v nc ni e =
    let f = enqueue-Relinks p (mark p k) e in
    record {
      consistent = enqueue-IsConsistent p k k' v nc ni refl e;
      woken = ground (arith, f.same_state);
      calm = inl (ground (arith, f.same_wait));
      others = λ q ne. ground (arith, f.others q ne);
      same_current = f.same_current;
      same_idle = f.same_idle;
    }

-- Waking a process that is not a zombie does not panic, makes it runnable, touches no other
-- process's state, and keeps processes and queues in agreement.
pub wakeup_proc_total :
    (p : ℕ) (k : Kernel)
    → IsConsistent k
    → (k.procs p).state ≢ zombie
    → (k' : Kernel) × (wakeup_proc p k ≡ some k') × IsWoken p k k'
unfolding wakeup_proc sched_class_enqueue is_zombie is_runnable set_proc update
wakeup_proc_total p k v h = elim (Bool-cases (is_runnable (k.procs p).state)) [
  | inl r ↦ (
    k,
    ground arith,
    record {
      consistent = v;
      woken = ground arith;
      calm = inr refl;
      others = λ q ne. refl;
      same_current = refl;
      same_idle = refl;
    },
  )
  | inr r ↦ elim (ℕ_discrete p k.current) [
    | yes c ↦ (mark p k, ground arith, mark-IsWoken p k v (inl c))
    | no nc ↦ elim (ℕ_discrete p k.idleproc) [
      | yes c ↦ (mark p k, ground arith, mark-IsWoken p k v (inr c))
      | no ni ↦
          let (k', e) = enqueue_total p (mark p k) (ground (arith, v.waiting p ni nc)) in
          (k', ground arith, enqueue-IsWoken p k k' v nc ni e)
    ]
  ]
]
