-- ===== src/Sched/Run/Tick.antt =====
-- The clock tick: which timers fire, and that it does not panic.
use ucorebook_code.Prelude.{
  ℕ, ◌+◌, ◌-◌, ◌<◌, ◌≤◌, ◌≡◌, ◌≢◌, refl, true, ◌==◌, ◌||◌, some, List, [], ◌∷◌, arith, inl, inr,
  Bool-cases, ℕ_discrete, update, ◌∙◌,
}
use ucorebook_code.Sched.Types.{Kernel, Timer, zombie, runnable, is_interruptible}
use ucorebook_code.Sched.Rr.Invariant.{IsFiled-same}
use ucorebook_code.Sched.Timer.Deadlines.{deadlines, pending, IsArmed}
use ucorebook_code.Sched.Run.{fire_timers, count_down, run_timer_list, sched_class_proc_tick}
use ucorebook_code.Sched.Run.Consistent.{IsConsistent}
use ucorebook_code.Sched.Run.Wakeup.{IsWoken, wakeup_proc_total}

pending_later :
    (now base : ℕ) (ts : List Timer)
    → now < base
    → pending now (deadlines base ts) ≡ deadlines base ts
unfolding pending deadlines
pending_later now base [] h = refl
pending_later now base (t ∷ ts) h = ground (arith, pending_later now (base + t.expires) ts)

-- The sleeper of a timer may be woken.
abbrev pub CanWake : ℕ → Kernel → Type 0
CanWake p k =
    ((k.procs p).state ≢ zombie)
    × (((k.procs p).wait_state == 0 || is_interruptible (k.procs p).wait_state) ≡ true)

abbrev pub AllCanWake : List Timer → Kernel → Type 0
AllCanWake [] k = Unit {0}
AllCanWake (t ∷ ts) k = CanWake t.proc k × AllCanWake ts k

-- The processes of the timers that fall due by `now` are runnable; `base` is the time of the timer
-- before the list.
abbrev pub AllDue : ℕ → ℕ → List Timer → Kernel → Type 0
AllDue base now [] k = Unit {0}
AllDue base now (t ∷ ts) k =
    (base + t.expires ≤ now → (k.procs t.proc).state ≡ runnable)
    × AllDue (base + t.expires) now ts k

AllDue-later : (base now : ℕ) (ts : List Timer) (k : Kernel) → now < base → AllDue base now ts k
AllDue-later base now [] k h = tt
AllDue-later base now (t ∷ ts) k h =
    ((λ le. absurd (omega arith)), AllDue-later (base + t.expires) now ts k (omega arith))

CanWake-IsWoken : (p q : ℕ) (k k' : Kernel) → IsWoken p k k' → CanWake q k → CanWake q k'
CanWake-IsWoken p q k k' w h = elim (ℕ_discrete q p) [
  | yes e ↦ ((λ z. ground (arith, w.woken)), ground (arith, w.calm))
  | no ne ↦ rw (w.others q ne) h
]

AllCanWake-IsWoken :
    (p : ℕ) (ts : List Timer) {k k' : Kernel} → IsWoken p k k' → AllCanWake ts k → AllCanWake ts k'
AllCanWake-IsWoken p [] w h = tt
AllCanWake-IsWoken p (t ∷ ts) {k} {k'} w h =
    (CanWake-IsWoken p t.proc k k' w h.0, AllCanWake-IsWoken p ts w h.1)

timer_list-IsConsistent :
    (ts : List Timer) (k : Kernel) → IsConsistent k → IsConsistent (record k { timer_list = ts })
timer_list-IsConsistent ts k v = record {
  queued = IsFiled-same k _ v.queued refl (λ p. (refl, refl));
  idle_out = v.idle_out;
  current_out = v.current_out;
  waiting = v.waiting;
}

-- What firing the timers of `ts` at the time `base` has done when it returns `k'`.
record IsFired (base : ℕ) (ts : List Timer) (k k' : Kernel) : Type 0 where
  consistent : IsConsistent k'
  left : deadlines base k'.timer_list ≡ pending base (deadlines base ts)
  due : AllDue base base ts k'
  armed : IsArmed k'.timer_list
  kept : (p : ℕ) → (k.procs p).state ≡ runnable → (k'.procs p).state ≡ runnable

-- The first timer is due: it fires, and then the others.
fire-IsFired :
    (base : ℕ) (t : Timer) (ts : List Timer) {k k₁ k₂ : Kernel}
    → t.expires ≡ 0
    → IsWoken t.proc k k₁
    → IsFired base ts k₁ k₂
    → IsFired base (t ∷ ts) k k₂
unfolding pending deadlines
fire-IsFired base t ts {k} {k₁} {k₂} z w f =
    let b : base + t.expires ≡ base = omega arith in
    record {
      consistent = f.consistent;
      left = rw b (ground (arith, f.left));
      due = ((λ _. f.kept t.proc w.woken), rw b f.due);
      armed = f.armed;
      kept = λ p r. elim (ℕ_discrete p t.proc) [
        | yes e ↦ f.kept p (ground (arith, w.woken))
        | no ne ↦ f.kept p (ground (arith, w.others p ne))
      ];
    }

-- The first timer is not due: nothing fires.
rest-IsFired :
    (base : ℕ) (t : Timer) (ts : List Timer) (k : Kernel)
    → 0 < t.expires
    → IsConsistent k
    → IsFired base (t ∷ ts) k (record k { timer_list = t ∷ ts })
unfolding pending deadlines
rest-IsFired base t ts k pos v = record {
  consistent = timer_list-IsConsistent (t ∷ ts) k v;
  left = ground (arith, pending_later base (base + t.expires) ts);
  due = ((λ le. absurd (omega arith)), AllDue-later (base + t.expires) base ts _ (omega arith));
  armed = pos;
  kept = λ p r. r;
}

fire_timers-IsFired :
    (base : ℕ) (ts : List Timer) (k : Kernel)
    → IsConsistent k
    → AllCanWake ts k
    → (k' : Kernel) × (fire_timers ts k ≡ some k') × IsFired base ts k k'
unfolding fire_timers pending deadlines
fire_timers-IsFired base [] k v h = (
  record k { timer_list = [] },
  refl,
  record {
    consistent = timer_list-IsConsistent [] k v;
    left = refl;
    due = tt;
    armed = tt;
    kept = λ p r. r;
  },
)
fire_timers-IsFired base (t ∷ ts) k v h = elim (Bool-cases (t.expires == 0)) [
  | inl z ↦
      let (k₁, e₁, w) = wakeup_proc_total t.proc k v h.0.0 in
      let (k₂, e₂, f) =
        fire_timers-IsFired base ts k₁ w.consistent (AllCanWake-IsWoken t.proc ts w h.1) in
      (k₂, rw (z, fire_timers, h.0.1, e₁) e₂, fire-IsFired base t ts (ground arith) w f)
  | inr nz ↦ (
    record k { timer_list = t ∷ ts },
    rw (nz, fire_timers),
    rest-IsFired base t ts k (ground arith) v,
  )
]

-- What a clock tick has done to the timers `ts`: a tick later the same deadlines are pending but for
-- those that have come, and the processes of these are runnable.
pub record IsTicked (ts : List Timer) (k' : Kernel) : Type 0 where
  pub consistent : IsConsistent k'
  pub armed : IsArmed k'.timer_list
  pub left : deadlines 1 k'.timer_list ≡ pending 1 (deadlines 0 ts)
  pub due : AllDue 0 1 ts k'

fired-IsTicked :
    (t : Timer) (ts : List Timer) {k k' : Kernel}
    → 0 < t.expires
    → IsFired 1 (record t { expires = t.expires - 1 } ∷ ts) k k'
    → IsTicked (t ∷ ts) k'
unfolding pending deadlines
fired-IsTicked t ts {k} {k'} a f =
    let b : 1 + (t.expires - 1) ≡ 0 + t.expires = omega arith in
    record {
      consistent = f.consistent;
      armed = f.armed;
      left = rw b at f.left;
      due = rw b at f.due;
    }

count_down-IsTicked :
    (ts : List Timer) (k : Kernel)
    → k.timer_list ≡ ts
    → IsConsistent k
    → IsArmed ts
    → AllCanWake ts k
    → (k' : Kernel) × (count_down ts k ≡ some k') × IsTicked ts k'
unfolding count_down pending deadlines
count_down-IsTicked [] k e v a h =
    (k, refl, record { consistent = v; armed = rw e tt; left = rw e refl; due = tt })
count_down-IsTicked (t ∷ ts) k e v a h =
    let (k', e', f) = fire_timers-IsFired 1 (record t { expires = t.expires - 1 } ∷ ts) k v h in
    (k', ground arith, fired-IsTicked t ts a f)

AllDue-same :
    (base now : ℕ) (ts : List Timer) (k k' : Kernel)
    → ((p : ℕ) → (k'.procs p).state ≡ (k.procs p).state)
    → AllDue base now ts k
    → AllDue base now ts k'
AllDue-same base now [] k k' same h = tt
AllDue-same base now (t ∷ ts) k k' same h =
    ((λ le. same t.proc ∙ h.0 le), AllDue-same (base + t.expires) now ts k k' same h.1)

-- The slice of the running process goes down by one; nothing else that matters here changes.
proc_tick-IsTicked :
    (ts : List Timer) (k : Kernel) → IsTicked ts k → IsTicked ts (sched_class_proc_tick k.current k)
unfolding sched_class_proc_tick update
proc_tick-IsTicked ts k v = record {
  consistent = record {
    queued = IsFiled-same k _ v.consistent.queued refl (λ p. ground arith);
    idle_out = ground (arith, v.consistent.idle_out);
    current_out = ground (arith, v.consistent.current_out);
    waiting = λ p ni nc. ground (arith, v.consistent.waiting p);
  };
  armed = v.armed;
  left = v.left;
  due = AllDue-same 0 1 ts k _ (λ p. ground arith) v.due;
}

-- A clock tick does not panic if processes and queues agree, the first timer has not run down and
-- every sleeper may be woken. Afterwards they still agree, each timer is a tick nearer to its
-- deadline, those that have come to it are gone from the list and their processes are runnable.
pub run_timer_list_total :
    (k : Kernel)
    → IsConsistent k
    → IsArmed k.timer_list
    → AllCanWake k.timer_list k
    → (k' : Kernel) × (run_timer_list k ≡ some k') × IsTicked k.timer_list k'
unfolding run_timer_list
run_timer_list_total k v a h =
    let (k', e, f) = count_down-IsTicked k.timer_list k refl v a h in
    (sched_class_proc_tick k'.current k', rw e refl, proc_tick-IsTicked k.timer_list k' f)
