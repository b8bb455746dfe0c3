-- ===== src/Sync/Sem/Up.antt =====
-- Giving a semaphore back, and that nobody waits for one that is free.
use ucorebook_code.Prelude.{
  ℕ, zero, suc, ◌<◌, ◌≡◌, ◌≢◌, refl, true, false, ◌==◌, List, [], ◌∷◌, Option, some, arith, update,
}
use ucorebook_code.Prelude.Int.{ℤ, pos, negsuc, pos_part, ◌+ℤ◌}
use ucorebook_code.Sched.Types.{zombie, runnable}
use ucorebook_code.Sched.Run.Consistent.{IsConsistent}
use ucorebook_code.Sched.Run.Wakeup.{wakeup_proc_total}
use ucorebook_code.Sync.{Sync, set_wait, set_head, wait_queue_del, without, is_in, wakeup_wait}
use ucorebook_code.Sync.Sem.{Semaphore, int_max, increment, up_at, up}

-- The entry at the head of the queue, if any, is linked there, and its process sleeps for the reason
-- given and is no zombie; if there is none, the value is below the greatest `int`.
abbrev pub CanHandOver : List ℕ → ℕ → Semaphore → Sync → Type 0
CanHandOver [] wait_state sem s = pos_part sem.value < int_max
CanHandOver (w ∷ ws) wait_state sem s =
    (is_in sem.wait_queue w s ≡ true)
    × ((s.kernel.procs (s.waits w).proc).wait_state ≡ wait_state)
    × ((s.kernel.procs (s.waits w).proc).state ≢ zombie)

-- The entry `w` is out of the queue, its process runs again, and it is told the reason.
abbrev HandsOver : ℕ → List ℕ → ℕ → ℕ → Sync → Sync → Type 0
HandsOver w ws q wait_state s s' =
    (s'.heads q ≡ ws)
    × ((s'.waits w).linked ≡ false)
    × ((s'.waits w).wakeup_flags ≡ wait_state)
    × ((s'.kernel.procs (s.waits w).proc).state ≡ runnable)
    × IsConsistent s'.kernel

-- With no process waiting the value grows; otherwise the first in the queue gets the semaphore.
abbrev pub GivesBack : List ℕ → ℕ → Semaphore → Sync → Option (Semaphore × Sync) → Type 0
GivesBack [] wait_state sem s o = o ≡ some (record sem { value = sem.value +ℤ pos 1 }, s)
GivesBack (w ∷ ws) wait_state sem s o =
    (s' : Sync) × (o ≡ some (sem, s')) × HandsOver w ws sem.wait_queue wait_state s s'

-- The state in which the process is woken.
abbrev taken_out : ℕ → ℕ → Sync → Sync
taken_out q w s =
    set_head q (without w (s.heads q)) (set_wait w (record (s.waits w) { linked = false }) s)

del-taken_out :
    (q w : ℕ) (s : Sync) → is_in q w s ≡ true → wait_queue_del q w s ≡ some (taken_out q w s)
unfolding wait_queue_del
del-taken_out q w s e = rw e refl

wakeup_wait_lem :
    (q w wait_state : ℕ) (ws : List ℕ) (s : Sync)
    → IsConsistent s.kernel
    → s.heads q ≡ w ∷ ws
    → is_in q w s ≡ true
    → (s.kernel.procs (s.waits w).proc).state ≢ zombie
    → (s' : Sync) × (wakeup_wait q w wait_state true s ≡ some s') × HandsOver w ws q wait_state s s'
unfolding wakeup_wait set_wait set_head update without
wakeup_wait_lem q w wait_state ws s v e linked alive =
    let (k, woken, W) = wakeup_proc_total (s.waits w).proc s.kernel v alive in
    let out = taken_out q w s in
    let same : (out.waits w).proc ≡ (s.waits w).proc = ground arith in
    (
      record (set_wait w (record (out.waits w) { wakeup_flags = wait_state }) out) { kernel = k },
      rw (del-taken_out q w s linked, same, woken) refl,
      (ground (arith, e), ground arith, ground arith, W.woken, W.consistent),
    )

increments : (v : ℤ) → pos_part v < int_max → increment v ≡ v +ℤ pos 1
unfolding increment ◌+ℤ◌
increments (pos n) h = ground arith
increments (negsuc zero) h = ground arith
increments (negsuc (suc n)) h = ground arith

up_at-GivesBack :
    (ws : List ℕ) (wait_state : ℕ) (sem : Semaphore) (s : Sync)
    → IsConsistent s.kernel
    → s.heads sem.wait_queue ≡ ws
    → CanHandOver ws wait_state sem s
    → GivesBack ws wait_state sem s (up_at ws wait_state sem s)
unfolding up_at
up_at-GivesBack [] wait_state sem s v e h = rw (increments sem.value h) refl
up_at-GivesBack (w ∷ ws) wait_state sem s v e h =
    let (s', done, over) = wakeup_wait_lem sem.wait_queue w wait_state ws s v e h.0 h.2 in
    let asleep : ((s.kernel.procs (s.waits w).proc).wait_state == wait_state) ≡ true =
      (let l = h.1 in ground arith) in
    (s', rw (asleep, done) refl, over)

-- Giving back a valid semaphore never panics where the first process that waits, if any, is asleep
-- for it: with no process waiting a value below the greatest `int` grows by one, and otherwise the value stays, that process
-- leaves the queue, is told the reason and runs again, and the scheduler's state stays consistent.
pub up-GivesBack :
    (wait_state : ℕ) (sem : Semaphore) (s : Sync)
    → sem.valid ≡ true
    → IsConsistent s.kernel
    → CanHandOver (s.heads sem.wait_queue) wait_state sem s
    → GivesBack (s.heads sem.wait_queue) wait_state sem s (up wait_state sem s)
unfolding up
up-GivesBack wait_state sem s ok v h =
    simp ok (up_at-GivesBack (s.heads sem.wait_queue) wait_state sem s v refl h)
