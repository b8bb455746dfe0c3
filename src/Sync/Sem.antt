-- ===== src/Sync/Sem.antt =====
-- kern/sync/sem.c: counting semaphores. A process that must wait sleeps inside `__down`, which is two
-- functions here, before and after the call of `schedule`.
pub mod Up
pub mod Fair
pub mod Counts
pub mod Undo
use ucorebook_code.Prelude.{
  ℕ, zero, suc, ◌+◌, ◌-◌, Bool, true, false, ltb, ◌==◌, if◌then◌else◌, List, [], ◌∷◌, Option, none,
  some, assert, ◌>>=◌, ◌>>◌,
}
use ucorebook_code.Prelude.Int.{ℤ, pos, negsuc}
use ucorebook_code.Sched.Types.{Timer, Kernel}
use ucorebook_code.Sched.Timer.{add_timer, del_timer}
use ucorebook_code.Sync.{
  Sync, wait_queue_init, wakeup_wait, wakeup_queue, wait_current_set, wait_current_del,
}

-- `wait_queue` is the address of the queue.
pub record Semaphore : Type 0 where
  pub value : ℤ
  pub valid : Bool
  pub count : ℕ
  pub wait_queue : ℕ

-- `sem->value > 0`
unfoldable pub is_positive : ℤ → Bool
is_positive (pos n) = ltb 0 n
is_positive (negsuc n) = false

-- The value is a 32-bit `int`, and wraps around.
abbrev pub int_max : ℕ
int_max = 0x7FFFFFFF

unfoldable pub increment : ℤ → ℤ
increment (pos n) = if n == int_max then negsuc int_max else pos (n + 1)
increment (negsuc zero) = pos 0
increment (negsuc (suc n)) = negsuc n

unfoldable pub decrement : ℤ → ℤ
decrement (pos zero) = negsuc 0
decrement (pos (suc n)) = pos n
decrement (negsuc n) = if n == int_max then pos int_max else negsuc (n + 1)

unfoldable pub sem_init : ℕ → ℤ → Sync → Semaphore × Sync
sem_init q value s =
    (record { value = value; valid = true; count = 0; wait_queue = q }, wait_queue_init q s)

-- `__up`, at the entry at the head of the queue.
unfoldable pub up_at : List ℕ → ℕ → Semaphore → Sync → Option (Semaphore × Sync)
up_at [] wait_state sem s = some (record sem { value = increment sem.value }, s)
up_at (w ∷ ws) wait_state sem s = do
  assert ((s.kernel.procs (s.waits w).proc).wait_state == wait_state)
  s' ← wakeup_wait sem.wait_queue w wait_state true s
  some (sem, s')

unfoldable pub up : ℕ → Semaphore → Sync → Option (Semaphore × Sync)
up wait_state sem s = do assert sem.valid; up_at (s.heads sem.wait_queue) wait_state sem s

-- `ipc_add_timer`, `ipc_del_timer`
unfoldable pub ipc_add_timer : Option Timer → Sync → Option Sync
ipc_add_timer none s = some s
ipc_add_timer (some t) s = do
  ts ← add_timer t s.kernel.timer_list
  some (record s { kernel = record s.kernel { timer_list = ts } })

unfoldable pub ipc_del_timer : Option Timer → Sync → Sync
ipc_del_timer none s = s
ipc_del_timer (some t) s = record s {
  kernel = record s.kernel { timer_list = del_timer t.id s.kernel.timer_list };
}

-- `__down` up to `schedule`, with the entry `w` on the caller's stack: whether the semaphore was free.
unfoldable pub down_begin :
    ℕ → ℕ → Option Timer → Semaphore → Sync → Option (Bool × Semaphore × Sync)
down_begin w wait_state timer sem s =
    let sleep : Option (Bool × Semaphore × Sync) = (do
      s₁ ← wait_current_set sem.wait_queue w wait_state s
      s₂ ← ipc_add_timer timer s₁
      some (false, sem, s₂)) in
    do
      assert sem.valid
      if is_positive sem.value
          then some (true, record sem { value = decrement sem.value }, s)
          else sleep

-- `__down` from the return of `schedule`: 0, or the flags that the process was woken with.
unfoldable pub down_end : ℕ → ℕ → Option Timer → Semaphore → Sync → Option (ℕ × Sync)
down_end w wait_state timer sem s = do
  s' ← wait_current_del sem.wait_queue w (ipc_del_timer timer s)
  some (if (s'.waits w).wakeup_flags == wait_state then 0 else (s'.waits w).wakeup_flags, s')

unfoldable pub try_down : Semaphore → Bool × Semaphore
try_down sem =
    if is_positive sem.value
    then (true, record sem { value = decrement sem.value })
    else (false, sem)
