-- ===== src/Sync/Sem/Fair.antt =====
-- Nobody waits for a semaphore that is free.
use ucorebook_code.Prelude.{
  ℕ, ◌≡◌, refl, subst, Bool, true, List, [], ◌∷◌, Option, some, >>=-eq-some, assert, arith, ◌>>=◌,
  update,
}
use ucorebook_code.Prelude.Int.{ℤ}
use ucorebook_code.Sched.Types.{Timer, Kernel}
use ucorebook_code.Sync.{
  Sync, wait_queue_init, set_wait, set_head, wait_queue_del, wait_in_queue, without,
  wait_current_del,
}
use ucorebook_code.Sync.Sem.{
  Semaphore, is_positive, up_at, up, ipc_del_timer, down_begin, down_end, try_down, sem_init,
}

-- If the value is positive, the queue is empty.
abbrev pub IsFair : Semaphore → Sync → Type 0
IsFair sem s = is_positive sem.value ≡ true → s.heads sem.wait_queue ≡ []

up_at-IsFair :
    (wait_state : ℕ) (ws : List ℕ) (sem : Semaphore) (s : Sync) {sem' : Semaphore} {s' : Sync}
    → IsFair sem s
    → s.heads sem.wait_queue ≡ ws
    → up_at ws wait_state sem s ≡ some (sem', s')
    → IsFair sem' s'
unfolding up_at
up_at-IsFair wait_state [] sem s f e r = λ p. ground (arith, r, e)
up_at-IsFair wait_state (w ∷ ws) sem s f e r = λ p. ground (arith, f)

down_begin-IsFair :
    (w wait_state : ℕ) (timer : Option Timer) (sem : Semaphore) (s : Sync) {free : Bool}
    {sem' : Semaphore} {s' : Sync}
    → IsFair sem s
    → down_begin w wait_state timer sem s ≡ some (free, sem', s')
    → IsFair sem' s'
unfolding down_begin
down_begin-IsFair w wait_state timer sem s f r = λ p. ground (arith, f)

down_end-IsFair :
    (w wait_state : ℕ) (timer : Option Timer) (sem : Semaphore) (s : Sync) {flags : ℕ} {s' : Sync}
    → IsFair sem s
    → down_end w wait_state timer sem s ≡ some (flags, s')
    → IsFair sem s'
unfolding down_end wait_current_del wait_queue_del set_head set_wait update without wait_in_queue
    ipc_del_timer
down_end-IsFair w wait_state timer sem s f r = λ p. ground (arith, f)

try_down-IsFair : (sem : Semaphore) (s : Sync) → IsFair sem s → IsFair (try_down sem).1 s
unfolding try_down
try_down-IsFair sem s f = λ p. ground (arith, f)

-- What is done to one semaphore: the halves of `__down` of several processes may interleave. Between
-- two of them the rest of the kernel may change the scheduler's state in any way: another process
-- runs, a timer ends a sleep, other semaphores are used.
pub data Event : Type 0 where
  ups : ℕ → Event
  downs : ℕ → ℕ → Option Timer → Event
  down_returns : ℕ → ℕ → Option Timer → Event
  tries : Event
  elsewhere : (Kernel → Kernel) → Event

unfoldable pub step : Event → Semaphore × Sync → Option (Semaphore × Sync)
step (ups wait_state) (sem, s) = up wait_state sem s
step (downs w wait_state timer) (sem, s) = do
  (free, sem', s') ← down_begin w wait_state timer sem s
  some (sem', s')
step (down_returns w wait_state timer) (sem, s) = do
  (flags, s') ← down_end w wait_state timer sem s
  some (sem, s')
step tries (sem, s) = some ((try_down sem).1, s)
step (elsewhere change) (sem, s) = some (sem, record s { kernel = change s.kernel })

unfoldable pub run : List Event → Semaphore × Sync → Option (Semaphore × Sync)
run [] st = some st
run (ev ∷ evs) st = do st' ← step ev st; run evs st'

moved : (st st' : Semaphore × Sync) → some st ≡ some st' → IsFair st.0 st.1 → IsFair st'.0 st'.1
moved st st' e f = let same : st ≡ st' = cc in subst (λ x. IsFair x.0 x.1) same f

step-IsFair :
    (ev : Event) (sem : Semaphore) (s : Sync) {sem' : Semaphore} {s' : Sync}
    → IsFair sem s
    → step ev (sem, s) ≡ some (sem', s')
    → IsFair sem' s'
unfolding step up
step-IsFair (ups wait_state) sem s {sem'} {s'} f e =
    let (tt, valid, e') = >>=-eq-some (assert sem.valid) _ e in
    up_at-IsFair wait_state (s.heads sem.wait_queue) sem s f refl e'
step-IsFair (downs w wait_state timer) sem s {sem'} {s'} f e =
    let ((free, sem₁, s₁), began, e') = >>=-eq-some (down_begin w wait_state timer sem s) _ e in
    moved (sem₁, s₁) (sem', s') e' (down_begin-IsFair w wait_state timer sem s f began)
step-IsFair (down_returns w wait_state timer) sem s {sem'} {s'} f e =
    let ((flags, s₁), ended, e') = >>=-eq-some (down_end w wait_state timer sem s) _ e in
    moved (sem, s₁) (sem', s') e' (down_end-IsFair w wait_state timer sem s f ended)
step-IsFair tries sem s {sem'} {s'} f e =
    moved ((try_down sem).1, s) (sem', s') e (try_down-IsFair sem s f)
step-IsFair (elsewhere change) sem s {sem'} {s'} f e =
    moved (sem, record s { kernel = change s.kernel }) (sem', s') e f

run-keeps_IsFair :
    (evs : List Event) (sem : Semaphore) (s : Sync) {sem' : Semaphore} {s' : Sync}
    → IsFair sem s
    → run evs (sem, s) ≡ some (sem', s')
    → IsFair sem' s'
unfolding run
run-keeps_IsFair [] sem s {sem'} {s'} f e = moved (sem, s) (sem', s') e f
run-keeps_IsFair (ev ∷ evs) sem s f e =
    let ((sem₁, s₁), stepped, e') = >>=-eq-some (step ev (sem, s)) _ e in
    run-keeps_IsFair evs sem₁ s₁ (step-IsFair ev sem s f stepped) e'

-- However the calls of several processes on a new semaphore interleave, with whatever the rest of the
-- kernel does to the scheduler's state between them, as long as no call fails an assertion, no
-- process waits for it while its value is positive.
pub run-IsFair :
    (q : ℕ) (value : ℤ) (s : Sync) (evs : List Event) (sem' : Semaphore) (s' : Sync)
    → run evs (sem_init q value s) ≡ some (sem', s')
    → IsFair sem' s'
unfolding sem_init wait_queue_init set_head update
run-IsFair q value s evs sem' s' e =
    run-keeps_IsFair evs (sem_init q value s).0 (sem_init q value s).1 (λ p. ground arith) e
