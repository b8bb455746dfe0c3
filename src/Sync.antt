-- ===== src/Sync.antt =====
-- kern/sync/wait.c: the queues that processes sleep in. A queue and an entry are named by their
-- addresses, and a queue is the list of its entries in order; `linked` says whether an entry's
-- `wait_link` is in a list.
pub mod Sem
use ucorebook_code.Prelude.{
  ℕ, Bool, true, false, not, ◌&&◌, ◌==◌, if◌then◌else◌, List, [], ◌∷◌, ◌++◌, Option, none, some,
  assert, ◌>>=◌, ◌>>◌, update,
}
use ucorebook_code.Sched.Types.{sleeping, wt_interrupted, Proc, Kernel}
use ucorebook_code.Sched.Store.{set_proc}
use ucorebook_code.Sched.Run.{wakeup_proc}

pub record Wait : Type 0 where
  pub proc : ℕ
  pub wakeup_flags : ℕ
  pub wait_queue : ℕ
  pub linked : Bool

pub record Sync : Type 0 where
  pub kernel : Kernel
  pub waits : ℕ → Wait
  pub heads : ℕ → List ℕ

unfoldable pub set_wait : ℕ → Wait → Sync → Sync
unfolding update
set_wait w v s = record s { waits = update s.waits w v }

unfoldable pub set_head : ℕ → List ℕ → Sync → Sync
unfolding update
set_head q ws s = record s { heads = update s.heads q ws }

unfoldable pub wait_init : ℕ → ℕ → Sync → Sync
unfolding set_wait
wait_init w p s =
    set_wait w (record (s.waits w) { proc = p; wakeup_flags = wt_interrupted; linked = false }) s

unfoldable pub wait_queue_init : ℕ → Sync → Sync
unfolding set_head
wait_queue_init q s = set_head q [] s

unfoldable pub wait_queue_add : ℕ → ℕ → Sync → Option Sync
unfolding set_wait set_head
wait_queue_add q w s =
    let v = s.waits w in
    do
      assert (not v.linked && not (v.proc == 0))
      some (
          set_head q (s.heads q ++ w ∷ [])
            (set_wait w (record v { wait_queue = q; linked = true }) s))

unfoldable pub without : ℕ → List ℕ → List ℕ
without w [] = []
without w (x ∷ xs) = if x == w then xs else x ∷ without w xs

-- `!list_empty(&(wait->wait_link)) && wait->wait_queue == queue`
unfoldable pub is_in : ℕ → ℕ → Sync → Bool
is_in q w s = (s.waits w).linked && (s.waits w).wait_queue == q

unfoldable pub wait_queue_del : ℕ → ℕ → Sync → Option Sync
unfolding set_wait set_head is_in
wait_queue_del q w s = do
  assert (is_in q w s)
  some (set_head q (without w (s.heads q)) (set_wait w (record (s.waits w) { linked = false }) s))

unfoldable pub wait_queue_first : ℕ → Sync → Option ℕ
wait_queue_first q s = elim (s.heads q) [ [] ↦ none | w ∷ ws ↦ some w ]

unfoldable pub last : List ℕ → Option ℕ
last [] = none
last (w ∷ []) = some w
last (w ∷ x ∷ ws) = last (x ∷ ws)

unfoldable pub wait_queue_last : ℕ → Sync → Option ℕ
unfolding last
wait_queue_last q s = last (s.heads q)

-- The entry behind `w`, and the one before it.
unfoldable pub behind : ℕ → List ℕ → Option ℕ
behind w [] = none
behind w (x ∷ []) = none
behind w (x ∷ y ∷ ws) = let rest = behind w (y ∷ ws) in if x == w then some y else rest

unfoldable pub before : ℕ → List ℕ → Option ℕ
before w [] = none
before w (x ∷ []) = none
before w (x ∷ y ∷ ws) = let rest = before w (y ∷ ws) in if y == w then some x else rest

unfoldable pub wait_queue_next : ℕ → ℕ → Sync → Option (Option ℕ)
unfolding is_in behind
wait_queue_next q w s = do assert (is_in q w s); some (behind w (s.heads q))

unfoldable pub wait_queue_prev : ℕ → ℕ → Sync → Option (Option ℕ)
unfolding is_in before
wait_queue_prev q w s = do assert (is_in q w s); some (before w (s.heads q))

unfoldable pub wait_queue_empty : ℕ → Sync → Bool
wait_queue_empty q s = elim (s.heads q) [ [] ↦ true | w ∷ ws ↦ false ]

unfoldable pub wait_in_queue : ℕ → Sync → Bool
wait_in_queue w s = (s.waits w).linked

unfoldable pub wakeup_wait : ℕ → ℕ → ℕ → Bool → Sync → Option Sync
unfolding set_wait
wakeup_wait q w flags del s = do
  s' ← if del then wait_queue_del q w s else some s
  k ← wakeup_proc (s'.waits w).proc s'.kernel
  some (record (set_wait w (record (s'.waits w) { wakeup_flags = flags }) s') { kernel = k })

unfoldable pub wakeup_first : ℕ → ℕ → Bool → Sync → Option Sync
wakeup_first q flags del s = elim (s.heads q) [ [] ↦ some s | w ∷ ws ↦ wakeup_wait q w flags del s ]

-- Each entry in turn: the first of the queue where entries are deleted, and otherwise the next.
unfoldable pub wakeup_each : ℕ → ℕ → Bool → List ℕ → Sync → Option Sync
wakeup_each q flags del [] s = some s
wakeup_each q flags del (w ∷ ws) s = do
  s' ← wakeup_wait q w flags del s
  wakeup_each q flags del ws s'

unfoldable pub wakeup_queue : ℕ → ℕ → Bool → Sync → Option Sync
unfolding wakeup_each
wakeup_queue q flags del s = wakeup_each q flags del (s.heads q) s

-- `current` goes to sleep in the queue.
unfoldable pub wait_current_set : ℕ → ℕ → ℕ → Sync → Option Sync
unfolding set_proc
wait_current_set q w wait_state s =
    let k = s.kernel in
    let v = k.procs k.current in
    let k' = set_proc k.current (record v { state = sleeping; wait_state = wait_state }) k in
    do
      assert (not (k.current == 0))
      wait_queue_add q w (record (wait_init w k.current s) { kernel = k' })

-- `wait_current_del`
unfoldable pub wait_current_del : ℕ → ℕ → Sync → Option Sync
wait_current_del q w s = if wait_in_queue w s then wait_queue_del q w s else some s
