-- ===== src/Sched/Timer/Deadlines.antt =====
-- The timer list as a list of deadlines, in the order in which they fall due.
use ucorebook_code.Prelude.{
  ℕ, ◌+◌, ◌-◌, ◌<◌, ◌≡◌, refl, ltb, leb, ◌==◌, if◌then◌else◌, List, [], ◌∷◌, some, arith,
}
use ucorebook_code.Sched.Types.{Timer, u32_mod}
use ucorebook_code.Sched.Timer.{add_timer, insert_timer, give_back, del_timer}

-- A timer's address and the tick at which it falls due, counted from `base`.
unfoldable pub deadlines : ℕ → List Timer → List (ℕ × ℕ)
deadlines base [] = []
deadlines base (t ∷ ts) = (t.id, base + t.expires) ∷ deadlines (base + t.expires) ts

-- Behind the deadlines that are no later.
unfoldable pub insert_deadline : ℕ → ℕ → List (ℕ × ℕ) → List (ℕ × ℕ)
insert_deadline i d [] = (i, d) ∷ []
insert_deadline i d ((j, e) ∷ l) =
    if ltb d e then (i, d) ∷ (j, e) ∷ l else (j, e) ∷ insert_deadline i d l

unfoldable pub remove_deadline : ℕ → List (ℕ × ℕ) → List (ℕ × ℕ)
remove_deadline i [] = []
remove_deadline i ((j, e) ∷ l) = if j == i then l else (j, e) ∷ remove_deadline i l

-- The deadlines that are still to come after the tick `now`.
unfoldable pub pending : ℕ → List (ℕ × ℕ) → List (ℕ × ℕ)
pending now [] = []
pending now ((j, e) ∷ l) = if leb e now then pending now l else (j, e) ∷ pending now l

-- The last deadline.
unfoldable pub span : List Timer → ℕ
span [] = 0
span (t ∷ ts) = t.expires + span ts

pub deadlines-insert_timer :
    (base : ℕ) (t : Timer) (ts : List Timer)
    → deadlines base (insert_timer t ts)
      ≡ insert_deadline t.id (base + t.expires) (deadlines base ts)
unfolding deadlines insert_deadline insert_timer
deadlines-insert_timer base t [] = refl
deadlines-insert_timer base t (n ∷ ns) = ground (
  arith,
  deadlines-insert_timer (base + n.expires) (record t { expires = t.expires - n.expires }) ns,
)

deadlines-give_back :
    (base e : ℕ) (ts : List Timer)
    → e + span ts < u32_mod
    → deadlines base (give_back e ts) ≡ deadlines (base + e) ts
unfolding deadlines give_back span
deadlines-give_back base e [] h = refl
deadlines-give_back base e (n ∷ ns) h = ground arith

pub deadlines-del_timer :
    (base id : ℕ) (ts : List Timer)
    → span ts < u32_mod
    → deadlines base (del_timer id ts) ≡ remove_deadline id (deadlines base ts)
unfolding deadlines remove_deadline del_timer span
deadlines-del_timer base id [] h = refl
deadlines-del_timer base id (t ∷ ts) h =
    ground
      (arith, deadlines-give_back base t.expires ts, deadlines-del_timer (base + t.expires) id ts)

-- The first timer has not run down.
abbrev pub IsArmed : List Timer → Type 0
IsArmed [] = Unit {0}
IsArmed (t ∷ ts) = 0 < t.expires

insert_timer-IsArmed :
    (t : Timer) (ts : List Timer) → 0 < t.expires → IsArmed ts → IsArmed (insert_timer t ts)
unfolding insert_timer
insert_timer-IsArmed t [] h v = h
insert_timer-IsArmed t (n ∷ ns) h v = ground arith

-- A timer that is set enters the list of deadlines at its own deadline, behind those that are no
-- later, leaves the others as they were, and the first timer stays armed.
pub add_timer_lem :
    (t : Timer) (ts : List Timer) {ts' : List Timer}
    → IsArmed ts
    → add_timer t ts ≡ some ts'
    → (deadlines 0 ts' ≡ insert_deadline t.id t.expires (deadlines 0 ts)) × IsArmed ts'
unfolding add_timer
add_timer_lem t ts v e =
    ground (arith, deadlines-insert_timer 0 t ts, insert_timer-IsArmed t ts (ground arith) v)

del_timer-IsArmed :
    (id : ℕ) (ts : List Timer) → span ts < u32_mod → IsArmed ts → IsArmed (del_timer id ts)
unfolding del_timer give_back span
del_timer-IsArmed id [] h v = tt
del_timer-IsArmed id (t ∷ []) h v = ground arith
del_timer-IsArmed id (t ∷ n ∷ ns) h v = ground arith

-- Deleting a timer takes its deadline away and leaves the others as they were, if the last deadline
-- is below 2 ^ 32.
pub del_timer_lem :
    (id : ℕ) (ts : List Timer)
    → span ts < u32_mod
    → IsArmed ts
    → (deadlines 0 (del_timer id ts) ≡ remove_deadline id (deadlines 0 ts))
      × IsArmed (del_timer id ts)
del_timer_lem id ts h v = (deadlines-del_timer 0 id ts h, del_timer-IsArmed id ts h v)
