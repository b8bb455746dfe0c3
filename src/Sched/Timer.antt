-- ===== src/Sched/Timer.antt =====
-- The timer list of kern/schedule/sched.c: each timer holds its distance to the one before it.
pub mod Deadlines
use ucorebook_code.Prelude.{
  ℕ, ◌+◌, ◌-◌, ◌%◌, Bool, true, false, not, ◌&&◌, ◌||◌, ltb, ◌==◌, if◌then◌else◌, List, [], ◌∷◌,
  Option, some, assert, ◌>>=◌, ◌>>◌,
}
use ucorebook_code.Sched.Types.{Timer, u32_mod}

-- `!list_empty(&(timer->timer_link))`
unfoldable pub is_linked : ℕ → List Timer → Bool
is_linked id [] = false
is_linked id (t ∷ ts) = t.id == id || is_linked id ts

-- The loop of `add_timer`, with the distance that is left in `timer->expires`.
unfoldable pub insert_timer : Timer → List Timer → List Timer
insert_timer t [] = t ∷ []
insert_timer t (n ∷ ns) =
    if ltb t.expires n.expires
    then t ∷ record n { expires = n.expires - t.expires } ∷ ns
    else n ∷ insert_timer (record t { expires = t.expires - n.expires }) ns

unfoldable pub add_timer : Timer → List Timer → Option (List Timer)
add_timer t ts = do
  assert (ltb 0 t.expires && not (t.proc == 0))
  assert (not (is_linked t.id ts))
  some (insert_timer t ts)

-- `next->expires += timer->expires`, where there is a next timer.
unfoldable pub give_back : ℕ → List Timer → List Timer
give_back e [] = []
give_back e (n ∷ ns) =
    if e == 0 then n ∷ ns else record n { expires = (n.expires + e) % u32_mod } ∷ ns

-- A timer that is in no list is left alone.
unfoldable pub del_timer : ℕ → List Timer → List Timer
unfolding give_back
del_timer id [] = []
del_timer id (t ∷ ts) = if t.id == id then give_back t.expires ts else t ∷ del_timer id ts
