-- ===== src/File/Steps.antt =====
-- The file table as a state machine: threads run the halves of the calls in any order. A call
-- that comes to `vfs_close` ends with it, and its return is a step of its own.
use ucorebook_code.Prelude.{ℕ, ◌<◌, ◌≡◌, refl, ap, Bool, true, Option, none, some, arith}
use ucorebook_code.Prelude.Int.{ℤ}
use ucorebook_code.Prelude.Errno.{Result, ok}
use ucorebook_code.File.{Table, is_init, is_opened, is_unused, is_closed, filemap_init, free_end}
use ucorebook_code.File.Calls.{
  finish_transfer, file_seek_end, finish_query, file_pipe_end, file_mkfifo_end, file_open_end,
  file_open_begin, file_close, file_read_begin, file_write_begin, query_begin, file_dup,
  file_pipe_begin, file_mkfifo_begin,
}
use ucorebook_code.File.Invariant.{IsExact, free_end-IsExact, KeepsExact}
use ucorebook_code.File.Safety.{
  EndsExact, Holds, hold, file_open_end_lem, file_open_begin_lem, file_close_lem, query_begin-Holds,
  file_read_begin-Holds, file_write_begin-Holds,
}
use ucorebook_code.File.Ends.{
  let_go, finish_transfer_lem, finish_query_lem, file_seek_end_lem, file_mkfifo_begin_lem,
  file_mkfifo_end_lem,
}
use ucorebook_code.File.Pairs.{AreTaken, file_dup_lem, file_pipe_begin_lem, file_pipe_end_lem}

-- A half of a system call, with what the virtual file system returned before a second half.
pub data Event : Type 0 where
  opens : ℕ → Event
  open_returns : ℕ → ℕ → Result ℕ → Result ℕ → Event
  closes : ℤ → Event
  reads : ℤ → Event
  writes : ℤ → Event
  transfer_returns : ℕ → ℕ → Event
  queries : ℤ → Event
  query_returns : ℕ → Event
  seek_returns : ℕ → ℕ → ℕ → Result ℕ → (ℕ → Result (Unit {0})) → Event
  dups : ℤ → Option ℤ → Event
  pipes : Event
  pipe_returns : ℕ → ℕ → Result (ℕ × ℕ) → Event
  fifos : ℕ → Event
  fifo_returns : ℕ → Bool → Bool → Result ℕ → Event
  close_returns : ℕ → Event

-- The table, and how many calls are under way on each file.
abbrev pub State : Type 0
State = (ℕ → ℕ) × Table

-- A second half runs only after its first half: the slot is still being opened, or the file is held.
abbrev pub CanHappen : ℕ → State → Event → Type 0
CanHappen nentry (held, t) (open_returns i flags node stat) =
    (i < nentry) × (is_init (t.files i).status ≡ true)
CanHappen nentry (held, t) (transfer_returns i copied) = (i < nentry) × (0 < held i)
CanHappen nentry (held, t) (query_returns i) = (i < nentry) × (0 < held i)
CanHappen nentry (held, t) (seek_returns i target whence stat tryseek) = (i < nentry) × (0 < held i)
CanHappen nentry (held, t) (pipe_returns i j nodes) = AreTaken nentry (ok (i, j)) t
CanHappen nentry (held, t) (fifo_returns i readonly named node) =
    (i < nentry) × (is_init (t.files i).status ≡ true)
CanHappen nentry (held, t) (close_returns i) =
    (i < nentry) × (is_closed (t.files i).status ≡ true) × ((t.files i).open_count ≡ 0)
CanHappen nentry s _ = Unit {0}

-- The table after a half, with the calls under way as they are.
abbrev keep {ℓ} : {R : Type ℓ} → (ℕ → ℕ) → Option (R × Table) → Option State
keep held none = none
keep held (some (r, t)) = some (held, t)

-- One call more is under way if the half got hold of a file.
abbrev begin : (ℕ → ℕ) → Option (Result ℕ × Table) → Option State
begin held none = none
begin held (some (r, t)) = some (hold r held, t)

abbrev finish : (ℕ → ℕ) → Option Table → Option State
finish held none = none
finish held (some t) = some (held, t)

module _ (nentry : ℕ) where
  unfoldable pub step : State → Event → Option State
  step (held, t) (opens flags) = keep held (file_open_begin nentry flags t)
  step (held, t) (open_returns i flags node stat) = keep held (file_open_end i flags node stat t)
  step (held, t) (closes fd) = keep held (file_close nentry fd t)
  step (held, t) (reads fd) = begin held (file_read_begin nentry fd t)
  step (held, t) (writes fd) = begin held (file_write_begin nentry fd t)
  step (held, t) (transfer_returns i copied) = finish (let_go i held) (finish_transfer i copied t)
  step (held, t) (queries fd) = begin held (query_begin nentry fd t)
  step (held, t) (query_returns i) = finish (let_go i held) (finish_query i t)
  step (held, t) (seek_returns i target whence stat tryseek) =
      keep (let_go i held) (file_seek_end i target whence stat tryseek t)
  step (held, t) (dups fd1 fd2) = keep held (file_dup nentry fd1 fd2 t)
  step (held, t) pipes = keep held (file_pipe_begin nentry t)
  step (held, t) (pipe_returns i j nodes) = keep held (file_pipe_end i j nodes t)
  step (held, t) (fifos flags) = keep held (file_mkfifo_begin nentry flags t)
  step (held, t) (fifo_returns i readonly named node) =
      keep held (file_mkfifo_end i readonly named node t)
  step (held, t) (close_returns i) = some (held, free_end i t)

  abbrev pub StepsExact : Option State → Type 0
  StepsExact o = (s : State) × (o ≡ some s) × IsExact nentry s.0 s.1

  of_EndsExact {ℓ} :
      {R : Type ℓ} (held : ℕ → ℕ) (o : Option (R × Table))
      → EndsExact nentry held o
      → StepsExact (keep held o)
  of_EndsExact held o (r, t, e, v) = ((held, t), ap (keep held) e, v)

  of_Holds :
      (held : ℕ → ℕ) (o : Option (Result ℕ × Table))
      → Holds nentry held o
      → StepsExact (begin held o)
  of_Holds held o (r, t, e, v) = ((hold r held, t), ap (begin held) e, v)

  of_KeepsExact :
      (held : ℕ → ℕ) (o : Option Table) → KeepsExact nentry held o → StepsExact (finish held o)
  of_KeepsExact held o (t, e, v) = ((held, t), ap (finish held) e, v)

  -- From a valid table no half of a system call panics, whatever the virtual file system returned,
  -- and the counts stay exact.
  pub step_safe :
      (s : State) (ev : Event)
      → IsExact nentry s.0 s.1
      → CanHappen nentry s ev
      → StepsExact (step s ev)
  unfolding step
  step_safe (held, t) (opens flags) v c =
      let (r, t', e, v', _, _, _) = file_open_begin_lem nentry flags held t v in
      ((held, t'), ap (keep held) e, v')
  step_safe (held, t) (open_returns i flags node stat) v c =
      of_EndsExact held _ (file_open_end_lem nentry i flags node stat held t v c.0 c.1)
  step_safe (held, t) (closes fd) v c = of_EndsExact held _ (file_close_lem nentry fd held t v)
  step_safe (held, t) (reads fd) v c = of_Holds held _ (file_read_begin-Holds nentry fd held t v)
  step_safe (held, t) (writes fd) v c = of_Holds held _ (file_write_begin-Holds nentry fd held t v)
  step_safe (held, t) (transfer_returns i copied) v c =
      of_KeepsExact (let_go i held) _ (finish_transfer_lem nentry i copied held t v c.0 c.1)
  step_safe (held, t) (queries fd) v c = of_Holds held _ (query_begin-Holds nentry fd held t v)
  step_safe (held, t) (query_returns i) v c =
      of_KeepsExact (let_go i held) _ (finish_query_lem nentry i held t v c.0 c.1)
  step_safe (held, t) (seek_returns i target whence stat tryseek) v c =
      of_EndsExact (let_go i held) _
        (file_seek_end_lem nentry i target whence stat tryseek held t v c.0 c.1)
  step_safe (held, t) (dups fd1 fd2) v c =
      of_EndsExact held _ (file_dup_lem nentry fd1 fd2 held t v)
  step_safe (held, t) pipes v c =
      let (r, t', e, v', _) = file_pipe_begin_lem nentry held t v in
      ((held, t'), ap (keep held) e, v')
  step_safe (held, t) (pipe_returns i j nodes) v c =
      of_EndsExact held _ (file_pipe_end_lem nentry i j nodes held t v c)
  step_safe (held, t) (fifos flags) v c =
      let (r, t', e, v', _, _, _) = file_mkfifo_begin_lem nentry flags held t v in
      ((held, t'), ap (keep held) e, v')
  step_safe (held, t) (fifo_returns i readonly named node) v c =
      of_EndsExact held _ (file_mkfifo_end_lem nentry i readonly named node held t v c.0 c.1)
  step_safe (held, t) (close_returns i) v c =
      ((held, free_end i t), refl, free_end-IsExact nentry i c.0 held t v c.1 c.2)

  -- A new table is valid, with no call under way.
  pub filemap_init-IsExact : (t : Table) → IsExact nentry (λ i. 0) (filemap_init nentry t)
  unfolding filemap_init is_opened is_init is_unused is_closed
  filemap_init-IsExact t = record {
    counted = λ i h. ground arith;
    freeing = λ i h c z. ground arith;
    idle = λ i h u. refl;
    noded = λ i h o. ground arith;
    numbered = λ i h. ground arith;
  }

  -- The states that the kernel can get to from a new table.
  pub data Reachable : State → Type 0 where
    boots : (t : Table) → Reachable ((λ i. 0), filemap_init nentry t)
    steps :
        (s : State) (ev : Event) {s' : State}
        → Reachable s
        → CanHappen nentry s ev
        → step s ev ≡ some s'
        → Reachable s'

  Reachable-IsExact : (s : State) → Reachable s → IsExact nentry s.0 s.1
  Reachable-IsExact s (boots t) = filemap_init-IsExact t
  Reachable-IsExact s (steps s₀ ev r c e) =
      let (s₁, e₁, v) = step_safe s₀ ev (Reachable-IsExact s₀ r) c in
      let same : s₁ ≡ s = cc in rw (← same) v

  -- In every state that the kernel can get to from a new table, no part of a system call panics,
  -- whatever the virtual file system returned, also while `vfs_close` is at work on slots that are being
  -- freed, and the counts stay exact: an open file is counted once for its descriptor and once for each
  -- call under way, a closed one once for each call under way, the node of a closed one that is not held
  -- was handed to `vfs_close`, and a free slot is not held.
  pub Reachable-safe :
      (s : State) (ev : Event) → Reachable s → CanHappen nentry s ev → StepsExact (step s ev)
  Reachable-safe s ev r c = step_safe s ev (Reachable-IsExact s r) c
