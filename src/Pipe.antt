-- ===== src/Pipe.antt =====
-- kern/fs/pipe/pipe_state.c: the byte ring behind a pipe. `bufsize` is PIPE_BUFSIZE. A call holds
-- the pipe's semaphore from `lock_state` to `unlock_state`, so one pass between them is one step;
-- a pass that has to wait ends as `blocked`, and the call goes on with its next pass when it is
-- woken. The positions are 32-bit and wrap. The reader's and the writer's queue stand as the
-- number of processes that sleep in them.
pub mod Window
pub mod Read
pub mod Write
pub mod History
use ucorebook_code.Prelude.{
  ℕ, zero, suc, ◌+◌, ◌-◌, ◌%◌, ◌^◌, Bool, true, false, not, ◌==◌, ltb, leb, if◌then◌else◌, List, [],
  ◌∷◌, Option, none, some, assert, ◌>>=◌, ◌>>◌, update,
}

pub record Pipe : Type 0 where
  pub p_rpos : ℕ
  pub p_wpos : ℕ
  pub buf : ℕ → ℕ
  pub isclosed : Bool
  pub ref_count : ℕ
  pub readers : ℕ
  pub writers : ℕ

-- What a pass ends in.
pub data Outcome : Type 0 where
  returned blocked : Outcome

abbrev pub u32_mod : ℕ
u32_mod = 2 ^ 32

-- `state->p_wpos - state->p_rpos`, as `size_t`
abbrev pub size : Pipe → ℕ
size p = (p.p_wpos + u32_mod - p.p_rpos) % u32_mod

-- The buffer as `kmalloc` gives it.
unfoldable pub pipe_state_create : (ℕ → ℕ) → Pipe
pipe_state_create buf = record {
  p_rpos = 0;
  p_wpos = 0;
  buf = buf;
  isclosed = false;
  ref_count = 1;
  readers = 0;
  writers = 0;
}

unfoldable pub is_empty : Pipe → Bool
is_empty p = p.p_rpos == p.p_wpos

-- `pipe_state_wakeup` wakes all that sleep in the queue.
unfoldable pub wakeup_reader : Pipe → Pipe
wakeup_reader p = record p { readers = 0 }

unfoldable pub wakeup_writer : Pipe → Pipe
wakeup_writer p = record p { writers = 0 }

unfoldable pub pipe_state_acquire : Pipe → Option Pipe
pipe_state_acquire p = do
  assert (ltb 0 p.ref_count)
  some (record p { ref_count = p.ref_count + 1 })

-- The inner option is `none` where the pipe is freed.
unfoldable pub pipe_state_release : Pipe → Option (Option Pipe)
pipe_state_release p =
    let p' = record p { ref_count = p.ref_count - 1 } in
    let freed : Option (Option Pipe) = (do
      assert (p.readers == 0)
      assert (p.writers == 0)
      some none) in
    do assert (ltb 0 p.ref_count); if p'.ref_count == 0 then freed else some (some p')

unfoldable pub pipe_state_close : Pipe → Option Pipe
unfolding wakeup_reader wakeup_writer
pipe_state_close p = do
  assert (ltb 0 p.ref_count)
  some (wakeup_writer (wakeup_reader (record p { isclosed = true })))

module _ (bufsize : ℕ) where
  unfoldable pub is_full : Pipe → Bool
  is_full p = leb bufsize (size p)

  unfoldable pub pipe_state_size : Pipe → Bool → ℕ
  pipe_state_size p write =
      if write then if p.isclosed then 0 else (bufsize + u32_mod - size p) % u32_mod else size p

  -- The `for` of `pipe_state_read`: the bytes that are read.
  unfoldable pub read_loop : ℕ → Pipe → List ℕ × Pipe
  unfolding is_empty
  read_loop zero p = ([], p)
  read_loop (suc n) p =
      let rest = read_loop n (record p { p_rpos = (p.p_rpos + 1) % u32_mod }) in
      if is_empty p then ([], p) else (p.buf (p.p_rpos % bufsize) ∷ rest.0, rest.1)

  -- One pass of `pipe_state_read` with `n` bytes to go, and the bytes that it returns.
  unfoldable pub read_pass : ℕ → Pipe → Outcome × List ℕ × Pipe
  unfolding is_empty read_loop wakeup_writer
  read_pass n p =
      let wait = record p { readers = p.readers + 1 } in
      let out = read_loop n p in
      if is_empty p
      then if p.isclosed then (returned, [], p) else (blocked, [], wait)
      else (returned, out.0, elim out.0 [ [] ↦ out.1 | _ ∷ _ ↦ wakeup_writer out.1 ])

  -- The `for` of `pipe_state_write`: the bytes that are left.
  unfoldable pub write_loop : List ℕ → Pipe → List ℕ × Pipe
  unfolding is_full update
  write_loop [] p = ([], p)
  write_loop (x ∷ xs) p =
      let p' = record p {
        buf = update p.buf (p.p_wpos % bufsize) x;
        p_wpos = (p.p_wpos + 1) % u32_mod;
      } in
      let rest = write_loop xs p' in if is_full p then (x ∷ xs, p) else rest

  -- `step != 0` where the loop has come to its end.
  unfoldable pub wake_after : List ℕ → Pipe → Pipe
  unfolding wakeup_reader
  wake_after [] p = p
  wake_after (x ∷ xs) p = wakeup_reader p

  -- The loop's end, or a full ring.
  unfoldable pub write_end : List ℕ → List ℕ × Pipe → Outcome × List ℕ × Pipe
  unfolding wake_after wakeup_reader
  write_end src ([], p) = (returned, [], wake_after src p)
  write_end src (x ∷ xs, p) =
      let q = wakeup_reader p in (blocked, x ∷ xs, record q { writers = q.writers + 1 })

  -- One pass of `pipe_state_write` with `src` to go, and the bytes that are left.
  unfoldable pub write_pass : List ℕ → Pipe → Outcome × List ℕ × Pipe
  write_pass src p = if p.isclosed then (returned, src, p) else write_end src (write_loop src p)
