-- ===== src/Pipe/Write.antt =====
-- Writing appends bytes to the queue that a pipe holds.
use mathlib.Core.List.{append-nil, append_assoc}
use ucorebook_code.Prelude.{
  ℕ, suc, ◌+◌, ◌-◌, ◌%◌, ◌≤◌, ◌<◌, ◌≡◌, ◌≢◌, List, [], ◌∷◌, ◌++◌, arith, update, length, take, drop,
  leb, true, false, Bool-cases, inl, inr, ◌↔◌,
}
use ucorebook_code.Pipe.{
  Pipe, Outcome, returned, blocked, u32_mod, write_loop, write_end, write_pass,
}
use ucorebook_code.Pipe.Window.{window-update, IsValid, contents, take_nil, drop_nil}

module _ (bufsize : ℕ) where
  -- What the writing loop has done: it has appended what fits.
  record IsWritten (src : List ℕ) (p : Pipe) (out : List ℕ × Pipe) : Type 0 where
    valid : IsValid bufsize out.1
    left : out.0 ≡ drop (bufsize - (p.p_wpos - p.p_rpos)) src
    appended :
        contents bufsize out.1 ≡ contents bufsize p ++ take (bufsize - (p.p_wpos - p.p_rpos)) src
    far : out.1.p_wpos ≤ p.p_wpos + length src
    same_closed : out.1.isclosed ≡ p.isclosed
    same_ref : out.1.ref_count ≡ p.ref_count

  -- The ring after one more byte.
  put : ℕ → Pipe → Pipe
  put x p = record p {
    buf = update p.buf (p.p_wpos % bufsize) x;
    p_wpos = (p.p_wpos + 1) % u32_mod;
  }

  contents-put :
      (x : ℕ) (p : Pipe)
      → IsValid bufsize p
      → p.p_wpos - p.p_rpos < bufsize
      → p.p_wpos + 1 < u32_mod
      → contents bufsize (put x p) ≡ contents bufsize p ++ (x ∷ [])
  unfolding put
  contents-put x p v room h =
      let e : (p.p_wpos + 1) % u32_mod - p.p_rpos ≡ suc (p.p_wpos - p.p_rpos) = omega arith in
      rw e (window-update bufsize p.buf x p.p_rpos _ p.p_wpos (omega arith) room)

  write_loop-IsWritten :
      (src : List ℕ) (p : Pipe)
      → IsValid bufsize p
      → p.p_wpos + length src < u32_mod
      → IsWritten src p (write_loop bufsize src p)
  unfolding write_loop put
  write_loop-IsWritten [] p v h = ground (
    arith,
    take_nil (bufsize - (p.p_wpos - p.p_rpos)),
    drop_nil (bufsize - (p.p_wpos - p.p_rpos)),
    append-nil (contents bufsize p),
  )
  write_loop-IsWritten (x ∷ xs) p v h = elim (Bool-cases (leb bufsize (p.p_wpos - p.p_rpos))) [
    | inl e ↦
        let z : bufsize - (p.p_wpos - p.p_rpos) ≡ 0 = ground arith in
        ground (arith, z, append-nil (contents bufsize p))
    | inr e ↦
        let z : bufsize - (p.p_wpos - p.p_rpos) ≡ suc (bufsize - (p.p_wpos + 1 - p.p_rpos)) =
          ground arith in
        ground (
          arith,
          z,
          contents-put x p v,
          write_loop-IsWritten xs (put x p),
          append_assoc (contents bufsize p) (x ∷ [])
              (take (bufsize - (p.p_wpos + 1 - p.p_rpos)) xs),
        )
  ]

  -- What a writing pass does on an open pipe. It appends what fits, gives back the rest, and has to
  -- wait exactly if there is a rest.
  pub record WritesBack (src : List ℕ) (p : Pipe) (out : Outcome × List ℕ × Pipe) : Type 0 where
    pub valid : IsValid bufsize out.2
    pub left : out.1 ≡ drop (bufsize - (p.p_wpos - p.p_rpos)) src
    pub appended :
        contents bufsize out.2 ≡ contents bufsize p ++ take (bufsize - (p.p_wpos - p.p_rpos)) src
    pub waits : (out.0 ≡ blocked) ↔ (out.1 ≢ [])
    pub far : out.2.p_wpos ≤ p.p_wpos + length src
    pub same_closed : out.2.isclosed ≡ p.isclosed
    pub same_ref : out.2.ref_count ≡ p.ref_count

  write_end-WritesBack :
      (src : List ℕ) (p : Pipe) (out : List ℕ × Pipe)
      → IsWritten src p out
      → WritesBack src p (write_end bufsize src out)
  unfolding write_end
  write_end-WritesBack [] p ([], q) w = ground (arith, w)
  write_end-WritesBack (y ∷ src) p ([], q) w = ground (arith, w)
  write_end-WritesBack src p (x ∷ xs, q) w = ground (arith, w)

  -- A writing pass on a valid and open pipe, whose writing position and the bytes to write together
  -- stay below 2 ^ 32, appends exactly the bytes that fit and blocks exactly when some are left.
  pub write_pass-WritesBack :
      (src : List ℕ) (p : Pipe)
      → IsValid bufsize p
      → p.isclosed ≡ false
      → p.p_wpos + length src < u32_mod
      → WritesBack src p (write_pass bufsize src p)
  unfolding write_pass
  write_pass-WritesBack src p v open_pipe h =
      simp open_pipe
        (write_end-WritesBack src p (write_loop bufsize src p) (write_loop-IsWritten src p v h))

  -- A writing pass on a closed pipe does nothing.
  pub write_pass_closed :
      (src : List ℕ) (p : Pipe) → p.isclosed ≡ true → write_pass bufsize src p ≡ (returned, src, p)
  unfolding write_pass
  write_pass_closed src p e = simp e
