-- ===== src/File/Ends.antt =====
-- The calls that let go of a file, and those that open a fifo.
use ucorebook_code.Prelude.{
  ℕ, ◌-◌, ◌<◌, ◌≡◌, refl, Bool, true, false, not, none, arith, update, Option-cases, inl, inr,
}
use ucorebook_code.Prelude.Errno.{Result, ok, err, e_inval, e_no_mem}
use ucorebook_code.File.{Table, is_init}
use ucorebook_code.File.Calls.{
  finish_transfer, seek_target, seek_to, file_seek_end, finish_query, file_mkfifo_end, fifo_mode,
  file_mkfifo_begin,
}
use ucorebook_code.File.Invariant.{closed_only, IsExact, KeepsExact, release_lem}
use ucorebook_code.File.Slots.{TakesSlot, filemap_alloc_lem}
use ucorebook_code.File.Safety.{IsExact-same, EndsExact, give_up_lem, finish_open_lem}

-- One call fewer is under way on the file.
abbrev pub let_go : ℕ → (ℕ → ℕ) → ℕ → ℕ
let_go i held = update held i (held i - 1)

module _ (nentry : ℕ) where
  pub finish_transfer_lem :
      (i copied : ℕ) (held : ℕ → ℕ) (t : Table)
      → IsExact nentry held t
      → i < nentry
      → 0 < held i
      → KeepsExact nentry (let_go i held) (finish_transfer i copied t)
  unfolding finish_transfer update
  finish_transfer_lem i copied held t v h g =
      release_lem nentry i h held _
        (IsExact-same nentry held t _ v (λ j. (
          ground arith,
          ground arith,
          ground arith,
          (λ n. ground arith),
          λ c d. ground (arith, closed_only (t.files j).status),
        )))
        g

  pub finish_query_lem :
      (i : ℕ) (held : ℕ → ℕ) (t : Table)
      → IsExact nentry held t
      → i < nentry
      → 0 < held i
      → KeepsExact nentry (let_go i held) (finish_query i t)
  unfolding finish_query
  finish_query_lem i held t v h g = release_lem nentry i h held t v g

  seek_to-IsExact :
      (i : ℕ) (target : Result ℕ) (tryseek : ℕ → Result (Unit {0})) (held : ℕ → ℕ) (t : Table)
      → IsExact nentry held t
      → IsExact nentry held (seek_to i target tryseek t).1
  unfolding seek_to update
  seek_to-IsExact i (err e) tryseek held t v = v
  seek_to-IsExact i (ok target) tryseek held t v = at (tryseek target) refl
    where
      at :
          (r : Result (Unit {0}))
          → tryseek target ≡ r
          → IsExact nentry held (seek_to i (ok target) tryseek t).1
      at (err e) q = rw (q, seek_to) v
      at (ok u) q =
          rw (q, seek_to)
            (IsExact-same nentry held t _ v (λ j. (
              ground arith,
              ground arith,
              ground arith,
              (λ n. ground arith),
              λ c d. ground (arith, closed_only (t.files j).status),
            )))

  pub file_seek_end_lem :
      (i target whence : ℕ) (stat : Result ℕ) (tryseek : ℕ → Result (Unit {0})) (held : ℕ → ℕ)
      (t : Table)
      → IsExact nentry held t
      → i < nentry
      → 0 < held i
      → EndsExact nentry (let_go i held) (file_seek_end i target whence stat tryseek t)
  unfolding file_seek_end
  file_seek_end_lem i target whence stat tryseek held t v h g =
      let out = seek_to i (seek_target (t.files i).offset target whence stat) tryseek t in
      let (t', e, v') =
        release_lem nentry i h held out.1 (seek_to-IsExact i _ tryseek held t v) g in
      (out.0, t', rw e refl, v')

  pub file_mkfifo_begin_lem :
      (flags : ℕ) (held : ℕ → ℕ) (t : Table)
      → IsExact nentry held t
      → TakesSlot nentry held t (file_mkfifo_begin nentry flags t)
  unfolding file_mkfifo_begin
  file_mkfifo_begin_lem flags held t v = elim (Option-cases (fifo_mode flags)) [
    | inl e ↦ rw (e, file_mkfifo_begin) (err e_inval, t, refl, v, tt, tt, λ k _. refl)
    | inr (mode, e) ↦ rw (e, file_mkfifo_begin) (filemap_alloc_lem nentry none held t v)
  ]

  pub file_mkfifo_end_lem :
      (i : ℕ) (readonly named : Bool) (node : Result ℕ) (held : ℕ → ℕ) (t : Table)
      → IsExact nentry held t
      → i < nentry
      → is_init (t.files i).status ≡ true
      → EndsExact nentry held (file_mkfifo_end i readonly named node t)
  unfolding file_mkfifo_end
  file_mkfifo_end_lem i readonly named (err e) held t v h u = give_up_lem nentry i _ held t v h u
  file_mkfifo_end_lem i readonly true (ok node) held t v h u =
      finish_open_lem nentry i node readonly (not readonly) 0 held t v h u
  file_mkfifo_end_lem i readonly false (ok node) held t v h u =
      give_up_lem nentry i e_no_mem held t v h u
