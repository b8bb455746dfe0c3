-- ===== src/File/Safety.antt =====
-- No assertion of kern/fs/file.c fails, in whatever order the halves of the calls run.
use ucorebook_code.Prelude.{
  ℕ, ◌+◌, ◌<◌, ◌≡◌, refl, Bool, true, Option, none, some, is_some, arith, update, Option-cases, inl,
  inr, Bool-cases,
}
use ucorebook_code.Prelude.Int.{ℤ}
use ucorebook_code.Prelude.Errno.{Errno, Result, ok, err, e_inval}
use ucorebook_code.File.{Table, is_opened, is_init, is_unused, is_closed, set_file, close_node}
use ucorebook_code.File.Calls.{
  acc_mode, give_up, finish_open, open_offset, open_at, open_with, file_open_end, file_open_begin,
  file_close, file_read_begin, file_write_begin, query_begin, acquire,
}
use ucorebook_code.File.Invariant.{
  closed_only, is_handed, is_handed-more, IsExact, acquire_lem, close_lem, free_lem, open_lem,
}
use ucorebook_code.File.Slots.{TakesSlot, filemap_alloc_lem, fd2file_cases}

-- A change to what the counts do not depend on.
pub IsExact-same :
    (nentry : ℕ) (held : ℕ → ℕ) (t t' : Table)
    → IsExact nentry held t
    → ((i : ℕ)
        → ((t'.files i).status ≡ (t.files i).status)
          × ((t'.files i).open_count ≡ (t.files i).open_count)
          × ((t'.files i).fd ≡ (t.files i).fd)
          × (is_some (t.files i).node ≡ true → is_some (t'.files i).node ≡ true)
          × (is_closed (t.files i).status ≡ true
              → is_handed (t.files i).node t.closes ≡ true
              → is_handed (t'.files i).node t'.closes ≡ true))
    → IsExact nentry held t'
unfolding is_opened is_init is_unused is_closed
IsExact-same nentry held t t' v same = record {
  counted = λ i h. ground (arith, v.counted i h, same i);
  idle = λ i h u. ground (arith, v.idle i h, same i);
  freeing = λ i h u z. ground (arith, v.freeing i h, same i);
  noded = λ i h u. ground (arith, v.noded i h, same i);
  numbered = λ i h. ground (arith, v.numbered i h, same i);
}

-- The run does not panic, whatever it returns, and leaves a valid table.
abbrev pub EndsExact {ℓ} : {R : Type ℓ} → ℕ → (ℕ → ℕ) → Option (R × Table) → Type ℓ
EndsExact {R} nentry held o = (r : R) × (t : Table) × (o ≡ some (r, t)) × IsExact nentry held t

-- A call that got hold of a file is under way on it.
abbrev pub hold : Result ℕ → (ℕ → ℕ) → ℕ → ℕ
hold (ok i) held = update held i (held i + 1)
hold (err e) held = held

abbrev pub Holds : ℕ → (ℕ → ℕ) → Option (Result ℕ × Table) → Type 0
Holds nentry held o =
    (r : Result ℕ) × (t : Table) × (o ≡ some (r, t)) × IsExact nentry (hold r held) t

module _ (nentry : ℕ) where
  pub give_up_lem :
      (i : ℕ) (e : Errno) (held : ℕ → ℕ) (t : Table)
      → IsExact nentry held t
      → i < nentry
      → is_init (t.files i).status ≡ true
      → EndsExact nentry held (give_up i e t)
  unfolding give_up
  give_up_lem i e held t v h u =
      let (t', e', v') = free_lem nentry i h held t v u in (err e, t', rw e' refl, v')

  pub finish_open_lem :
      (i node : ℕ) (readable writable : Bool) (offset : ℕ) (held : ℕ → ℕ) (t : Table)
      → IsExact nentry held t
      → i < nentry
      → is_init (t.files i).status ≡ true
      → EndsExact nentry held (finish_open i node readable writable offset t)
  unfolding finish_open update
  finish_open_lem i node readable writable offset held t v h u =
      let t₁ =
        set_file i
          (record (t.files i) {
            node = some node;
            readable = readable;
            writable = writable;
            offset = offset;
          })
          t in
      let v₁ : IsExact nentry held t₁ = IsExact-same nentry held t t₁ v (λ j. (
        ground arith,
        ground arith,
        ground arith,
        (λ n. ground arith),
        λ c d. ground (arith, closed_only (t.files j).status),
      )) in
      let (t', e, v') = open_lem nentry i h held t₁ v₁ (ground arith) (ground arith) in
      (ok (t.files i).fd, t', rw e refl, v')

  pub close_node-IsExact :
      (n : Option ℕ) (held : ℕ → ℕ) (t : Table)
      → IsExact nentry held t
      → IsExact nentry held (close_node n t)
  unfolding close_node
  close_node-IsExact none held t v = v
  close_node-IsExact (some n) held t v =
      IsExact-same nentry held t _ v
        (λ j. (refl, refl, refl, (λ k. k), λ c. is_handed-more (t.files j).node (some n) t.closes))

  open_with_lem :
      (i flags : ℕ) (mode : Bool × Bool) (node stat : Result ℕ) (held : ℕ → ℕ) (t : Table)
      → IsExact nentry held t
      → i < nentry
      → is_init (t.files i).status ≡ true
      → EndsExact nentry held (open_with i flags mode node stat t)
  unfolding open_with open_at close_node
  open_with_lem i flags mode (err e) stat held t v h u = give_up_lem i e held t v h u
  open_with_lem i flags mode (ok node) stat held t v h u = at (open_offset flags stat)
    where
      at : (r : Result ℕ) → EndsExact nentry held (open_at i node mode r t)
      at (ok offset) = finish_open_lem i node mode.0 mode.1 offset held t v h u
      at (err e) =
          give_up_lem i e held (close_node (some node) t) (close_node-IsExact (some node) held t v)
            h u

  pub file_open_end_lem :
      (i flags : ℕ) (node stat : Result ℕ) (held : ℕ → ℕ) (t : Table)
      → IsExact nentry held t
      → i < nentry
      → is_init (t.files i).status ≡ true
      → EndsExact nentry held (file_open_end i flags node stat t)
  unfolding file_open_end
  file_open_end_lem i flags node stat held t v h u = elim (Option-cases (acc_mode flags)) [
    | inl e ↦ rw (e, file_open_end) (err e_inval, t, refl, v)
    | inr (mode, e) ↦ rw (e, file_open_end) (open_with_lem i flags mode node stat held t v h u)
  ]

  pub file_open_begin_lem :
      (flags : ℕ) (held : ℕ → ℕ) (t : Table)
      → IsExact nentry held t
      → TakesSlot nentry held t (file_open_begin nentry flags t)
  unfolding file_open_begin
  file_open_begin_lem flags held t v = elim (Option-cases (acc_mode flags)) [
    | inl e ↦ rw (e, file_open_begin) (err e_inval, t, refl, v, tt, tt, λ k _. refl)
    | inr (mode, e) ↦ rw (e, file_open_begin) (filemap_alloc_lem nentry none held t v)
  ]

  pub file_close_lem :
      (fd : ℤ) (held : ℕ → ℕ) (t : Table)
      → IsExact nentry held t
      → EndsExact nentry held (file_close nentry fd t)
  unfolding file_close
  file_close_lem fd held t v = elim (fd2file_cases nentry fd t) [
    | inl e ↦ rw (e, file_close) (err e_inval, t, refl, v)
    | inr (i, e, _, h, o) ↦
        let (t', e', v') = close_lem nentry i h held t v o in
        rw (e, file_close, e') (ok tt, t', refl, v')
  ]

  acquire-Holds :
      (i : ℕ) (held : ℕ → ℕ) (t : Table)
      → IsExact nentry held t
      → i < nentry
      → is_opened (t.files i).status ≡ true
      → Holds nentry held (acquire nentry i t)
  unfolding acquire
  acquire-Holds i held t v h o =
      let (t', e, v') = acquire_lem nentry i h held t v o in rw e (ok i, t', refl, v')

  pub query_begin-Holds :
      (fd : ℤ) (held : ℕ → ℕ) (t : Table)
      → IsExact nentry held t
      → Holds nentry held (query_begin nentry fd t)
  unfolding query_begin
  query_begin-Holds fd held t v = elim (fd2file_cases nentry fd t) [
    | inl e ↦ rw (e, query_begin) (err e_inval, t, refl, v)
    | inr (i, e, _, h, o) ↦ rw (e, query_begin) (acquire-Holds i held t v h o)
  ]

  pub file_read_begin-Holds :
      (fd : ℤ) (held : ℕ → ℕ) (t : Table)
      → IsExact nentry held t
      → Holds nentry held (file_read_begin nentry fd t)
  unfolding file_read_begin
  file_read_begin-Holds fd held t v = elim (fd2file_cases nentry fd t) [
    | inl e ↦ rw (e, file_read_begin) (err e_inval, t, refl, v)
    | inr (i, e, _, h, o) ↦ elim (Bool-cases (t.files i).readable) [
      | inl r ↦ rw (e, file_read_begin) (rw r (acquire-Holds i held t v h o))
      | inr r ↦ rw (e, file_read_begin) (rw r (err e_inval, t, refl, v))
    ]
  ]

  pub file_write_begin-Holds :
      (fd : ℤ) (held : ℕ → ℕ) (t : Table)
      → IsExact nentry held t
      → Holds nentry held (file_write_begin nentry fd t)
  unfolding file_write_begin
  file_write_begin-Holds fd held t v = elim (fd2file_cases nentry fd t) [
    | inl e ↦ rw (e, file_write_begin) (err e_inval, t, refl, v)
    | inr (i, e, _, h, o) ↦ elim (Bool-cases (t.files i).writable) [
      | inl r ↦ rw (e, file_write_begin) (rw r (acquire-Holds i held t v h o))
      | inr r ↦ rw (e, file_write_begin) (rw r (err e_inval, t, refl, v))
    ]
  ]
