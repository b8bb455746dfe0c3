-- ===== src/File/Pairs.antt =====
-- The calls that use two slots: copying a descriptor, and opening a pipe.
use ucorebook_code.Prelude.{
  ℕ, ◌<◌, ◌≡◌, ◌≢◌, refl, Bool, true, false, Option, none, some, is_some, arith, update, ap, ◌∙◌,
  inl, inr,
}
use ucorebook_code.Prelude.Int.{ℤ}
use ucorebook_code.Prelude.Errno.{Result, ok, err, e_inval}
use ucorebook_code.File.{
  Status, Table, is_opened, is_init, is_unused, set_file, filemap_open, filemap_free, filemap_dup,
  ref_node,
}
use ucorebook_code.File.Calls.{
  finish_open, file_pipe_end, file_dup, file_pipe_begin, dup_into, second_slot, both_slots,
}
use ucorebook_code.File.Invariant.{closed_only, IsExact, KeepsExact, free_lem, open_lem}
use ucorebook_code.File.Slots.{IsTaken, KeepsUsed, WasUnused, filemap_alloc_lem, fd2file_cases}
use ucorebook_code.File.Safety.{IsExact-same, EndsExact, finish_open_lem}

opened_used : (s : Status) → is_opened s ≡ true → is_unused s ≡ false
unfolding is_opened is_unused
opened_used s h = ground arith

module _ (nentry : ℕ) where
  -- A copy: the slot that was taken is another than that of the open file.
  filemap_dup_lem :
      (to from : ℕ) (held : ℕ → ℕ) (t : Table)
      → IsExact nentry held t
      → to < nentry
      → is_init (t.files to).status ≡ true
      → is_opened (t.files from).status ≡ true
      → is_some (t.files from).node ≡ true
      → KeepsExact nentry held (filemap_dup to from t)
  unfolding filemap_dup update
  filemap_dup_lem to from held t v h u o n =
      let f = t.files from in
      let g' = record (t.files to) {
        offset = f.offset;
        readable = f.readable;
        writable = f.writable;
        node = f.node;
      } in
      let t₁ = set_file to g' (ref_node f.node t) in
      let v₁ : IsExact nentry held t₁ = IsExact-same nentry held t t₁ v (λ j. (
        ground arith,
        ground arith,
        ground arith,
        (λ k. ground arith),
        λ c d. ground (arith, closed_only (t.files j).status),
      )) in
      let (t', e, v') = open_lem nentry to h held t₁ v₁ (ground arith) (ground arith) in
      (t', rw (u, o) e, v')

  dup_into_lem :
      (from : ℕ) (held : ℕ → ℕ) (t₀ t : Table) (r : Result ℕ)
      → IsExact nentry held t₀
      → IsExact nentry held t
      → IsTaken nentry r t
      → KeepsUsed t₀ t
      → from < nentry
      → is_opened (t₀.files from).status ≡ true
      → EndsExact nentry held (dup_into nentry from (r, t))
  unfolding dup_into
  dup_into_lem from held t₀ t (err e) v₀ v taken keeps h o = (err e, t, refl, v)
  dup_into_lem from held t₀ t (ok to) v₀ v taken keeps h o =
      let same = keeps from (opened_used (t₀.files from).status o) in
      let (t', e, v') =
        filemap_dup_lem to from held t v taken.0 taken.1 (rw same o)
          (rw same (v₀.noded from h o)) in
      (ok (t'.files to).fd, t', rw e refl, v')

  pub file_dup_lem :
      (fd1 : ℤ) (fd2 : Option ℤ) (held : ℕ → ℕ) (t : Table)
      → IsExact nentry held t
      → EndsExact nentry held (file_dup nentry fd1 fd2 t)
  unfolding file_dup
  file_dup_lem fd1 fd2 held t v = elim (fd2file_cases nentry fd1 t) [
    | inl e ↦ rw (e, file_dup) (err e_inval, t, refl, v)
    | inr (from, e, _, h, o) ↦
        let (r, t', e', v', taken, was, keeps) = filemap_alloc_lem nentry fd2 held t v in
        rw (e, file_dup, e') (dup_into_lem from held t t' r v v' taken keeps h o)
  ]

  -- Both slots are being opened, and they are two.
  abbrev pub AreTaken : Result (ℕ × ℕ) → Table → Type 0
  AreTaken (err e) t = Unit {0}
  AreTaken (ok (i, j)) t =
      (i < nentry)
      × (j < nentry)
      × (i ≢ j)
      × (is_init (t.files i).status ≡ true)
      × (is_init (t.files j).status ≡ true)

  abbrev pub TakesTwo : (ℕ → ℕ) → Option (Result (ℕ × ℕ) × Table) → Type 0
  TakesTwo held o =
      (r : Result (ℕ × ℕ)) × (t' : Table) × (o ≡ some (r, t'))
      × IsExact nentry held t'
      × AreTaken r t'

  second_slot_lem :
      (i : ℕ) (held : ℕ → ℕ) (t₀ t : Table) (r : Result ℕ)
      → IsExact nentry held t
      → IsTaken nentry r t
      → WasUnused r t₀
      → KeepsUsed t₀ t
      → i < nentry
      → is_init (t₀.files i).status ≡ true
      → TakesTwo held (second_slot nentry i (r, t))
  unfolding second_slot is_init is_unused
  second_slot_lem i held t₀ t (err e) v taken was keeps h u =
      let same = keeps i (ground arith) in
      let (t', e', v') = free_lem nentry i h held t v (rw same u) in (err e, t', rw e' refl, v', tt)
  second_slot_lem i held t₀ t (ok j) v taken was keeps h u =
      let same = keeps i (ground arith) in
      (ok (i, j), t, refl, v, (h, taken.0, (λ e. ground arith), rw same u, taken.1))

  both_slots_lem :
      (held : ℕ → ℕ) (t : Table) (r : Result ℕ)
      → IsExact nentry held t
      → IsTaken nentry r t
      → TakesTwo held (both_slots nentry (r, t))
  unfolding both_slots
  both_slots_lem held t (err e) v taken = (err e, t, refl, v, tt)
  both_slots_lem held t (ok i) v taken =
      let (r, t', e, v', taken', was, keeps) = filemap_alloc_lem nentry none held t v in
      rw e (second_slot_lem i held t t' r v' taken' was keeps taken.0 taken.1)

  pub file_pipe_begin_lem :
      (held : ℕ → ℕ) (t : Table) → IsExact nentry held t → TakesTwo held (file_pipe_begin nentry t)
  unfolding file_pipe_begin
  file_pipe_begin_lem held t v =
      let (r, t', e, v', taken, was, keeps) = filemap_alloc_lem nentry none held t v in
      rw e (both_slots_lem held t' r v' taken)

  free_others :
      (i j : ℕ) (t : Table) {t' : Table}
      → i ≢ j
      → filemap_free i t ≡ some t'
      → (t'.files j).status ≡ (t.files j).status
  unfolding filemap_free update
  free_others i j t ne e = ground arith

  finish_others :
      (i node : ℕ) (readable writable : Bool) (offset j : ℕ) (t : Table) {r : Result ℕ} {t' : Table}
      → i ≢ j
      → finish_open i node readable writable offset t ≡ some (r, t')
      → (t'.files j).status ≡ (t.files j).status
  unfolding finish_open filemap_open update
  finish_others i node readable writable offset j t ne e = ground arith

  pub file_pipe_end_lem :
      (i j : ℕ) (nodes : Result (ℕ × ℕ)) (held : ℕ → ℕ) (t : Table)
      → IsExact nentry held t
      → AreTaken (ok (i, j)) t
      → EndsExact nentry held (file_pipe_end i j nodes t)
  unfolding file_pipe_end
  file_pipe_end_lem i j (err e) held t v (hi, hj, ne, ui, uj) =
      let (t₁, e₁, v₁) = free_lem nentry i hi held t v ui in
      let uj' = ap is_init (free_others i j t ne e₁) ∙ uj in
      let (t₂, e₂, v₂) = free_lem nentry j hj held t₁ v₁ uj' in (err e, t₂, rw (e₁, e₂) refl, v₂)
  file_pipe_end_lem i j (ok (n, m)) held t v (hi, hj, ne, ui, uj) =
      let (r₁, t₁, e₁, v₁) = finish_open_lem nentry i n true false 0 held t v hi ui in
      let uj' = ap is_init (finish_others i n true false 0 j t ne e₁) ∙ uj in
      let (r₂, t₂, e₂, v₂) = finish_open_lem nentry j m false true 0 held t₁ v₁ hj uj' in
      (ok ((t.files i).fd, (t.files j).fd), t₂, rw (e₁, e₂) refl, v₂)
