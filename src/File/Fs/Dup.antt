-- ===== src/File/Fs/Dup.antt =====
-- Copying the files of a process, at fork.
use ucorebook_code.Prelude.{
  ℕ, zero, suc, ◌+◌, ◌≤◌, ◌<◌, ◌≡◌, ◌≢◌, refl, true, false, ltb, Option, none, some,
  some_of_ne_none, arith, update, ℕ_discrete,
}
use ucorebook_code.File.{File, Table, is_opened, is_closed, is_init, is_unused, dup_file}
use ucorebook_code.File.Fs.Valid.{IsValid}
use ucorebook_code.File.Fs.{Fs, dup_if_open, dup_from, dup_fs, share_pwd}

-- The copy of an open file, at the same node, position and mode; and a free slot for any other.
pub record IsCopy (f g : File) : Type 0 where
  pub status : is_opened g.status ≡ is_opened f.status
  pub free : is_opened f.status ≡ false → is_unused g.status ≡ true
  pub node : is_opened f.status ≡ true → g.node ≡ f.node
  pub offset : is_opened f.status ≡ true → g.offset ≡ f.offset
  pub readable : is_opened f.status ≡ true → g.readable ≡ f.readable
  pub writable : is_opened f.status ≡ true → g.writable ≡ f.writable

-- Slot `i` of the new table is a copy, and the others are as they were.
abbrev CopiesSlot : ℕ → ℕ → Table → Table → Option Table → Type 0
CopiesSlot nentry i from to o =
    (to' : Table) × (o ≡ some to')
    × IsValid nentry (λ k. 0) to'
    × IsCopy (from.files i) (to'.files i)
    × ((k : ℕ) → k ≢ i → to'.files k ≡ to.files k)

share_pwd-pwd : (d : Option ℕ) (to : Fs) → (share_pwd d to).pwd ≡ d
unfolding share_pwd
share_pwd-pwd none to = refl
share_pwd-pwd (some d) to = refl

module _ (nentry : ℕ) where
  dup_if_open-ne-none :
      (i : ℕ) (from to : Table) (held : ℕ → ℕ)
      → i < nentry
      → IsValid nentry held from
      → IsValid nentry (λ k. 0) to
      → is_unused (to.files i).status ≡ true
      → dup_if_open i from to ≢ none
  unfolding dup_if_open dup_file update is_unused is_opened is_init
  dup_if_open-ne-none i from to held h vf v u e = ground (arith, vf.noded i h)

  dup_if_open-IsValid :
      (i : ℕ) (from to : Table) (held : ℕ → ℕ) {to' : Table}
      → i < nentry
      → IsValid nentry held from
      → IsValid nentry (λ k. 0) to
      → is_unused (to.files i).status ≡ true
      → dup_if_open i from to ≡ some to'
      → IsValid nentry (λ k. 0) to'
  unfolding dup_if_open dup_file update is_unused is_opened is_init is_closed
  dup_if_open-IsValid i from to held h vf v u e = record {
    counted = λ j l. ground (arith, v.counted j l);
    idle = λ j l w. refl;
    closing = λ j l w. ground (arith, v.closing j l);
    noded = λ j l w. ground (arith, v.noded j l, vf.noded i h);
    numbered = λ j l. ground (arith, v.numbered j l);
  }

  dup_if_open-IsCopy :
      (i : ℕ) (from to : Table) {to' : Table}
      → is_unused (to.files i).status ≡ true
      → dup_if_open i from to ≡ some to'
      → IsCopy (from.files i) (to'.files i)
  unfolding dup_if_open dup_file update is_opened is_unused is_init
  dup_if_open-IsCopy i from to u e = record {
    status = ground arith;
    free = λ o. ground arith;
    node = λ o. ground arith;
    offset = λ o. ground arith;
    readable = λ o. ground arith;
    writable = λ o. ground arith;
  }

  dup_if_open-other :
      (i : ℕ) (from to : Table) {to' : Table} (k : ℕ)
      → k ≢ i
      → dup_if_open i from to ≡ some to'
      → to'.files k ≡ to.files k
  unfolding dup_if_open dup_file update
  dup_if_open-other i from to k ne e = ground arith

  dup_if_open-CopiesSlot :
      (i : ℕ) (from to : Table) (held : ℕ → ℕ)
      → i < nentry
      → IsValid nentry held from
      → IsValid nentry (λ k. 0) to
      → is_unused (to.files i).status ≡ true
      → CopiesSlot nentry i from to (dup_if_open i from to)
  dup_if_open-CopiesSlot i from to held h vf v u =
      let (to', e) =
        some_of_ne_none (dup_if_open i from to) (dup_if_open-ne-none i from to held h vf v u) in
      (
        to',
        e,
        dup_if_open-IsValid i from to held h vf v u e,
        dup_if_open-IsCopy i from to u e,
        λ k ne. dup_if_open-other i from to k ne e,
      )

  -- The slots from `lo` on, below `hi`, are copies, and those below `lo` as they were.
  abbrev CopiesAll : ℕ → ℕ → Table → Table → Option Table → Type 0
  CopiesAll lo hi from to o =
      (to' : Table) × (o ≡ some to')
      × IsValid nentry (λ k. 0) to'
      × ((k : ℕ) → lo ≤ k → k < hi → IsCopy (from.files k) (to'.files k))
      × ((k : ℕ) → k < lo → to'.files k ≡ to.files k)

  dup_from-CopiesAll :
      (n i : ℕ) (from to : Table) (held : ℕ → ℕ)
      → i + n ≤ nentry
      → IsValid nentry held from
      → IsValid nentry (λ k. 0) to
      → ((k : ℕ) → i ≤ k → k < i + n → is_unused (to.files k).status ≡ true)
      → CopiesAll i (i + n) from to (dup_from n i from to)
  unfolding dup_from
  dup_from-CopiesAll zero i from to held h vf v free =
      (to, refl, v, λ k l l'. absurd (omega arith), λ k l. refl)
  dup_from-CopiesAll (suc n) i from to held h vf v free =
      let (t₁, e₁, v₁, copy, same) =
        dup_if_open-CopiesSlot i from to held (omega arith) vf v
          (free i (omega arith) (omega arith)) in
      let (t₂, e₂, v₂, all, keep) =
        dup_from-CopiesAll n (i + 1) from t₁ held (omega arith) vf v₁
          (λ k l l'. rw (same k (omega arith)) (free k (omega arith) (omega arith))) in
      (
        t₂,
        rw (e₁, e₂) refl,
        v₂,
        λ k l l'. elim (ℕ_discrete k i) [
          | yes here ↦
              let below : t₂.files k ≡ t₁.files k = keep k (omega arith) in rw (below, here) copy
          | no ne ↦ all k (omega arith) (omega arith)
        ],
        λ k l.
            let first : t₁.files k ≡ to.files k = same k (omega arith) in
            rw (keep k (omega arith), first) refl,
      )

  -- At fork `dup_fs` from a valid table into a valid table of free slots does not panic: the copy has
  -- the same working directory, each open file at the same descriptor, node, position and mode, and
  -- a free slot for each other descriptor, and is valid with no call under way.
  pub dup_fs_total :
      (to from : Fs) (held : ℕ → ℕ)
      → to.fs_count ≡ 0
      → 0 < from.fs_count
      → IsValid nentry held from.filemap
      → IsValid nentry (λ k. 0) to.filemap
      → ((k : ℕ) → k < nentry → is_unused (to.filemap.files k).status ≡ true)
      → (to' : Fs) × (dup_fs nentry to from ≡ some to')
        × IsValid nentry (λ k. 0) to'.filemap
        × (to'.pwd ≡ from.pwd)
        × ((k : ℕ) → k < nentry → IsCopy (from.filemap.files k) (to'.filemap.files k))
  unfolding dup_fs share_pwd
  dup_fs_total to from held c c' vf v free =
      let (t, e, v', all, keep) =
        dup_from-CopiesAll nentry 0 from.filemap to.filemap held (omega arith) vf v
          (λ k l l'. free k (omega arith)) in
      let ready : ltb 0 from.fs_count ≡ true = ground arith in
      (
        record (share_pwd from.pwd to) { filemap = t },
        rw (c, ready, e) refl,
        v',
        share_pwd-pwd from.pwd to,
        λ k l. all k (omega arith) (omega arith),
      )
