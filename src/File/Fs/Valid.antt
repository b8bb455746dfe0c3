-- ===== src/File/Fs/Valid.antt =====
-- kern/fs/file.c: the counts of a file table in which no `vfs_close` is under way, and that closing a
-- file keeps them.
use ucorebook_code.Prelude.{
  ℕ, ◌+◌, ◌<◌, ◌≡◌, ◌≢◌, true, ◌||◌, if◌then◌else◌, Option, none, some, is_some, arith, update,
  some_of_ne_none,
}
use ucorebook_code.File.{Table, is_opened, is_closed, is_init, is_unused, filemap_close}

-- `held i` is the number of calls that are under way on the file in slot `i`. An open file is counted
-- once for its descriptor and once for each such call; a closed one stays only while it is held; a
-- free slot and one that is being opened are not held. An open file has a node.
pub record IsValid (nentry : ℕ) (held : ℕ → ℕ) (t : Table) : Type 0 where
  pub counted :
      (i : ℕ)
      → i < nentry
      → (t.files i).open_count ≡ (if is_opened (t.files i).status then 1 else 0) + held i
  pub idle :
      (i : ℕ)
      → i < nentry
      → is_unused (t.files i).status || is_init (t.files i).status ≡ true
      → held i ≡ 0
  pub closing : (i : ℕ) → i < nentry → is_closed (t.files i).status ≡ true → 0 < held i
  pub noded :
      (i : ℕ) → i < nentry → is_opened (t.files i).status ≡ true → is_some (t.files i).node ≡ true
  pub numbered : (i : ℕ) → i < nentry → (t.files i).fd ≡ i

-- The run does not panic and leaves a valid table.
abbrev pub KeepsValid : ℕ → (ℕ → ℕ) → Option Table → Type 0
KeepsValid nentry held o = (t : Table) × (o ≡ some t) × IsValid nentry held t

module _ (nentry i : ℕ) (in_table : i < nentry) where
  close-IsValid :
      (held : ℕ → ℕ) (t : Table) {t' : Table}
      → IsValid nentry held t
      → is_opened (t.files i).status ≡ true
      → filemap_close i t ≡ some t'
      → IsValid nentry held t'
  unfolding filemap_close update is_unused is_init is_closed is_opened
  close-IsValid held t v o e = record {
    counted = λ j h. ground (arith, v.counted j h, v.counted i in_table, v.idle i in_table);
    idle = λ j h u. ground (arith, v.idle j h, v.counted i in_table, v.idle i in_table);
    closing = λ j h u. ground (arith, v.closing j h, v.counted i in_table, v.idle i in_table);
    noded = λ j h u. ground (arith, v.noded j h);
    numbered = λ j h. ground (arith, v.numbered j h);
  }

  close-ne-none :
      (held : ℕ → ℕ) (t : Table)
      → IsValid nentry held t
      → is_opened (t.files i).status ≡ true
      → filemap_close i t ≢ none
  unfolding filemap_close is_init is_opened is_closed is_unused
  close-ne-none held t v o e =
      ground (arith, v.counted i in_table, v.counted i in_table, v.idle i in_table)

  -- An open file can be closed.
  pub close_lem :
      (held : ℕ → ℕ) (t : Table)
      → IsValid nentry held t
      → is_opened (t.files i).status ≡ true
      → KeepsValid nentry held (filemap_close i t)
  close_lem held t v o =
      let (t', e) = some_of_ne_none (filemap_close i t) (close-ne-none held t v o) in
      (t', e, close-IsValid held t v o e)
