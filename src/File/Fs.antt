-- ===== src/File/Fs.antt =====
-- kern/fs/fs.c: what a process keeps of the file system, made with the process, copied by fork and
-- closed at exec and exit. `nentry` is FS_STRUCT_NENTRY; `pwd_refs` and `pwd_drops` list the nodes
-- whose reference counts were raised and lowered here. The lock is not modelled.
pub mod Valid
pub mod Close
pub mod Dup
use ucorebook_code.Prelude.{
  ℕ, zero, suc, ◌+◌, ◌-◌, ltb, ◌==◌, if◌then◌else◌, List, [], ◌∷◌, Option, none, some, assert,
  ◌>>=◌, ◌>>◌,
}
use ucorebook_code.File.{
  File, init, Table, is_opened, is_unused, set_file, filemap_close, dup_file, filemap_init,
}

pub record Fs : Type 0 where
  pub pwd : Option ℕ
  pub filemap : Table
  pub fs_count : ℕ
  pub pwd_refs : List ℕ
  pub pwd_drops : List ℕ

-- The loops' body: the file in slot `i` is closed if it is open.
unfoldable pub close_if_open : ℕ → Table → Option Table
close_if_open i t = if is_opened (t.files i).status then filemap_close i t else some t

-- `n` slots from `i` on.
unfoldable pub destroy_from : ℕ → ℕ → Table → Option Table
destroy_from zero i t = some t
destroy_from (suc n) i t = do
  t' ← close_if_open i t
  assert (is_unused (t'.files i).status)
  destroy_from n (i + 1) t'

unfoldable pub closeall_from : ℕ → ℕ → Table → Option Table
closeall_from zero i t = some t
closeall_from (suc n) i t = do t' ← close_if_open i t; closeall_from n (i + 1) t'

-- The slot is taken for the copy, and filled.
unfoldable pub dup_if_open : ℕ → Table → Table → Option Table
dup_if_open i from to =
    let taken = set_file i (record (to.files i) { status = init }) to in
    if is_opened (from.files i).status then dup_file i (from.files i) taken else some to

unfoldable pub dup_from : ℕ → ℕ → Table → Table → Option Table
dup_from zero i from to = some to
dup_from (suc n) i from to = do to' ← dup_if_open i from to; dup_from n (i + 1) from to'

-- The reference to the working directory, given up.
unfoldable pub drop_pwd : Fs → Fs
drop_pwd fs = elim fs.pwd [ none ↦ fs | some d ↦ record fs { pwd_drops = d ∷ fs.pwd_drops } ]

-- The copy's working directory, with one reference more.
unfoldable pub share_pwd : Option ℕ → Fs → Fs
share_pwd none to = record to { pwd = none }
share_pwd (some d) to = record to { pwd = some d; pwd_refs = d ∷ to.pwd_refs }

module _ (nentry : ℕ) where
  -- The memory at the structure, if there was any.
  unfoldable pub fs_create : Option Fs → Option Fs
  fs_create none = none
  fs_create (some fs) =
      some (record fs { pwd = none; fs_count = 0; filemap = filemap_init nentry fs.filemap })

  -- What is left in the memory that is freed.
  unfoldable pub fs_destroy : Fs → Option Fs
  unfolding drop_pwd
  fs_destroy fs = do
    assert (fs.fs_count == 0)
    t ← destroy_from nentry 0 fs.filemap
    some (record (drop_pwd fs) { filemap = t })

  unfoldable pub fs_closeall : Fs → Option Fs
  fs_closeall fs = do
    assert (ltb 0 fs.fs_count)
    t ← closeall_from (nentry - 2) 2 fs.filemap
    some (record fs { filemap = t })

  unfoldable pub dup_fs : Fs → Fs → Option Fs
  unfolding share_pwd
  dup_fs to from = do
    assert (to.fs_count == 0)
    assert (ltb 0 from.fs_count)
    t ← dup_from nentry 0 from.filemap to.filemap
    some (record (share_pwd from.pwd to) { filemap = t })
