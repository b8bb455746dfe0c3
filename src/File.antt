-- ===== src/File.antt =====
-- kern/fs/file.c: a process's table of open files. `nentry` is FS_STRUCT_NENTRY. A file is named by
-- its index in the table. A call of the virtual file system may block while other threads use the
-- table, so a system call that makes one is two functions, before and after it, and what it returned
-- is an argument of the second. `free_end` is what follows `vfs_close` when a slot is freed; the calls of
-- kern/fs/fs.c use `filemap_close`, the whole of it. `closes` lists the nodes handed to `vfs_close`, `refs` those whose
-- reference and open counts were raised.
pub mod Calls
pub mod Invariant
pub mod Slots
pub mod Safety
pub mod Ends
pub mod Pairs
pub mod Steps
pub mod Fs
pub mod Iobuf
use ucorebook_code.Prelude.{
  ℕ, zero, suc, ◌+◌, ◌-◌, Bool, true, false, not, ◌&&◌, ◌||◌, ltb, ◌==◌, if◌then◌else◌, List, [],
  ◌∷◌, Option, none, some, assert, ◌>>=◌, ◌>>◌, is_some, update,
}
use ucorebook_code.Prelude.Int.{ℤ, pos, negsuc}
use ucorebook_code.Prelude.Errno.{Errno, e_inval, e_max_open, e_busy, Result, ok, err}

-- `FD_NONE`, `FD_INIT`, `FD_OPENED`, `FD_CLOSED`
pub data Status : Type 0 where
  unused init opened closed : Status

unfoldable pub is_unused : Status → Bool
is_unused unused = true
is_unused _ = false

unfoldable pub is_init : Status → Bool
is_init init = true
is_init _ = false

unfoldable pub is_opened : Status → Bool
is_opened opened = true
is_opened _ = false

unfoldable pub is_closed : Status → Bool
is_closed closed = true
is_closed _ = false

-- `node` is `none` for NULL.
pub record File : Type 0 where
  pub status : Status
  pub readable : Bool
  pub writable : Bool
  pub fd : ℕ
  pub offset : ℕ
  pub node : Option ℕ
  pub open_count : ℕ

pub record Table : Type 0 where
  pub files : ℕ → File
  pub closes : List ℕ
  pub refs : List ℕ

unfoldable pub set_file : ℕ → File → Table → Table
unfolding update
set_file i f t = record t { files = update t.files i f }

-- `vfs_close`
unfoldable pub close_node : Option ℕ → Table → Table
close_node none t = t
close_node (some n) t = record t { closes = n ∷ t.closes }

unfoldable pub filemap_free : ℕ → Table → Option Table
unfolding set_file is_init is_closed close_node
filemap_free i t =
    let f = t.files i in
    let t' = if is_closed f.status then close_node f.node t else t in
    do
      assert (is_init f.status || is_closed f.status)
      assert (f.open_count == 0)
      some (set_file i (record f { status = unused }) t')

-- `filemap_free` of a closed file up to `vfs_close`, which may block: the slot stays closed and its node
-- is handed over. Then the rest of it.
unfoldable pub free_begin : ℕ → Table → Option Table
unfolding is_init is_closed close_node
free_begin i t =
    let f = t.files i in
    do
      assert (is_init f.status || is_closed f.status)
      assert (f.open_count == 0)
      some (if is_closed f.status then close_node f.node t else t)

unfoldable pub free_end : ℕ → Table → Table
unfolding set_file
free_end i t = set_file i (record (t.files i) { status = unused }) t

unfoldable pub filemap_acquire : ℕ → Table → Option Table
unfolding set_file is_opened
filemap_acquire i t =
    let f = t.files i in
    do assert (is_opened f.status); some (set_file i (record f { open_count = f.open_count + 1 }) t)

-- Only a file that is open or closed is released, so that what is freed here is closed.
unfoldable pub filemap_release : ℕ → Table → Option Table
unfolding set_file is_opened is_closed free_begin
filemap_release i t =
    let f = t.files i in
    let t' = set_file i (record f { open_count = f.open_count - 1 }) t in
    do
      assert (is_opened f.status || is_closed f.status)
      assert (ltb 0 f.open_count)
      if f.open_count - 1 == 0 then free_begin i t' else some t'

unfoldable pub filemap_open : ℕ → Table → Option Table
unfolding set_file is_init
filemap_open i t =
    let f = t.files i in
    do
      assert (is_init f.status && is_some f.node)
      some (set_file i (record f { status = opened; open_count = f.open_count + 1 }) t)

unfoldable pub filemap_close : ℕ → Table → Option Table
unfolding set_file is_opened filemap_free
filemap_close i t =
    let f = t.files i in
    let t' = set_file i (record f { status = closed; open_count = f.open_count - 1 }) t in
    do
      assert (is_opened f.status)
      assert (ltb 0 f.open_count)
      if f.open_count - 1 == 0 then filemap_free i t' else some t'

-- `filemap_close` up to `vfs_close`, if it comes to that.
unfoldable pub close_begin : ℕ → Table → Option Table
unfolding set_file is_opened free_begin
close_begin i t =
    let f = t.files i in
    let t' = set_file i (record f { status = closed; open_count = f.open_count - 1 }) t in
    do
      assert (is_opened f.status)
      assert (ltb 0 f.open_count)
      if f.open_count - 1 == 0 then free_begin i t' else some t'

-- `vop_ref_inc` and `vop_open_inc`
unfoldable pub ref_node : Option ℕ → Table → Table
ref_node none t = t
ref_node (some n) t = record t { refs = n ∷ t.refs }

-- `filemap_dup` into slot `to`, from a file of this table or of another.
unfoldable pub dup_file : ℕ → File → Table → Option Table
unfolding set_file is_init is_opened ref_node filemap_open
dup_file to f t =
    let g = t.files to in
    let g' = record g {
      offset = f.offset;
      readable = f.readable;
      writable = f.writable;
      node = f.node;
    } in
    do
      assert (is_init g.status && is_opened f.status)
      filemap_open to (set_file to g' (ref_node f.node t))

unfoldable pub filemap_dup : ℕ → ℕ → Table → Option Table
unfolding dup_file
filemap_dup to from t = dup_file to (t.files from) t

-- The slot is taken for a file that is being opened.
unfoldable pub take_slot : ℕ → Table → Option Table
unfolding set_file
take_slot i t =
    let f = t.files i in
    do assert (f.open_count == 0); some (set_file i (record f { status = init; node = none }) t)

-- The rounds left and the slot to look at.
unfoldable pub find_unused : ℕ → ℕ → Table → Option ℕ
unfolding is_unused
find_unused zero i t = none
find_unused (suc n) i t =
    let rest = find_unused n (i + 1) t in if is_unused (t.files i).status then some i else rest

-- A slot found by the search, or none.
unfoldable pub take_found : Option ℕ → Table → Option (Result ℕ × Table)
take_found none t = some (err e_max_open, t)
take_found (some i) t = do t' ← take_slot i t; some (ok i, t')

module _ (nentry : ℕ) where
  -- A slot that the kernel has just allocated.
  unfoldable pub blank : ℕ → File → File
  blank i f = if ltb i nentry then record f { status = unused; fd = i; open_count = 0 } else f

  unfoldable pub filemap_init : Table → Table
  unfolding blank
  filemap_init t = record t { files = λ i. blank i (t.files i) }

  unfoldable pub testfd : ℤ → Bool
  testfd (pos n) = ltb n nentry
  testfd (negsuc n) = false

  -- The file descriptor asked for, `none` for NO_FD.
  unfoldable pub filemap_alloc : Option ℤ → Table → Option (Result ℕ × Table)
  filemap_alloc none t = take_found (find_unused nentry 0 t) t
  filemap_alloc (some (negsuc n)) t = some (err e_inval, t)
  filemap_alloc (some (pos n)) t =
      if testfd (pos n)
      then if is_unused (t.files n).status then take_found (some n) t else some (err e_busy, t)
      else some (err e_inval, t)

  unfoldable pub fd2file : ℤ → Table → Option ℕ
  fd2file (negsuc n) t = none
  fd2file (pos n) t =
      if testfd (pos n) && (is_opened (t.files n).status && (t.files n).fd == n)
      then some n
      else none
