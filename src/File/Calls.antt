-- ===== src/File/Calls.antt =====
-- The system calls of kern/fs/file.c, `…_begin` up to the call of the virtual file system and
-- `…_end` from its return.
use Prim.Native.Nat.{bit_and}
use ucorebook_code.Prelude.{
  ℕ, ◌+◌, ◌%◌, ◌^◌, Bool, true, false, not, ◌&&◌, ◌==◌, if◌then◌else◌, Option, none, some, ◌>>=◌,
}
use ucorebook_code.Prelude.Int.{ℤ}
use ucorebook_code.Prelude.Errno.{Errno, e_inval, e_no_mem, Result, ok, err}
use ucorebook_code.File.{
  Table, is_opened, set_file, close_node, filemap_free, filemap_acquire, filemap_release,
  filemap_open, close_begin, filemap_dup, filemap_alloc, fd2file,
}

-- `open_flags & O_ACCMODE`, as whether the file is readable and writable.
unfoldable pub acc_mode : ℕ → Option (Bool × Bool)
acc_mode flags =
    let mode = bit_and flags 3 in
    if mode == 0
    then some (true, false)
    else if mode == 1
    then some (false, true)
    else if mode == 2
    then some (true, true)
    else none

abbrev pub o_append : ℕ
o_append = 0x20

-- A call that has failed gives its slot back.
unfoldable pub give_up : ℕ → Errno → Table → Option (Result ℕ × Table)
give_up i e t = do t' ← filemap_free i t; some (err e, t')

-- The node, the mode and the position of the file in slot `i`, which is then open.
unfoldable pub finish_open : ℕ → ℕ → Bool → Bool → ℕ → Table → Option (Result ℕ × Table)
unfolding set_file
finish_open i node readable writable offset t =
    let f = t.files i in
    let f' = record f {
      node = some node;
      readable = readable;
      writable = writable;
      offset = offset;
    } in
    do t' ← filemap_open i (set_file i f' t); some (ok f.fd, t')

-- The position to start at: 0, or the file's size under O_APPEND.
unfoldable pub open_offset : ℕ → Result ℕ → Result ℕ
open_offset flags stat = if bit_and flags o_append == 0 then ok 0 else stat

-- `file_open` from where the node is known.
unfoldable pub open_at : ℕ → ℕ → Bool × Bool → Result ℕ → Table → Option (Result ℕ × Table)
open_at i node mode (ok offset) t = finish_open i node mode.0 mode.1 offset t
open_at i node mode (err e) t = give_up i e (close_node (some node) t)

-- What `vfs_open` and `vop_fstat` returned, in the mode that `file_open_begin` has accepted.
unfoldable pub open_with :
    ℕ → ℕ → Bool × Bool → Result ℕ → Result ℕ → Table → Option (Result ℕ × Table)
open_with i flags mode (err e) stat t = give_up i e t
open_with i flags mode (ok node) stat t = open_at i node mode (open_offset flags stat) t

unfoldable pub file_open_end : ℕ → ℕ → Result ℕ → Result ℕ → Table → Option (Result ℕ × Table)
file_open_end i flags node stat t = elim (acc_mode flags) [
  | none ↦ some (err e_inval, t)
  | some mode ↦ open_with i flags mode node stat t
]

-- `read` and `write` from the return of the vnode operation, which has moved `copied` bytes.
unfoldable pub finish_transfer : ℕ → ℕ → Table → Option Table
unfolding set_file is_opened
finish_transfer i copied t =
    let f = t.files i in
    let f' = record f { offset = (f.offset + copied) % 2 ^ 32 } in
    filemap_release i (if is_opened f.status then set_file i f' t else t)

-- `pos += stat->st_size`, where `vop_fstat` gave a size.
unfoldable pub from_end : ℕ → Result ℕ → Result ℕ
from_end target (ok size) = ok ((target + size) % 2 ^ 32)
from_end target (err e) = err e

-- The position that is sought: from the start, from here, or from the end.
unfoldable pub seek_target : ℕ → ℕ → ℕ → Result ℕ → Result ℕ
unfolding from_end
seek_target offset target whence stat =
    if whence == 0
    then ok target
    else if whence == 1
    then ok ((target + offset) % 2 ^ 32)
    else if whence == 2
    then from_end target stat
    else err e_inval

-- The result and the table with the new position, if `vop_tryseek` allows it.
unfoldable pub seek_to : ℕ → Result ℕ → (ℕ → Result (Unit {0})) → Table → Result (Unit {0}) × Table
unfolding set_file
seek_to i (err e) tryseek t = (err e, t)
seek_to i (ok target) tryseek t = elim (tryseek target) [
  | ok _ ↦ (ok tt, set_file i (record (t.files i) { offset = target }) t)
  | err e ↦ (err e, t)
]

unfoldable pub file_seek_end :
    ℕ → ℕ → ℕ → Result ℕ → (ℕ → Result (Unit {0})) → Table → Option (Result (Unit {0}) × Table)
file_seek_end i target whence stat tryseek t =
    let out = seek_to i (seek_target (t.files i).offset target whence stat) tryseek t in
    do t' ← filemap_release i out.1; some (out.0, t')

-- `fstat`, `fsync` and `getdirentry` from the return of the vnode operation.
unfoldable pub finish_query : ℕ → Table → Option Table
finish_query i t = filemap_release i t

-- `file_pipe` from the return of `pipe_open`, in the slots `i` and `j`.
unfoldable pub file_pipe_end : ℕ → ℕ → Result (ℕ × ℕ) → Table → Option (Result (ℕ × ℕ) × Table)
file_pipe_end i j (err e) t = do t₁ ← filemap_free i t; t₂ ← filemap_free j t₁; some (err e, t₂)
file_pipe_end i j (ok (n, m)) t = do
  (_, t₁) ← finish_open i n true false 0 t
  (_, t₂) ← finish_open j m false true 0 t₁
  some (ok ((t.files i).fd, (t.files j).fd), t₂)

-- `file_mkfifo` from where the slot is known: whether there was memory for the name, and what
-- `vfs_open` returned.
unfoldable pub file_mkfifo_end : ℕ → Bool → Bool → Result ℕ → Table → Option (Result ℕ × Table)
file_mkfifo_end i readonly named (err e) t = give_up i (if named then e else e_no_mem) t
file_mkfifo_end i readonly named (ok node) t =
    if named then finish_open i node readonly (not readonly) 0 t else give_up i e_no_mem t

unfoldable pub fifo_mode : ℕ → Option Bool
fifo_mode flags =
    let mode = bit_and flags 3 in
    if mode == 0 then some true else if mode == 1 then some false else none

module _ (nentry : ℕ) where
  unfoldable pub file_testfd : ℤ → Bool → Bool → Table → Bool
  file_testfd fd readable writable t = elim (fd2file nentry fd t) [
    | none ↦ false
    | some i ↦
        if readable && not (t.files i).readable
        then false
        else if writable && not (t.files i).writable
        then false
        else true
  ]

  unfoldable pub file_open_begin : ℕ → Table → Option (Result ℕ × Table)
  file_open_begin flags t = elim (acc_mode flags) [
    | none ↦ some (err e_inval, t)
    | some mode ↦ filemap_alloc nentry none t
  ]

  unfoldable pub file_close : ℤ → Table → Option (Result (Unit {0}) × Table)
  file_close fd t = elim (fd2file nentry fd t) [
    | none ↦ some (err e_inval, t)
    | some i ↦ (do t' ← close_begin i t; some (ok tt, t'))
  ]

  -- Hold the file while a vnode operation runs.
  unfoldable pub acquire : ℕ → Table → Option (Result ℕ × Table)
  acquire i t = do t' ← filemap_acquire i t; some (ok i, t')

  unfoldable pub file_read_begin : ℤ → Table → Option (Result ℕ × Table)
  file_read_begin fd t = elim (fd2file nentry fd t) [
    | none ↦ some (err e_inval, t)
    | some i ↦ if not (t.files i).readable then some (err e_inval, t) else acquire i t
  ]

  unfoldable pub file_write_begin : ℤ → Table → Option (Result ℕ × Table)
  file_write_begin fd t = elim (fd2file nentry fd t) [
    | none ↦ some (err e_inval, t)
    | some i ↦ if not (t.files i).writable then some (err e_inval, t) else acquire i t
  ]

  -- `seek`, `fstat`, `fsync` and `getdirentry` up to the vnode operation.
  unfoldable pub query_begin : ℤ → Table → Option (Result ℕ × Table)
  query_begin fd t = elim (fd2file nentry fd t) [
    | none ↦ some (err e_inval, t)
    | some i ↦ acquire i t
  ]

  -- The copy in the slot that was found.
  unfoldable pub dup_into : ℕ → Result ℕ × Table → Option (Result ℕ × Table)
  dup_into from (err e, t) = some (err e, t)
  dup_into from (ok to, t) = do t' ← filemap_dup to from t; some (ok (t'.files to).fd, t')

  unfoldable pub file_dup : ℤ → Option ℤ → Table → Option (Result ℕ × Table)
  file_dup fd1 fd2 t = elim (fd2file nentry fd1 t) [
    | none ↦ some (err e_inval, t)
    | some from ↦ (do out ← filemap_alloc nentry fd2 t; dup_into from out)
  ]

  -- The second slot of a pipe; the first is given back if there is none.
  unfoldable pub second_slot : ℕ → Result ℕ × Table → Option (Result (ℕ × ℕ) × Table)
  second_slot i (ok j, t) = some (ok (i, j), t)
  second_slot i (err e, t) = do t' ← filemap_free i t; some (err e, t')

  unfoldable pub both_slots : Result ℕ × Table → Option (Result (ℕ × ℕ) × Table)
  both_slots (err e, t) = some (err e, t)
  both_slots (ok i, t) = do out ← filemap_alloc nentry none t; second_slot i out

  unfoldable pub file_pipe_begin : Table → Option (Result (ℕ × ℕ) × Table)
  file_pipe_begin t = do out ← filemap_alloc nentry none t; both_slots out

  unfoldable pub file_mkfifo_begin : ℕ → Table → Option (Result ℕ × Table)
  file_mkfifo_begin flags t = elim (fifo_mode flags) [
    | none ↦ some (err e_inval, t)
    | some readonly ↦ filemap_alloc nentry none t
  ]
