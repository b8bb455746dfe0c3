-- ===== src/Tests/File.antt =====
-- Runs of the file table of kern/fs/file.c.
use ucorebook_code.Prelude.{
  update, if◌then◌else◌, ◌==◌, ℕ, ◌≡◌, refl, false, true, List, [], ◌∷◌, Option, none, some, arith,
}
use ucorebook_code.Prelude.Int.{pos}
use ucorebook_code.File.{
  filemap_init, File, free_end, Table, Status, closed, unused, close_node, free_begin, close_begin,
  filemap_release, opened, is_opened, is_init, is_unused, is_closed, set_file, testfd, fd2file,
}
use ucorebook_code.File.Calls.{file_close, finish_transfer}
use ucorebook_code.File.Invariant.{IsExact}
use ucorebook_code.File.Steps.{
  opens, Event, State, boots, Reachable-safe, StepsExact, step, step_safe, closes, close_returns,
  transfer_returns,
}

abbrev closed_file : File
closed_file = record {
  status = unused;
  readable = false;
  writable = false;
  fd = 0;
  offset = 0;
  node = none;
  open_count = 0;
}

-- Slot 1 is open, and a call is under way on it.
abbrev slots : ℕ → File
slots i =
    if i == 1
    then record closed_file {
      status = opened;
      readable = true;
      fd = 1;
      offset = 7;
      node = some 42;
      open_count = 2;
    }
    else record closed_file { fd = i }

abbrev table : Table
table = record { files = slots; closes = []; refs = [] }

abbrev holders : ℕ → ℕ
holders i = if i == 1 then 1 else 0

table-IsExact : IsExact 4 holders table
unfolding is_opened is_unused is_init is_closed
table-IsExact = record {
  counted = λ i h. ground arith;
  idle = λ i h u. ground arith;
  freeing = λ i h c z. ground arith;
  noded = λ i h o. ground arith;
  numbered = λ i h. ground arith;
}

-- What is left of slot 1: its status, its count and its position.
abbrev slot_1 : Option State → Option (Status × ℕ × ℕ)
slot_1 none = none
slot_1 (some (held, t)) = some ((t.files 1).status, (t.files 1).open_count, (t.files 1).offset)

abbrev all : List Event → Option State → Option State
all [] s = s
all (ev ∷ evs) none = none
all (ev ∷ evs) (some s) = all evs (step 4 s ev)

-- A file closed while it is read stays until the read returns, and its slot is free when `vfs_close`
-- has returned as well.
close_first : slot_1 (all (closes (pos 1) ∷ []) (some (holders, table))) ≡ some (closed, 1, 7)
unfolding step file_close fd2file testfd close_begin set_file is_opened update free_begin
close_first = refl

read_last :
    slot_1
      (all (closes (pos 1) ∷ transfer_returns 1 5 ∷ close_returns 1 ∷ []) (some (holders, table)))
    ≡ some (unused, 0, 7)
unfolding free_end step file_close fd2file testfd close_begin set_file is_opened is_closed is_init
    update free_begin finish_transfer filemap_release close_node
read_last = refl

read_then_close :
    slot_1 (all (transfer_returns 1 5 ∷ []) (some (holders, table))) ≡ some (opened, 1, 12)
unfolding step set_file is_opened is_closed update finish_transfer filemap_release
read_then_close = refl

step_safe_example : StepsExact 4 (step 4 (holders, table) (transfer_returns 1 5))
step_safe_example =
    step_safe 4 (holders, table) (transfer_returns 1 5) table-IsExact (omega arith, omega arith)

Reachable-safe_example : StepsExact 4 (step 4 ((λ i. 0), filemap_init 4 table) (opens 2))
Reachable-safe_example =
    Reachable-safe 4 ((λ i. 0), filemap_init 4 table) (opens 2) (boots table) tt
