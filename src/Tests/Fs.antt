-- ===== src/Tests/Fs.antt =====
-- A process with the standard input open, and what exec, exit and fork make of its files.
use ucorebook_code.Prelude.{
  ℕ, ◌<◌, ◌≡◌, refl, false, true, ◌==◌, if◌then◌else◌, [], none, some, arith,
}
use ucorebook_code.File.{File, unused, opened, is_opened, is_init, is_unused, is_closed}
use ucorebook_code.File.Fs.Valid.{IsValid}
use ucorebook_code.File.Fs.{Fs, fs_destroy, dup_fs}
use ucorebook_code.File.Fs.Close.{IsQuiet, fs_destroy_total}
use ucorebook_code.File.Fs.Dup.{IsCopy, dup_fs_total}

abbrev free_slot : ℕ → File
free_slot i = record {
  status = unused;
  readable = false;
  writable = false;
  fd = i;
  offset = 0;
  node = none;
  open_count = 0;
}

abbrev slot : ℕ → File
slot i =
    if i == 0
    then record (free_slot i) {
      status = opened;
      readable = true;
      offset = 7;
      node = some 42;
      open_count = 1;
    }
    else free_slot i

abbrev shell : Fs
shell = record {
  pwd = some 5;
  filemap = record { files = slot; closes = []; refs = [] };
  fs_count = 1;
  pwd_refs = [];
  pwd_drops = [];
}

abbrev exiting : Fs
exiting = record shell { fs_count = 0 }

abbrev child : Fs
child = record exiting {
  pwd = none;
  filemap = record { files = free_slot; closes = []; refs = [] };
}

shell-IsValid : IsValid 4 (λ i. 0) shell.filemap
unfolding is_opened is_unused is_init is_closed
shell-IsValid = record {
  counted = λ i h. ground arith;
  idle = λ i h u. refl;
  closing = λ i h c. ground arith;
  noded = λ i h o. ground arith;
  numbered = λ i h. ground arith;
}

child-IsValid : IsValid 4 (λ i. 0) child.filemap
unfolding is_opened is_unused is_init is_closed
child-IsValid = record {
  counted = λ i h. ground arith;
  idle = λ i h u. refl;
  closing = λ i h c. ground arith;
  noded = λ i h o. ground arith;
  numbered = λ i h. ground arith;
}

shell-IsQuiet : IsQuiet 4 exiting.filemap
unfolding is_init
shell-IsQuiet = (shell-IsValid, λ k h. ground arith)

child_free : (k : ℕ) → k < 4 → is_unused (child.filemap.files k).status ≡ true
unfolding is_unused
child_free k h = refl

fs_destroy_total_example :
    (fs' : Fs) × (fs_destroy 4 exiting ≡ some fs')
    × ((k : ℕ) → k < 4 → is_unused (fs'.filemap.files k).status ≡ true)
fs_destroy_total_example = fs_destroy_total 4 exiting refl shell-IsQuiet

dup_fs_total_example :
    (to' : Fs) × (dup_fs 4 child shell ≡ some to')
    × IsValid 4 (λ k. 0) to'.filemap
    × (to'.pwd ≡ shell.pwd)
    × ((k : ℕ) → k < 4 → IsCopy (shell.filemap.files k) (to'.filemap.files k))
dup_fs_total_example =
    dup_fs_total 4 child shell (λ i. 0) refl (omega arith) shell-IsValid child-IsValid child_free
