-- ===== src/Proc/Table.antt =====
-- kern/process/proc.c: the list of processes, the hash table over their numbers and the links between
-- parents, children and siblings. A process is named by its address; the fields are functions of it.
pub mod Lookup
pub mod Steps
pub mod Family
use ucorebook_code.Prelude.{
  ℕ, zero, suc, ◌+◌, ◌-◌, ◌<◌, Bool, true, false, ◌&&◌, ltb, leb, ◌==◌, if◌then◌else◌, List, [],
  ◌∷◌, map, Option, none, some, ◌>>=◌, update, without,
}
use ucorebook_code.Prelude.Errno.{Errno, Result, ok, err, e_no_free_proc}
use ucorebook_code.Libs.Rand.{hash32}
use ucorebook_code.Proc.Pid.{max_process, max_pid, Pids, get_pid}

pub record Processes : Type 0 where
  pub pid : ℕ → ℕ
  pub parent : ℕ → ℕ
  pub cptr : ℕ → Option ℕ
  pub yptr : ℕ → Option ℕ
  pub optr : ℕ → Option ℕ
  pub proc_list : List ℕ
  pub nr_process : ℕ
  pub hash_list : ℕ → List ℕ
  pub pids : Pids

abbrev pub hash_shift : ℕ
hash_shift = 10

unfoldable pub pid_hashfn : ℕ → ℕ
pid_hashfn x = hash32 x hash_shift

-- A write through a pointer that may be NULL, where the source tests it.
unfoldable pub update_if : (ℕ → Option ℕ) → Option ℕ → Option ℕ → ℕ → Option ℕ
unfolding update
update_if f none v = f
update_if f (some p) v = update f p v

unfoldable pub set_links : ℕ → Processes → Processes
unfolding update
set_links p k =
    let q = k.parent p in
    let older = k.cptr q in
    record k {
      proc_list = p ∷ k.proc_list;
      optr = update k.optr p older;
      yptr = update_if (update k.yptr p none) older (some p);
      cptr = update k.cptr q (some p);
      nr_process = k.nr_process + 1;
    }

-- `optr` and `yptr` are those before the writes, which do not reach them.
unfoldable pub remove_links : ℕ → Processes → Processes
unfolding update
remove_links p k =
    let older = k.optr p in
    let younger = k.yptr p in
    record k {
      proc_list = without p k.proc_list;
      yptr = update_if k.yptr older younger;
      optr = update_if k.optr younger older;
      cptr = elim younger [ none ↦ update k.cptr (k.parent p) older | some y ↦ k.cptr ];
      nr_process = k.nr_process - 1;
    }

unfoldable pub hash_proc : ℕ → Processes → Processes
unfolding update
hash_proc p k =
    let b = pid_hashfn (k.pid p) in
    record k { hash_list = update k.hash_list b (p ∷ k.hash_list b) }

unfoldable pub unhash_proc : ℕ → Processes → Processes
unfolding update
unhash_proc p k =
    let b = pid_hashfn (k.pid p) in
    record k { hash_list = update k.hash_list b (without p (k.hash_list b)) }

-- The first process of the list that has the number.
unfoldable pub find_in : (ℕ → ℕ) → ℕ → List ℕ → Option ℕ
find_in f pid [] = none
find_in f pid (p ∷ ps) = let rest = find_in f pid ps in if f p == pid then some p else rest

unfoldable pub find_proc : ℕ → Processes → Option ℕ
find_proc pid k =
    if ltb 0 pid && ltb pid max_pid then find_in k.pid pid (k.hash_list (pid_hashfn pid)) else none

-- The end of `do_fork`, with interrupts off: the new process gets its number and its place in the
-- table and in the family. Other processes may have run since `fork_begin`.
unfoldable pub enroll : ℕ → Processes → Option Processes
unfolding update
enroll p k = do
  n ← get_pid (map k.pid k.proc_list) k.pids
  some (set_links p (hash_proc p (record k { pids = n; pid = update k.pid p n.last_pid })))

-- `do_fork` up to the first call that may block: the limit, and the parent of the new process `p`.
unfoldable pub fork_begin : ℕ → ℕ → Processes → Result ℕ × Processes
unfolding update
fork_begin p current k = elim (leb max_process k.nr_process) [
  | true ↦ (err e_no_free_proc, k)
  | false ↦ (ok p, record k { parent = update k.parent p current })
]

-- The process that `do_wait` has found is taken out.
unfoldable pub reap : ℕ → Processes → Processes
reap p k = remove_links p (unhash_proc p k)
