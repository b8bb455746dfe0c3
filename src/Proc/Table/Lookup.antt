-- ===== src/Proc/Table/Lookup.antt =====
-- kern/process/proc.c: a search by number finds the process that has it, and forks and waits keep the
-- list, the hash table, the numbers and the count in step.
use ucorebook_code.Prelude.{
  ℕ, ◌≤◌, ◌<◌, ◌≡◌, ◌+◌, ◌↔◌, ◌∙◌, inl, inr, refl, sym, ap, true, Bool-cases, ◌&&◌, ltb, ◌==◌, List,
  [], ◌∷◌, map, some, arith, length, In, without, without-In,
}
use ucorebook_code.Proc.Pid.{max_pid}
use ucorebook_code.Proc.Pid.Unique.{IsSafe}
use ucorebook_code.Proc.Table.{Processes, pid_hashfn, find_in, find_proc}

abbrev pub IsDistinct : List ℕ → Type 0
IsDistinct [] = Unit {0}
IsDistinct (x ∷ xs) = (In x xs → ⊥) × IsDistinct xs

pub without-IsDistinct : (p : ℕ) (xs : List ℕ) → IsDistinct xs → IsDistinct (without p xs)
without-IsDistinct p [] d = tt
without-IsDistinct p (x ∷ xs) (n, d) = elim (Bool-cases (x == p)) [
  | inl t ↦ rw t d
  | inr t ↦ rw t ((λ h. n (without-In p xs x h)), without-IsDistinct p xs d)
]

-- The idle process is counted and has no place in the list or in the hash table.
pub record IsTable (k : Processes) : Type 0 where
  pub distinct : IsDistinct k.proc_list
  pub buckets_distinct : (b : ℕ) → IsDistinct (k.hash_list b)
  pub hashed : (p : ℕ) → In p k.proc_list → In p (k.hash_list (pid_hashfn (k.pid p)))
  pub listed : (b p : ℕ) → In p (k.hash_list b) → In p k.proc_list × (pid_hashfn (k.pid p) ≡ b)
  pub unique : (p p' : ℕ) → In p k.proc_list → In p' k.proc_list → k.pid p ≡ k.pid p' → p ≡ p'
  pub counted : k.nr_process ≡ length k.proc_list + 1
  pub safe : IsSafe (map k.pid k.proc_list) k.pids
  pub in_bounds : k.pids.next_safe ≤ max_pid

find_in-some :
    (f : ℕ → ℕ) (pid p : ℕ) (ps : List ℕ) → find_in f pid ps ≡ some p → In p ps × (f p ≡ pid)
unfolding find_in
find_in-some f pid p [] e = cc
find_in-some f pid p (x ∷ xs) e = elim (Bool-cases (f x == pid)) [
  | inl t ↦ let same : x ≡ p = ground arith in (inl (sym same), rw (← same) (ground arith))
  | inr t ↦ let (i, q) = find_in-some f pid p xs (rw t at e) in (inr i, q)
]

find_in-In : (f : ℕ → ℕ) (p : ℕ) (ps : List ℕ) → In p ps → (q : ℕ) × (find_in f (f p) ps ≡ some q)
unfolding find_in
find_in-In f p [] h = elim h [ ]
find_in-In f p (x ∷ xs) (inl e) = (x, rw e (ground arith))
find_in-In f p (x ∷ xs) (inr h) = elim (Bool-cases (f x == f p)) [
  | inl t ↦ (x, rw t refl)
  | inr t ↦ let (q, e) = find_in-In f p xs h in (q, rw t e)
]

-- In a table in step, a search for a number from 1 on and below `MAX_PID` finds a process exactly
-- where it is in the list and has that number.
pub find_proc-Finds :
    (pid p : ℕ) (k : Processes)
    → IsTable k
    → 0 < pid
    → pid < max_pid
    → (find_proc pid k ≡ some p) ↔ (In p k.proc_list × (k.pid p ≡ pid))
unfolding find_proc
find_proc-Finds pid p k t a b =
    let in_range : (ltb 0 pid && ltb pid max_pid) ≡ true = ground arith in
    rw in_range (
      (λ e.
          let (i, q) = find_in-some k.pid pid p (k.hash_list (pid_hashfn pid)) e in
          ((t.listed (pid_hashfn pid) p i).0, q)),
      (λ (i, q).
          let h = t.hashed p i in
          let (r, e) = find_in-In k.pid p (k.hash_list (pid_hashfn (k.pid p))) h in
          let (i', q') = find_in-some k.pid (k.pid p) r (k.hash_list (pid_hashfn (k.pid p))) e in
          let same = t.unique r p (t.listed (pid_hashfn (k.pid p)) r i').0 i q' in
          rw (← q) (e ∙ ap some same)),
    )
