-- ===== src/Tests/Proc.antt =====
-- Two children of the process at 10, with the numbers 1 and 3.
use ucorebook_code.Prelude.{
  ℕ, ◌≤◌, ◌<◌, ◌≡◌, ◌↔◌, ◌∙◌, inl, inr, refl, sym, true, Bool-cases, List, [], ◌∷◌, none, some,
  ◌==◌, if◌then◌else◌, arith, In,
}
use ucorebook_code.Proc.Pid.{max_pid, Pids, get_pid, walk, walks}
use ucorebook_code.Proc.Pid.Unique.{IsGiven, get_pid-IsGiven}
use ucorebook_code.Proc.Table.{
  Processes, find_proc, enroll, reap, set_links, remove_links, pid_hashfn,
}
use ucorebook_code.Proc.Table.Lookup.{IsTable, find_proc-Finds}
use ucorebook_code.Proc.Table.Steps.{enroll-IsTable, reap-IsTable}
use ucorebook_code.Proc.Table.Family.{IsFamily, set_links-IsFamily, remove_links-IsFamily}

abbrev state : Pids
state = record { last_pid = 1; next_safe = 3 }

abbrev used : List ℕ
used = 3 ∷ 1 ∷ []

-- The next number is below the next safe one; then the list is searched.
get_pid_runs :
    (get_pid used state ≡ some (record { last_pid = 2; next_safe = 3 }))
    × (get_pid (2 ∷ used) (record { last_pid = 2; next_safe = 3 })
        ≡ some (record { last_pid = 4; next_safe = max_pid }))
unfolding get_pid walks walk
get_pid_runs = (refl, refl)

get_pid-IsGiven_example : IsGiven used (get_pid used state)
get_pid-IsGiven_example =
    get_pid-IsGiven used state (omega arith) (inr (omega arith), (inl (omega arith), tt))
      (omega arith)

-- 21 is the younger of the two.
abbrev family : Processes
family = record {
  pid = λ x. if x == 20 then 1 else 3;
  parent = λ x. 10;
  cptr = λ x. if x == 10 then some 21 else none;
  yptr = λ x. if x == 20 then some 21 else none;
  optr = λ x. if x == 21 then some 20 else none;
  proc_list = 21 ∷ 20 ∷ [];
  nr_process = 2;
  hash_list = λ b. [];
  pids = state;
}

family-IsFamily : IsFamily family 10 (21 ∷ 20 ∷ [])
family-IsFamily = record {
  first = refl;
  chain = (refl, refl, (refl, refl, tt));
  parents = λ x i. refl;
  distinct = ((λ h. elim h [ inl e ↦ omega arith | inr e ↦ absurd e ]), ((λ h. h), tt));
}

set_links-IsFamily_example : IsFamily (set_links 22 family) 10 (22 ∷ 21 ∷ 20 ∷ [])
set_links-IsFamily_example =
    set_links-IsFamily 22 family (21 ∷ 20 ∷ []) family-IsFamily
      (λ h. elim h [ inl e ↦ omega arith | inr (inl e) ↦ omega arith | inr (inr e) ↦ absurd e ])

remove_links-IsFamily_example : IsFamily (remove_links 20 family) 10 (21 ∷ [])
remove_links-IsFamily_example =
    remove_links-IsFamily 20 family (21 ∷ 20 ∷ []) family-IsFamily (inr (inl refl))

-- A table with one process, and the idle process beside it.
abbrev alone : Processes
alone = record {
  pid = λ x. 1;
  parent = λ x. 10;
  cptr = λ x. none;
  yptr = λ x. none;
  optr = λ x. none;
  proc_list = 20 ∷ [];
  nr_process = 2;
  hash_list = λ b. if b == pid_hashfn 1 then 20 ∷ [] else [];
  pids = record { last_pid = 1; next_safe = max_pid };
}

bucket_only : (b p : ℕ) → In p (alone.hash_list b) → (p ≡ 20) × (pid_hashfn 1 ≡ b)
bucket_only b p i = elim (Bool-cases (b == pid_hashfn 1)) [
  | inl t ↦ let i' = rw t at i in elim i' [ inl e ↦ (e, ground arith) | inr j ↦ absurd j ]
  | inr t ↦ let i' = rw t at i in absurd i'
]

alone-IsTable : IsTable alone
alone-IsTable = record {
  distinct = ((λ h. h), tt);
  buckets_distinct =
      λ b. elim (Bool-cases (b == pid_hashfn 1)) [ inl t ↦ rw t ((λ h. h), tt) | inr t ↦ rw t tt ];
  hashed = λ p i. let t : (pid_hashfn 1 == pid_hashfn 1) ≡ true = ground arith in rw t i;
  listed = λ b p i. let (e, q) = bucket_only b p i in (inl e, q);
  unique = λ p p' i i' e. elim i [
    | inl q ↦ elim i' [ inl q' ↦ q ∙ sym q' | inr j ↦ absurd j ]
    | inr j ↦ absurd j
  ];
  counted = refl;
  safe = (inl (omega arith), tt);
  in_bounds = omega arith;
}

find_proc-Finds_example : (find_proc 1 alone ≡ some 20) ↔ (In 20 (20 ∷ []) × (alone.pid 20 ≡ 1))
find_proc-Finds_example = find_proc-Finds 1 20 alone alone-IsTable (omega arith) (omega arith)

enroll-IsTable_example :
    (k' : Processes) × (enroll 21 alone ≡ some k')
    × IsTable k'
    × (k'.proc_list ≡ 21 ∷ 20 ∷ [])
    × (In (k'.pid 21) (1 ∷ []) → ⊥)
    × (1 ≤ k'.pid 21)
    × (k'.pid 21 < max_pid)
enroll-IsTable_example =
    enroll-IsTable 21 alone alone-IsTable (λ h. elim h [ inl e ↦ omega arith | inr e ↦ absurd e ])
      (omega arith)

reap-IsTable_example : IsTable (reap 20 alone) × ((reap 20 alone).proc_list ≡ [])
reap-IsTable_example = reap-IsTable 20 alone alone-IsTable (inl refl)
