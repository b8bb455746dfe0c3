-- ===== src/Proc/Pid.antt =====
-- kern/process/proc.c: `get_pid`. The list has the numbers of the processes in `proc_list`.
pub mod Unique
use ucorebook_code.Prelude.{
  ℕ, zero, suc, ◌+◌, ◌<◌, Bool, true, false, ◌&&◌, ltb, leb, ◌==◌, if◌then◌else◌, List, [], ◌∷◌,
  Option, none, some,
}

abbrev pub max_process : ℕ
max_process = 4096

abbrev pub max_pid : ℕ
max_pid = 8192

-- The static variables of the function.
pub record Pids : Type 0 where
  pub last_pid : ℕ
  pub next_safe : ℕ

unfoldable pub wrap : ℕ → ℕ
wrap pid = if leb max_pid pid then 1 else pid

-- How a walk along the list ends: with a jump back to `repeat`, or at the end of the list.
pub data Walk : Type 0 where
  repeat : Pids → Walk
  done : Pids → Walk

unfoldable pub walk : List ℕ → Pids → Walk
walk [] k = done k
walk (pid ∷ pids) k = elim (pid == k.last_pid) [
  | true ↦ elim (leb k.next_safe (k.last_pid + 1)) [
    | true ↦ repeat (record { last_pid = wrap (k.last_pid + 1); next_safe = max_pid })
    | false ↦ walk pids (record k { last_pid = k.last_pid + 1 })
  ]
  | false ↦ walk pids (record k {
    next_safe = if ltb k.last_pid pid && ltb pid k.next_safe then pid else k.next_safe;
  })
]

-- The walks from `repeat` on; `none` where there are too few of them.
unfoldable pub walks : ℕ → List ℕ → Pids → Option Pids
walks zero pids k = none
walks (suc n) pids k = elim (walk pids k) [ repeat k' ↦ walks n pids k' | done k' ↦ some k' ]

unfoldable pub get_pid : List ℕ → Pids → Option Pids
get_pid pids k =
    let last = k.last_pid + 1 in
    if leb max_pid last
    then walks max_pid pids (record { last_pid = 1; next_safe = max_pid })
    else if leb k.next_safe last
    then walks max_pid pids (record { last_pid = last; next_safe = max_pid })
    else some (record k { last_pid = last })
