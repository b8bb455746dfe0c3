-- ===== src/Sync/Sem/Undo.antt =====
-- The lists of kern/sync/sem.c that hold a process's semaphores: creation, fork, exit and search. An
-- undo record is the address of its semaphore, and `freed` lists the semaphores handed to `kfree`.
use ucorebook_code.Prelude.{
  ℕ, ◌+◌, ◌-◌, ◌%◌, ◌^◌, Bool, true, false, ltb, ◌==◌, if◌then◌else◌, List, [], ◌∷◌, Option, none,
  some, assert, ◌>>◌, update,
}
use ucorebook_code.Prelude.Int.{ℤ}
use ucorebook_code.Prelude.Errno.{e_no_mem, Result, ok, err}
use ucorebook_code.Sync.Sem.{Semaphore}

pub record Store : Type 0 where
  pub sems : ℕ → Semaphore
  pub freed : List ℕ

abbrev kernbase : ℕ
kernbase = 0xC0000000

-- `VALID_SEMID` and `semid2sem`, on 32-bit words.
unfoldable pub is_valid_semid : ℕ → Bool
is_valid_semid sem_id = ltb sem_id ((sem_id + kernbase) % 2 ^ 32)

unfoldable pub semid2sem : ℕ → ℕ
semid2sem sem_id = (sem_id + kernbase) % 2 ^ 32

unfoldable pub set_sem : ℕ → Semaphore → Store → Store
unfolding update
set_sem a sem st = record st { sems = update st.sems a sem }

-- A record of the semaphore at `a`, which is counted once more.
unfoldable pub count_semu : ℕ → Store → Store
unfolding set_sem
count_semu a st = set_sem a (record (st.sems a) { count = (st.sems a).count + 1 }) st

-- `semu_create` of a semaphore that exists, and whether there was memory for the record.
unfoldable pub semu_create : ℕ → Bool → Store → Option ℕ × Store
unfolding count_semu
semu_create a got st = if got then (some a, count_semu a st) else (none, st)

-- `semu_create` of a new semaphore, at the address that was given for it.
unfoldable pub semu_create_new : Option ℕ → ℕ → ℤ → Bool → Store → Option ℕ × Store
unfolding count_semu set_sem
semu_create_new none q value got st = (none, st)
semu_create_new (some a) q value got st =
    let sem : Semaphore = record { value = value; valid = true; count = 0; wait_queue = q } in
    if got then (some a, count_semu a (set_sem a sem st)) else (none, st)

unfoldable pub semu_destroy : ℕ → Store → Store
unfolding set_sem
semu_destroy a st =
    let sem = st.sems a in
    let st' = set_sem a (record sem { count = sem.count - 1 }) st in
    if sem.count == 1 then record st' { freed = a ∷ st'.freed } else st'

-- The records of the parent, each valid one put before those that the child has. `got` says whether
-- there was memory for the record of a semaphore.
unfoldable pub dup_sem_queue :
    (ℕ → Bool) → List ℕ → List ℕ → Store → Result (Unit {0}) × List ℕ × Store
dup_sem_queue got to [] st = (ok tt, to, st)
dup_sem_queue got to (a ∷ from) st =
    let rest = dup_sem_queue got (a ∷ to) from (count_semu a st) in
    let skipped = dup_sem_queue got to from st in
    if (st.sems a).valid then if got a then rest else (err e_no_mem, to, st) else skipped

unfoldable pub destroy_each : List ℕ → Store → Store
destroy_each [] st = st
destroy_each (a ∷ list) st = destroy_each list (semu_destroy a st)

unfoldable pub exit_sem_queue : ℕ → List ℕ → Store → Option Store
exit_sem_queue count list st = do assert (count == 0); some (destroy_each list st)

unfoldable pub without_semu : ℕ → List ℕ → List ℕ
without_semu a [] = []
without_semu a (x ∷ xs) = if x == a then xs else x ∷ without_semu a xs

unfoldable pub is_listed : ℕ → List ℕ → Bool
is_listed a [] = false
is_listed a (x ∷ xs) = let rest = is_listed a xs in if x == a then true else rest

-- The record of a semaphore, moved to the front; that of one that is no longer valid is dropped.
unfoldable pub search_at : ℕ → List ℕ → Store → Option ℕ × List ℕ × Store
search_at a list st =
    let rest = without_semu a list in
    if is_listed a list
    then if (st.sems a).valid then (some a, a ∷ rest, st) else (none, rest, semu_destroy a st)
    else (none, list, st)

unfoldable pub semu_list_search : ℕ → List ℕ → Store → Option ℕ × List ℕ × Store
semu_list_search sem_id list st =
    if is_valid_semid sem_id then search_at (semid2sem sem_id) list st else (none, list, st)
