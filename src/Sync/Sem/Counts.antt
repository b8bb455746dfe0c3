-- ===== src/Sync/Sem/Counts.antt =====
-- The count of a semaphore is the number of records of it.
use ucorebook_code.Prelude.{
  ℕ, ◌+◌, ◌-◌, ◌≡◌, refl, Bool, Bool-cases, ◌==◌, if◌then◌else◌, List, [], ◌∷◌, some, arith, inl,
  inr, update,
}
use ucorebook_code.Sync.Sem.Undo.{
  Store, count_semu, semu_destroy, dup_sem_queue, destroy_each, exit_sem_queue,
}

-- How many records of `a` a list holds.
unfoldable pub records : ℕ → List ℕ → ℕ
records a [] = 0
records a (x ∷ xs) = (if x == a then 1 else 0) + records a xs

count_semu-count :
    (x a : ℕ) (st : Store)
    → ((count_semu x st).sems a).count ≡ (st.sems a).count + (if x == a then 1 else 0)
unfolding count_semu update
count_semu-count x a st = ground arith

-- The record that was made moves from one side to the other.
balance : (c' c n m k : ℕ) (one : ℕ) → c' + (k + m) ≡ one + n → one ≡ c + k → c' + m ≡ c + n
balance c' c n m k one e e' = omega arith

-- Copying a process's list at fork counts each semaphore once for each record that the copy gains,
-- also where memory runs out on the way.
pub dup_sem_queue-balanced :
    (got : ℕ → Bool) (to from : List ℕ) (st : Store) (a : ℕ)
    → ((dup_sem_queue got to from st).2.sems a).count + records a to
      ≡ (st.sems a).count + records a (dup_sem_queue got to from st).1
unfolding dup_sem_queue records
dup_sem_queue-balanced got to [] st a = refl
dup_sem_queue-balanced got to (x ∷ from) st a = elim (Bool-cases (st.sems x).valid) [
  | inr dead ↦ simp dead (dup_sem_queue-balanced got to from st a)
  | inl live ↦ elim (Bool-cases (got x)) [
    | inr out ↦ simp (live, out) refl
    | inl room ↦
        let rest = dup_sem_queue-balanced got (x ∷ to) from (count_semu x st) a in
        let one = count_semu-count x a st in simp (live, room) (balance _ _ _ _ _ _ rest one)
  ]
]

semu_destroy-count :
    (x a : ℕ) (st : Store)
    → ((semu_destroy x st).sems a).count ≡ (st.sems a).count - (if x == a then 1 else 0)
unfolding semu_destroy update
semu_destroy-count x a st = ground arith

minus_minus : (c c' k n one : ℕ) → c' ≡ one - n → one ≡ c - k → c' ≡ c - (k + n)
minus_minus c c' k n one e e' = omega arith

destroy_each-count :
    (list : List ℕ) (st : Store) (a : ℕ)
    → ((destroy_each list st).sems a).count ≡ (st.sems a).count - records a list
unfolding destroy_each records
destroy_each-count [] st a = omega arith
destroy_each-count (x ∷ list) st a =
    minus_minus _ _ _ _ _ (destroy_each-count list (semu_destroy x st) a)
      (semu_destroy-count x a st)

-- A process that exits gives back each semaphore once for each record in its list, if no other
-- process shares the list.
pub exit_sem_queue-count :
    (list : List ℕ) (st : Store) (a : ℕ)
    → (st' : Store) × (exit_sem_queue 0 list st ≡ some st')
      × ((st'.sems a).count ≡ (st.sems a).count - records a list)
unfolding exit_sem_queue
exit_sem_queue-count list st a = (destroy_each list st, refl, destroy_each-count list st a)
