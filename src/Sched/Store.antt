-- ===== src/Sched/Store.antt =====
-- Writes to the process table and to the run queues, and the ring of `__rq[0..3]`, which
-- `sched_init` (kern/schedule/sched.c) links in this order.
use ucorebook_code.Prelude.{
  ℕ, Bool, false, ◌==◌, if◌then◌else◌, List, [], ◌∷◌, Option, none, some, update,
}
use ucorebook_code.Sched.Types.{Proc, RunQueue, Kernel}

-- `sizeof(__rq) / sizeof(__rq[0])`
abbrev pub nr_queues : ℕ
nr_queues = 4

unfoldable pub set_proc : ℕ → Proc → Kernel → Kernel
unfolding update
set_proc p v k = record k { procs = update k.procs p v }

unfoldable pub set_queue : ℕ → RunQueue → Kernel → Kernel
unfolding update
set_queue i q k = record k { queues = update k.queues i q }

unfoldable pub is_queue : Option ℕ → ℕ → Bool
is_queue none i = false
is_queue (some j) i = j == i

-- `list_del_init`
unfoldable pub unlink : ℕ → List ℕ → List ℕ
unlink p [] = []
unlink p (x ∷ xs) = if x == p then xs else x ∷ unlink p xs
