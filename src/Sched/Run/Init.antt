-- ===== src/Sched/Run/Init.antt =====
-- The state that `sched_init` sets up.
use ucorebook_code.Prelude.{ℕ, ◌*◌, ◌^◌, ◌<◌, ◌≡◌, refl, false, [], none, arith}
use ucorebook_code.Sched.Types.{Kernel, is_runnable}
use ucorebook_code.Sched.Store.{nr_queues, is_queue}
use ucorebook_code.Sched.Rr.Invariant.{occurrences}
use ucorebook_code.Sched.Run.{sched_init}
use ucorebook_code.Sched.Run.Consistent.{IsConsistent}

-- No process stands in a queue, and none but the idle one is runnable.
pub record IsBoot (k : Kernel) : Type 0 where
  pub unlinked : (p : ℕ) → ((k.procs p).linked ≡ false) × ((k.procs p).rq ≡ none)
  pub asleep : (p : ℕ) → (p ≡ k.idleproc → ⊥) → is_runnable (k.procs p).state ≡ false

-- At boot `sched_init` leaves processes and queues in agreement and no timer set, and the slice of
-- queue `i` is `8 * 2 ^ i`.
pub sched_init_lem :
    (k : Kernel)
    → IsBoot k
    → IsConsistent (sched_init k)
      × ((sched_init k).timer_list ≡ [])
      × ((i : ℕ) → i < nr_queues → ((sched_init k).queues i).max_time_slice ≡ 8 * 2 ^ i)
unfolding sched_init occurrences is_queue
sched_init_lem k v = (
  record {
    queued = record {
      filed = λ i p h. ground (arith, v.unlinked p);
      sized = λ i h. ground arith;
      placed = λ p l. ground (arith, v.unlinked p);
      ringed = λ p i e. ground (arith, v.unlinked p);
    };
    idle_out = (v.unlinked k.idleproc).0;
    current_out = (v.unlinked k.current).0;
    waiting = λ p ni nc. ground (arith, v.unlinked p, v.asleep p ni);
  },
  refl,
  λ i h. ground arith,
)
