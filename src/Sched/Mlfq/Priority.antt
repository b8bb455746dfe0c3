-- ===== src/Sched/Mlfq/Priority.antt =====
-- Which queue a process is put in, and which process is picked.
use ucorebook_code.Prelude.{
  ℕ, zero, suc, ◌+◌, ◌-◌, ◌<◌, ◌≤◌, ◌≡◌, refl, ◌==◌, if◌then◌else◌, [], Option, none, some, arith,
  ◌⊎◌, inl, inr, Option-cases,
}
use ucorebook_code.Sched.Types.{Kernel, RunQueue}
use ucorebook_code.Sched.Store.{nr_queues}
use ucorebook_code.Sched.Rr
use ucorebook_code.Sched.Rr.Invariant
use ucorebook_code.Sched.Rr.Invariant.{IsFiled, occurrences}
use ucorebook_code.Sched.Mlfq.{
  choose, next_queue, enqueue, dequeue_from, dequeue, pick_from, pick_next,
}

pub choose-lt :
    (o : Option ℕ) (slice : ℕ) → ((i : ℕ) → o ≡ some i → i < nr_queues) → choose o slice < nr_queues
unfolding choose
choose-lt none slice h = omega arith
choose-lt (some r) slice h = ground (arith, h r)

-- A process that has used up its slice sinks by one queue, and stays in the last; any other starts
-- again in the first.
pub choose_sinks :
    (r slice : ℕ)
    → r < nr_queues
    → choose (some r) slice ≡ (if slice == 0 then if r == 3 then 3 else r + 1 else 0)
unfolding choose
choose_sinks r slice h = ground arith

pub enqueue-IsFiled :
    (p : ℕ) (k : Kernel) {k' : Kernel} → IsFiled k → enqueue p k ≡ some k' → IsFiled k'
unfolding enqueue
enqueue-IsFiled p k v e =
    Invariant.enqueue-IsFiled (choose (k.procs p).rq (k.procs p).time_slice) p k
      (choose-lt _ _ (v.ringed p)) v (ground arith)

pub dequeue-IsFiled :
    (p : ℕ) (k : Kernel) {k' : Kernel} → IsFiled k → dequeue p k ≡ some k' → IsFiled k'
unfolding dequeue
dequeue-IsFiled p k v e = from (k.procs p).rq (v.ringed p) (ground arith)
  where
    from :
        (o : Option ℕ) {k' : Kernel}
        → ((i : ℕ) → o ≡ some i → i < nr_queues)
        → dequeue_from o p k ≡ some k'
        → IsFiled k'
    from none h e = cc
    from (some i) h e = Invariant.dequeue-IsFiled i p k (h i refl) v e

-- The process is at the head of queue `i`, and the queues above it are empty.
pub record IsPicked (k : Kernel) (p i : ℕ) : Type 0 where
  pub queue_lt : i < nr_queues
  pub head : Rr.pick_next (k.queues i) ≡ some p
  pub above : (j : ℕ) → j < i → (k.queues j).run_list ≡ []

pick_next-none : (q : RunQueue) → Rr.pick_next q ≡ none → q.run_list ≡ []
unfolding Rr.pick_next
pick_next-none q h = ground arith

abbrev pub EmptyBelow : ℕ → Kernel → Type 0
EmptyBelow i k = (j : ℕ) → j < i → (k.queues j).run_list ≡ []

EmptyBelow-suc :
    (i : ℕ) (k : Kernel) → EmptyBelow i k → Rr.pick_next (k.queues i) ≡ none → EmptyBelow (suc i) k
EmptyBelow-suc i k h e j hj = ground (arith, h j, pick_next-none (k.queues i) e)

abbrev pub Picks : Option ℕ → Kernel → Type 0
Picks o k =
    ((p : ℕ) × (j : ℕ) × (o ≡ some p) × IsPicked k p j) ⊎ ((o ≡ none) × EmptyBelow nr_queues k)

-- The last `n` queues, from `i` on, the ones before them being empty.
pick_from-Picks :
    (n i : ℕ) (k : Kernel)
    → n ≤ nr_queues
    → (0 < n → n + i ≡ nr_queues)
    → EmptyBelow (nr_queues - n) k
    → Picks (pick_from n i k) k
unfolding pick_from next_queue
pick_from-Picks zero i k m e h = inr (refl, λ j hj. h j (omega arith))
pick_from-Picks (suc n) i k m e h = elim (Option-cases (Rr.pick_next (k.queues i))) [
  | inr (p, found) ↦ inl (
    p,
    i,
    rw (found, pick_from),
    record { queue_lt = omega arith; head = found; above = λ j hj. h j (omega arith) },
  )
  | inl miss ↦
      rw (miss, pick_from)
        (pick_from-Picks n (next_queue i) k (omega arith) (λ pos. omega (arith, e (omega arith)))
          (λ j hj. EmptyBelow-suc i k (λ j' hj'. h j' (omega arith)) miss j (omega arith)))
]

-- `pick_next` takes the head of the first queue that is not empty; it fails only if all are empty.
pub pick_next-Picks : (k : Kernel) → Picks (pick_next k) k
unfolding pick_next
pick_next-Picks k =
    pick_from-Picks nr_queues 0 k (omega arith) (λ pos. omega arith) (λ j hj. absurd (omega arith))
