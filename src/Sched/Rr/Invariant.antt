-- ===== src/Sched/Rr/Invariant.antt =====
-- Which process stands in which queue: the links of the processes and the lists agree.
use ucorebook_code.Prelude.{
  ℕ, ◌+◌, ◌-◌, ◌%◌, ◌<◌, ◌≡◌, true, ◌&&◌, is_some, ◌==◌, if◌then◌else◌, List, [], ◌∷◌, ◌++◌, some,
  length, length-append, arith, update,
}
use ucorebook_code.Sched.Types.{Kernel, u32_mod}
use ucorebook_code.Sched.Store.{nr_queues, is_queue, unlink}
use ucorebook_code.Sched.Rr.{enqueue, dequeue}

-- How often an address stands in a list.
unfoldable pub occurrences : ℕ → List ℕ → ℕ
occurrences p [] = 0
occurrences p (x ∷ xs) = (if x == p then 1 else 0) + occurrences p xs

pub occurrences-append :
    (p : ℕ) (xs : List ℕ) (q : ℕ)
    → occurrences p (xs ++ q ∷ []) ≡ occurrences p xs + (if q == p then 1 else 0)
unfolding occurrences
occurrences-append p [] q = omega arith
occurrences-append p (x ∷ xs) q = omega (arith, occurrences-append p xs q)

pub occurrences-unlink :
    (p : ℕ) (xs : List ℕ) (q : ℕ)
    → occurrences p (unlink q xs) ≡ occurrences p xs - (if q == p then 1 else 0)
unfolding occurrences unlink
occurrences-unlink p [] q = omega arith
occurrences-unlink p (x ∷ xs) q = ground (arith, occurrences-unlink p xs q)

pub length-unlink :
    (xs : List ℕ) (q : ℕ) → 0 < occurrences q xs → length (unlink q xs) + 1 ≡ length xs
unfolding occurrences unlink
length-unlink [] q h = absurd (omega arith)
length-unlink (x ∷ xs) q h = ground (arith, length-unlink xs q)

-- A process stands once in the queue that its `rq` names while it is linked, and nowhere else.
pub record IsFiled (k : Kernel) : Type 0 where
  pub filed :
      (i p : ℕ)
      → i < nr_queues
      → occurrences p (k.queues i).run_list
        ≡ (if (k.procs p).linked && is_queue (k.procs p).rq i then 1 else 0)
  pub sized :
      (i : ℕ) → i < nr_queues → (k.queues i).proc_num ≡ length (k.queues i).run_list % u32_mod
  pub placed : (p : ℕ) → (k.procs p).linked ≡ true → is_some (k.procs p).rq ≡ true
  pub ringed : (p i : ℕ) → (k.procs p).rq ≡ some i → i < nr_queues

pub enqueue-IsFiled :
    (i p : ℕ) (k : Kernel) {k' : Kernel}
    → i < nr_queues
    → IsFiled k
    → enqueue i p k ≡ some k'
    → IsFiled k'
unfolding enqueue update is_queue
enqueue-IsFiled i p k {k'} h v e = record {
  filed = λ j q hj. ground (arith, v.filed j q hj, occurrences-append q (k.queues j).run_list p);
  sized = λ j hj. ground (arith, v.sized j hj, length-append (k.queues j).run_list (p ∷ []));
  placed = λ q l. ground (arith, v.placed q);
  ringed = λ q j r. ground (arith, v.ringed q j);
}

pub dequeue-IsFiled :
    (i p : ℕ) (k : Kernel) {k' : Kernel}
    → i < nr_queues
    → IsFiled k
    → dequeue i p k ≡ some k'
    → IsFiled k'
unfolding dequeue update is_queue
dequeue-IsFiled i p k {k'} h v e = record {
  filed = λ j q hj. ground (arith, v.filed j q hj, occurrences-unlink q (k.queues j).run_list p);
  sized =
      λ j hj. ground (arith, v.sized j hj, v.filed i p h, length-unlink (k.queues i).run_list p);
  placed = λ q l. ground (arith, v.placed q);
  ringed = λ q j r. ground (arith, v.ringed q j);
}

-- What the queues and the links say is all that matters.
pub IsFiled-same :
    (k k' : Kernel)
    → IsFiled k
    → k'.queues ≡ k.queues
    → ((p : ℕ) → ((k'.procs p).linked ≡ (k.procs p).linked) × ((k'.procs p).rq ≡ (k.procs p).rq))
    → IsFiled k'
unfolding is_queue
IsFiled-same k k' v e h = record {
  filed = λ i p lt. ground (arith, v.filed i p lt, h p);
  sized = λ i lt. ground (arith, v.sized i lt);
  placed = λ p l. ground (arith, v.placed p, h p);
  ringed = λ p i r. ground (arith, v.ringed p i, h p);
}
