-- ===== src/Proc/Table/Steps.antt =====
-- kern/process/proc.c: a fork and a wait keep the table in step.
use ucorebook_code.Prelude.{
  ℕ, ◌-◌, ◌≤◌, ◌<◌, ◌≡◌, ◌≢◌, ◌⊎◌, ◌∙◌, inl, inr, refl, sym, ap, Bool-cases, leb, ◌==◌, List, [],
  ◌∷◌, map, some, arith, length, In, without, In-without, without-In, length-without, update,
  update_self, update_ne, length-map, ℕ_discrete, subst,
}
use ucorebook_code.Proc.Pid.{max_process, max_pid, Pids}
use ucorebook_code.Proc.Pid.Unique.{IsSafe, get_pid-gives}
use ucorebook_code.Proc.Table.{
  Processes, pid_hashfn, set_links, remove_links, hash_proc, unhash_proc, enroll, fork_begin, reap,
}
use ucorebook_code.Proc.Table.Lookup.{IsDistinct, IsTable, without-IsDistinct}

without-not_In : (p : ℕ) (xs : List ℕ) → IsDistinct xs → In p (without p xs) → ⊥
without-not_In p [] d h = h
without-not_In p (x ∷ xs) (n, d) h = elim (Bool-cases (x == p)) [
  | inl t ↦ let same : x ≡ p = ground arith in n (rw same (rw t at h))
  | inr t ↦ let h' = rw t at h in elim h' [ inl e ↦ ground arith | inr i ↦ without-not_In p xs d i ]
]

map-update : (f : ℕ → ℕ) (p v : ℕ) (xs : List ℕ) → (In p xs → ⊥) → map (update f p v) xs ≡ map f xs
map-update f p v [] n = refl
map-update f p v (x ∷ xs) n =
    rw (update_ne f v (λ e. n (inl (sym e))), map-update f p v xs (λ h. n (inr h))) refl

In-map : (f : ℕ → ℕ) (x : ℕ) (xs : List ℕ) → In x xs → In (f x) (map f xs)
In-map f x [] h = elim h [ ]
In-map f x (y ∷ ys) (inl e) = inl (ap f e)
In-map f x (y ∷ ys) (inr h) = inr (In-map f x ys h)

IsSafe-map :
    (f : ℕ → ℕ) (p : ℕ) (xs : List ℕ) (k : Pids)
    → IsSafe (map f xs) k
    → IsSafe (map f (without p xs)) k
IsSafe-map f p [] k s = tt
IsSafe-map f p (x ∷ xs) k (s, ss) = elim (Bool-cases (x == p)) [
  | inl t ↦ rw t ss
  | inr t ↦ rw t (s, IsSafe-map f p xs k ss)
]

module _ (hl : ℕ → List ℕ) where
  -- The lists of the hash table with a process in one of them more.
  In-push : (h p b r : ℕ) → In r (update hl h (p ∷ hl h) b) → In r (hl b) ⊎ ((r ≡ p) × (b ≡ h))
  In-push h p b r i = elim (ℕ_discrete b h) [
    | yes e ↦
        let i' : In r (p ∷ hl h) = rw (e, update_self hl h (p ∷ hl h)) at i in
        elim i' [ inl q ↦ inr (q, e) | inr j ↦ inl (rw e j) ]
    | no n ↦ inl (rw (update_ne hl (p ∷ hl h) n) at i)
  ]

  push-In : (h p b r : ℕ) → In r (hl b) ⊎ ((r ≡ p) × (b ≡ h)) → In r (update hl h (p ∷ hl h) b)
  push-In h p b r (inr (q, e)) = rw (e, update_self hl h (p ∷ hl h)) (inl q)
  push-In h p b r (inl i) = elim (ℕ_discrete b h) [
    | yes e ↦ rw (e, update_self hl h (p ∷ hl h)) (inr (rw e at i))
    | no n ↦ rw (update_ne hl (p ∷ hl h) n) i
  ]

  -- The lists with one process less.
  In-drop : (h p b r : ℕ) → In r (update hl h (without p (hl h)) b) → In r (hl b)
  In-drop h p b r i = elim (ℕ_discrete b h) [
    | yes e ↦ rw e (without-In p (hl h) r (rw (e, update_self hl h (without p (hl h))) at i))
    | no n ↦ rw (update_ne hl (without p (hl h)) n) at i
  ]

  drop-In : (h p b r : ℕ) → r ≢ p → In r (hl b) → In r (update hl h (without p (hl h)) b)
  drop-In h p b r ne i = elim (ℕ_discrete b h) [
    | yes e ↦ rw (e, update_self hl h (without p (hl h))) (In-without p (hl h) r ne (rw e at i))
    | no n ↦ rw (update_ne hl (without p (hl h)) n) i
  ]

  push-IsDistinct :
      (h p b : ℕ)
      → ((c : ℕ) → IsDistinct (hl c))
      → (In p (hl h) → ⊥)
      → IsDistinct (update hl h (p ∷ hl h) b)
  push-IsDistinct h p b d n = elim (ℕ_discrete b h) [
    | yes e ↦ rw (e, update_self hl h (p ∷ hl h)) (n, d h)
    | no ne ↦ rw (update_ne hl (p ∷ hl h) ne) (d b)
  ]

  drop-IsDistinct :
      (h p b : ℕ) → ((c : ℕ) → IsDistinct (hl c)) → IsDistinct (update hl h (without p (hl h)) b)
  drop-IsDistinct h p b d = elim (ℕ_discrete b h) [
    | yes e ↦ rw (e, update_self hl h (without p (hl h))) (without-IsDistinct p (hl h) (d h))
    | no ne ↦ rw (update_ne hl (without p (hl h)) ne) (d b)
  ]

  -- The process is in no list after it was dropped from its own.
  gone :
      (h p c r : ℕ)
      → ((b : ℕ) → IsDistinct (hl b))
      → r ≡ p
      → h ≡ c
      → In r (update hl h (without p (hl h)) c)
      → ⊥
  gone h p c r d e q j =
      without-not_In p (hl h) (d h) (rw (e, ← q, update_self hl h (without p (hl h))) at j)

-- A new process, with a number of its own, is in the list and in the hash table.
enrolled-IsTable :
    (p : ℕ) (k : Processes) (n : Pids)
    → IsTable k
    → (In p k.proc_list → ⊥)
    → (In n.last_pid (map k.pid k.proc_list) → ⊥)
    → n.next_safe ≤ max_pid
    → IsSafe (n.last_pid ∷ map k.pid k.proc_list) n
    → IsTable (set_links p (hash_proc p (record k { pids = n; pid = update k.pid p n.last_pid })))
unfolding set_links hash_proc
enrolled-IsTable p k n t new fresh b s =
    let f = k.pid in
    let g = update f p n.last_pid in
    let gp : g p ≡ n.last_pid = update_self f p n.last_pid in
    let other : (r : ℕ) → In r k.proc_list → g r ≡ f r =
      λ r i. update_ne f n.last_pid (λ e. new (subst (λ x. In x k.proc_list) e i)) in
    record {
      distinct = (new, t.distinct);
      buckets_distinct = λ c.
          push-IsDistinct k.hash_list (pid_hashfn (g p)) p c t.buckets_distinct
            (λ i. new (t.listed (pid_hashfn (g p)) p i).0);
      hashed = λ r i. push-In k.hash_list (pid_hashfn (g p)) p (pid_hashfn (g r)) r (elim i [
        | inl e ↦ inr (e, ap (λ x. pid_hashfn (g x)) e)
        | inr j ↦ inl (rw (other r j) (t.hashed r j))
      ]);
      listed = λ c r i. elim (In-push k.hash_list (pid_hashfn (g p)) p c r i) [
        | inl j ↦
            let (in_list, h) = t.listed c r j in (inr in_list, ap pid_hashfn (other r in_list) ∙ h)
        | inr (e, h) ↦ (inl e, ap (λ x. pid_hashfn (g x)) e ∙ sym h)
      ];
      unique = λ r r' i i' e. elim i [
        | inl q ↦ elim i' [
          | inl q' ↦ q ∙ sym q'
          | inr j' ↦
              let same : f r' ≡ n.last_pid = sym (other r' j') ∙ sym e ∙ ap g q ∙ gp in
              absurd
                (fresh (subst (λ x. In x (map f k.proc_list)) same (In-map f r' k.proc_list j')))
        ]
        | inr j ↦ elim i' [
          | inl q' ↦
              let same : f r ≡ n.last_pid = sym (other r j) ∙ e ∙ ap g q' ∙ gp in
              absurd (fresh (subst (λ x. In x (map f k.proc_list)) same (In-map f r k.proc_list j)))
          | inr j' ↦ t.unique r r' j j' (sym (other r j) ∙ e ∙ other r' j')
        ]
      ];
      counted = let c = t.counted in omega arith;
      safe = rw (gp, map-update f p n.last_pid k.proc_list new) s;
      in_bounds = b;
    }

enrolled_fields :
    (p : ℕ) (k : Processes) (n : Pids)
    → ((set_links p (hash_proc p (record k { pids = n; pid = update k.pid p n.last_pid }))).pid p
        ≡ n.last_pid)
      × ((set_links p
            (hash_proc p (record k { pids = n; pid = update k.pid p n.last_pid }))).proc_list
          ≡ p ∷ k.proc_list)
unfolding set_links hash_proc
enrolled_fields p k n = (update_self k.pid p n.last_pid, refl)

-- The start of a fork changes nothing at the limit, and no more than a parent below it.
fork_begin-IsTable :
    (p current : ℕ) (k : Processes) → IsTable k → IsTable (fork_begin p current k).1
unfolding fork_begin
fork_begin-IsTable p current k t = elim (Bool-cases (leb max_process k.nr_process)) [
  | inl h ↦ rw (fork_begin, h) t
  | inr h ↦
      rw (fork_begin, h)
        (record {
          distinct = t.distinct;
          buckets_distinct = t.buckets_distinct;
          hashed = t.hashed;
          listed = t.listed;
          unique = t.unique;
          counted = t.counted;
          safe = t.safe;
          in_bounds = t.in_bounds;
        })
]

-- Whatever ran since a fork began, as long as the table is in step, the new process is not in it and
-- it has fewer processes than there are numbers: `get_pid` ends with a number below `MAX_PID` that no
-- process has, and the table with the new process in front is in step.
pub enroll-IsTable :
    (p : ℕ) (k : Processes)
    → IsTable k
    → (In p k.proc_list → ⊥)
    → length k.proc_list < max_pid - 1
    → (k' : Processes) × (enroll p k ≡ some k')
      × IsTable k'
      × (k'.proc_list ≡ p ∷ k.proc_list)
      × (In (k'.pid p) (map k.pid k.proc_list) → ⊥)
      × (1 ≤ k'.pid p)
      × (k'.pid p < max_pid)
unfolding enroll
enroll-IsTable p k t new few =
    let few' : length (map k.pid k.proc_list) < max_pid - 1 =
      let l = length-map k.proc_list k.pid in omega arith in
    let (n, run, a, b, fresh, c, s) =
      get_pid-gives (map k.pid k.proc_list) k.pids few' t.safe t.in_bounds in
    let (same_pid, same_list) = enrolled_fields p k n in
    (
      set_links p (hash_proc p (record k { pids = n; pid = update k.pid p n.last_pid })),
      rw run refl,
      enrolled-IsTable p k n t new fresh c s,
      same_list,
      rw same_pid fresh,
      rw same_pid a,
      rw same_pid b,
    )

-- A process that is taken out leaves the table in step.
pub reap-IsTable :
    (p : ℕ) (k : Processes)
    → IsTable k
    → In p k.proc_list
    → IsTable (reap p k) × ((reap p k).proc_list ≡ without p k.proc_list)
unfolding reap remove_links unhash_proc
reap-IsTable p k t i =
    let h = pid_hashfn (k.pid p) in
    (
      record {
        distinct = without-IsDistinct p k.proc_list t.distinct;
        buckets_distinct = λ c. drop-IsDistinct k.hash_list h p c t.buckets_distinct;
        hashed = λ r j.
            let ne : r ≢ p = λ e.
              without-not_In p k.proc_list t.distinct
                (subst (λ x. In x (without p k.proc_list)) e j) in
            drop-In k.hash_list h p (pid_hashfn (k.pid r)) r ne
              (t.hashed r (without-In p k.proc_list r j));
        listed = λ c r j.
            let (in_list, q) = t.listed c r (In-drop k.hash_list h p c r j) in
            (
              In-without p k.proc_list r
                  (λ e.
                    gone k.hash_list h p c r t.buckets_distinct e
                      (ap (λ x. pid_hashfn (k.pid x)) (sym e) ∙ q) j)
                  in_list,
              q,
            );
        unique = λ r r' j j' e.
            t.unique r r' (without-In p k.proc_list r j) (without-In p k.proc_list r' j') e;
        counted = let c = t.counted in let l = length-without p k.proc_list i in omega arith;
        safe = IsSafe-map k.pid p k.proc_list k.pids t.safe;
        in_bounds = t.in_bounds;
      },
      refl,
    )
