-- ===== src/Proc/Pid/Unique.antt =====
-- kern/process/proc.c: `get_pid` gives a number that no process has, and its search ends.
use ucorebook_code.Prelude.{
  ℕ, zero, suc, ◌+◌, ◌-◌, ◌≤◌, ◌<◌, ◌≡◌, ◌≢◌, ◌⊎◌, inl, inr, refl, Bool-cases, ◌&&◌, ltb, leb, ◌==◌,
  if◌then◌else◌, List, [], ◌∷◌, Option, some, arith, length, In, without, In-cases, In-without,
  length-without,
}
use ucorebook_code.Proc.Pid.{
  max_process, max_pid, Pids, wrap, Walk, repeat, done, walk, walks, get_pid,
}

-- No process has a number between the last one given and the next safe one.
abbrev pub IsSafe : List ℕ → Pids → Type 0
IsSafe [] k = Unit {0}
IsSafe (p ∷ ps) k = ((p ≤ k.last_pid) ⊎ (k.next_safe ≤ p)) × IsSafe ps k

IsSafe-In :
    (ps : List ℕ) (k : Pids) (p : ℕ) → IsSafe ps k → In p ps → (p ≤ k.last_pid) ⊎ (k.next_safe ≤ p)
IsSafe-In [] k p s h = elim h [ ]
IsSafe-In (q ∷ ps) k p (s, ss) (inl e) = rw e s
IsSafe-In (q ∷ ps) k p (s, ss) (inr h) = IsSafe-In ps k p ss h

-- Fewer numbers than there are leave one over.
free_pid : (n : ℕ) (ps : List ℕ) → length ps < n → (q : ℕ) × (1 ≤ q) × (q ≤ n) × (In q ps → ⊥)
free_pid zero ps l = absurd (omega arith)
free_pid (suc n) ps l = elim (In-cases (suc n) ps) [
  | inr free ↦ (suc n, omega arith, omega arith, free)
  | inl i ↦
      let k = length-without (suc n) ps i in
      let (q, a, b, free) = free_pid n (without (suc n) ps) (omega arith) in
      (q, a, omega arith, λ h. free (In-without (suc n) ps q (λ e. absurd (omega arith)) h))
]

-- What the walk has seen: numbers below the candidate, or not below the next safe one.
abbrev IsSeen : List ℕ → Pids → Type 0
IsSeen [] k = Unit {0}
IsSeen (p ∷ ps) k = ((p < k.last_pid) ⊎ (k.next_safe ≤ p)) × IsSeen ps k

-- The way from the candidate to a free number, around the wrap.
unfoldable distance : ℕ → ℕ → ℕ
distance q last = if leb last q then q - last else q + (max_pid - 1) - last

IsSeen-weaken :
    (ps : List ℕ) (k k' : Pids)
    → k.last_pid ≤ k'.last_pid
    → k'.next_safe ≤ k.next_safe
    → IsSeen ps k
    → IsSeen ps k'
IsSeen-weaken [] k k' a b s = tt
IsSeen-weaken (p ∷ ps) k k' a b (s, ss) = (
  (elim s [ inl h ↦ inl (omega arith) | inr h ↦ inr (omega arith) ]),
  IsSeen-weaken ps k k' a b ss,
)

module _ (q : ℕ) (q₁ : 1 ≤ q) (q₂ : q < max_pid) where
  step-distance :
      (last : ℕ)
      → 1 ≤ last
      → last + 1 < max_pid
      → last ≢ q
      → distance q (last + 1) < distance q last
  unfolding distance
  step-distance last a b ne = ground arith

  wrap-distance :
      (last : ℕ) → last < max_pid → max_pid ≤ last + 1 → last ≢ q → distance q 1 < distance q last
  unfolding distance
  wrap-distance last b c ne = ground arith

  -- A walk that goes back to `repeat` has come closer to the free number; a walk that ends has found a
  -- number that it has not seen.
  abbrev IsWalked : List ℕ → List ℕ → ℕ → Walk → Type 0
  IsWalked seen ps last (repeat k) =
      (1 ≤ k.last_pid)
      × (k.last_pid < max_pid)
      × (k.next_safe ≡ max_pid)
      × (distance q k.last_pid < distance q last)
  IsWalked seen ps last (done k) =
      (1 ≤ k.last_pid)
      × (k.last_pid < k.next_safe)
      × (k.next_safe ≤ max_pid)
      × IsSeen seen k
      × IsSeen ps k

  repeat_lem :
      (seen ps : List ℕ) (last₀ : ℕ) (k : Pids)
      → 1 ≤ k.last_pid
      → k.last_pid < max_pid
      → k.last_pid ≢ q
      → distance q k.last_pid ≤ distance q last₀
      → IsWalked seen ps last₀
          (repeat (record { last_pid = wrap (k.last_pid + 1); next_safe = max_pid }))
  unfolding wrap
  repeat_lem seen ps last₀ k a b ne d = elim (Bool-cases (leb max_pid (k.last_pid + 1))) [
    | inl t ↦
        let w = wrap-distance k.last_pid b (ground arith) ne in
        rw t (omega arith, omega arith, refl, omega arith)
    | inr t ↦
        let w = step-distance k.last_pid a (ground arith) ne in
        rw t (omega arith, ground arith, refl, omega arith)
  ]

  found_after :
      (seen ps : List ℕ) (last p : ℕ) (w : Walk)
      → IsWalked (p ∷ seen) ps last w
      → IsWalked seen (p ∷ ps) last w
  found_after seen ps last p (repeat k) h = h
  found_after seen ps last p (done k) (a, b, c, (s, ss), t) = (a, b, c, ss, (s, t))

  walk-IsWalked :
      (seen ps : List ℕ) (last₀ : ℕ) (k : Pids)
      → 1 ≤ k.last_pid
      → k.last_pid < k.next_safe
      → k.next_safe ≤ max_pid
      → distance q k.last_pid ≤ distance q last₀
      → IsSeen seen k
      → (In q ps → ⊥)
      → IsWalked seen ps last₀ (walk ps k)
  unfolding walk
  walk-IsWalked seen [] last₀ k a b c d s n = (a, b, c, s, tt)
  walk-IsWalked seen (p ∷ ps) last₀ k a b c d s n = elim (Bool-cases (p == k.last_pid)) [
    | inl t ↦
        let ne : k.last_pid ≢ q = λ e. n (inl (ground arith)) in
        elim (Bool-cases (leb k.next_safe (k.last_pid + 1))) [
          | inl u ↦ rw (walk, t, u) (repeat_lem seen (p ∷ ps) last₀ k a (omega arith) ne d)
          | inr u ↦
              let closer = step-distance k.last_pid a (ground arith) ne in
              let k' : Pids = record k { last_pid = k.last_pid + 1 } in
              rw (walk, t, u)
                (found_after seen ps last₀ p _ (
                  walk-IsWalked (p ∷ seen) ps last₀ k' (omega arith) (ground arith) c (omega arith)
                    (inl (ground arith), IsSeen-weaken seen k k' (omega arith) (omega arith) s)
                    (λ h. n (inr h))))
        ]
    | inr t ↦ elim (Bool-cases (ltb k.last_pid p && ltb p k.next_safe)) [
      | inl u ↦
          let k' : Pids = record k { next_safe = p } in
          rw (walk, t, u)
            (found_after seen ps last₀ p _ (
              walk-IsWalked (p ∷ seen) ps last₀ k' a (ground arith) (ground arith) d
                (inr (omega arith), IsSeen-weaken seen k k' (omega arith) (ground arith) s)
                (λ h. n (inr h))))
      | inr u ↦
          let side : (p < k.last_pid) ⊎ (k.next_safe ≤ p) = ground arith in
          rw (walk, t, u)
            (found_after seen ps last₀ p _
              (walk-IsWalked (p ∷ seen) ps last₀ k a b c d (side, s) (λ h. n (inr h))))
    ]
  ]

  distance-bound : (last : ℕ) → 1 ≤ last → distance q last < max_pid
  unfolding distance
  distance-bound last a = ground arith

  abbrev IsFound : List ℕ → Option Pids → Type 0
  IsFound ps o =
      (k : Pids) × (o ≡ some k)
      × (1 ≤ k.last_pid)
      × (k.last_pid < k.next_safe)
      × (k.next_safe ≤ max_pid)
      × IsSeen ps k

  next_walk :
      (m : ℕ) (ps : List ℕ) (k : Pids) (w : Walk)
      → distance q k.last_pid < suc m
      → walk ps k ≡ w
      → IsWalked [] ps k.last_pid w
      → ((k' : Pids)
          → 1 ≤ k'.last_pid
          → k'.last_pid < max_pid
          → k'.next_safe ≡ max_pid
          → distance q k'.last_pid < m
          → IsFound ps (walks m ps k'))
      → IsFound ps (walks (suc m) ps k)
  unfolding walks
  next_walk m ps k (repeat k') d e (a', b', c', d') ih =
      let (k'', run, f, g, h, i) = ih k' a' b' c' (omega arith) in
      (k'', rw (walks, e) run, f, g, h, i)
  next_walk m ps k (done k') d e (a', b', c', s, t) ih = (k', rw (walks, e) refl, a', b', c', t)

  -- The search ends, since each walk but the last comes closer to the free number.
  walks_lem :
      (n : ℕ) (ps : List ℕ) (k : Pids)
      → 1 ≤ k.last_pid
      → k.last_pid < max_pid
      → k.next_safe ≡ max_pid
      → distance q k.last_pid < n
      → (In q ps → ⊥)
      → IsFound ps (walks n ps k)
  walks_lem zero ps k a b c d n = absurd (omega arith)
  walks_lem (suc m) ps k a b c d n =
      next_walk m ps k (walk ps k) d refl
        (walk-IsWalked [] ps k.last_pid k a (omega arith) (omega arith) (omega arith) tt n)
        (λ k' a' b' c' d'. walks_lem m ps k' a' b' c' d' n)

IsSeen-IsSafe : (ps : List ℕ) (k : Pids) → IsSeen ps k → IsSafe ps k
IsSeen-IsSafe [] k s = tt
IsSeen-IsSafe (p ∷ ps) k (s, ss) =
    ((elim s [ inl h ↦ inl (omega arith) | inr h ↦ inr h ]), IsSeen-IsSafe ps k ss)

IsSeen-not_In :
    (ps : List ℕ) (k : Pids) → k.last_pid < k.next_safe → IsSeen ps k → In k.last_pid ps → ⊥
IsSeen-not_In [] k l s h = h
IsSeen-not_In (p ∷ ps) k l (s, ss) (inl e) = elim s [ inl h ↦ omega arith | inr h ↦ omega arith ]
IsSeen-not_In (p ∷ ps) k l (s, ss) (inr h) = IsSeen-not_In ps k l ss h

IsSafe-weaken :
    (ps : List ℕ) (k : Pids) → IsSafe ps k → IsSafe ps (record k { last_pid = k.last_pid + 1 })
IsSafe-weaken [] k s = tt
IsSafe-weaken (p ∷ ps) k (s, ss) =
    ((elim s [ inl h ↦ inl (omega arith) | inr h ↦ inr h ]), IsSafe-weaken ps k ss)

-- The number that was given, and the state for the next call, when the process is in the list.
abbrev pub IsGiven : List ℕ → Option Pids → Type 0
IsGiven ps o =
    (k : Pids) × (o ≡ some k)
    × (1 ≤ k.last_pid)
    × (k.last_pid < max_pid)
    × (In k.last_pid ps → ⊥)
    × (k.next_safe ≤ max_pid)
    × IsSafe (k.last_pid ∷ ps) k

walks-IsGiven :
    (last : ℕ) (ps : List ℕ)
    → 1 ≤ last
    → last < max_pid
    → length ps < max_pid - 1
    → IsGiven ps (walks max_pid ps (record { last_pid = last; next_safe = max_pid }))
walks-IsGiven last ps a b l =
    let (q, q₁, q₂, free) = free_pid (max_pid - 1) ps (omega arith) in
    let k : Pids = record { last_pid = last; next_safe = max_pid } in
    let (k', run, c, d, e, s) =
      walks_lem q q₁ (omega arith) max_pid ps k a b refl (distance-bound q q₁ (omega arith) last a)
        free in
    (
      k',
      run,
      c,
      omega arith,
      IsSeen-not_In ps k' d s,
      e,
      (inl (omega arith), IsSeen-IsSafe ps k' s),
    )

-- The same as long as a number is left over.
pub get_pid-gives :
    (ps : List ℕ) (k : Pids)
    → length ps < max_pid - 1
    → IsSafe ps k
    → k.next_safe ≤ max_pid
    → IsGiven ps (get_pid ps k)
unfolding get_pid
get_pid-gives ps k l s b = elim (Bool-cases (leb max_pid (k.last_pid + 1))) [
  | inl t ↦ rw t (walks-IsGiven 1 ps (omega arith) (omega arith) l)
  | inr t ↦ elim (Bool-cases (leb k.next_safe (k.last_pid + 1))) [
    | inl u ↦ rw (t, u) (walks-IsGiven (k.last_pid + 1) ps (omega arith) (ground arith) l)
    | inr u ↦
        rw (t, u)
          (
            record k { last_pid = k.last_pid + 1 },
            refl,
            omega arith,
            ground arith,
            (λ h. elim (IsSafe-In ps k (k.last_pid + 1) s h) [
              | inl e ↦ omega arith
              | inr e ↦ ground arith
            ]),
            b,
            (inl (omega arith), IsSafe-weaken ps k s),
          )
  ]
]

-- As long as there are fewer than `MAX_PROCESS` processes, the search of `get_pid` ends with a number
-- from 1 on and below `MAX_PID` that no process has; `MAX_PID` walks along the list are enough for it.
-- The next safe number is right for the next call, when the new process is in the list.
pub get_pid-IsGiven :
    (ps : List ℕ) (k : Pids)
    → length ps < max_process
    → IsSafe ps k
    → k.next_safe ≤ max_pid
    → IsGiven ps (get_pid ps k)
get_pid-IsGiven ps k l s b = get_pid-gives ps k (omega arith) s b

-- A process that leaves the list makes no number unsafe.
pub IsSafe-without : (p : ℕ) (ps : List ℕ) (k : Pids) → IsSafe ps k → IsSafe (without p ps) k
IsSafe-without p [] k s = tt
IsSafe-without p (x ∷ ps) k (s, ss) = elim (Bool-cases (x == p)) [
  | inl t ↦ rw t ss
  | inr t ↦ rw t (s, IsSafe-without p ps k ss)
]
