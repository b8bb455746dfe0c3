-- ===== src/Mm/Vmm/Access.antt =====
-- kern/mm/vmm.c: `user_mem_check` decides whether each address of a range may be used.
use ucorebook_code.Prelude.{
  ℕ, zero, suc, ◌+◌, ◌%◌, ◌≤◌, ◌<◌, ◌≡◌, ◌↔◌, ◌∙◌, inl, inr, refl, Bool, true, false, not,
  Bool-cases, ltb, leb, List, [], ◌∷◌, Option, none, some, arith, ◌&&◌, if◌then◌else◌,
}
use ucorebook_code.Mm.Vmm.{
  Vma, Mm, pgsize, word, user_access, find_vma_list, remember, has, vm_write, vm_read, vm_stack,
}
use ucorebook_code.Mm.Vmm.Order.{IsOrdered, In-find_vma_list, find_vma_list-In}
use ucorebook_code.Mm.Vmm.Find.{IsMm, find_vma_lem, remember-IsMm}
use ucorebook_code.Mm.Vmm.Flags.{covers}
use ucorebook_code.Mm.Vmm.Scan.{
  may_use, end_of, check_found, check_from, check_space, kern_access, kernbase, kerntop,
  user_mem_check,
}

-- The permission, and that the address is not in the page at the end of a stack where it is written.
unfoldable pub permits : Bool → ℕ → Vma → Bool
permits write addr v =
    has v.vm_flags (if write then vm_write else vm_read)
    && not (write && (has v.vm_flags vm_stack && ltb addr (v.vm_start + pgsize)))

module _ (f : ℕ → Vma) where
  -- Whether some area has the address and permits the access.
  unfoldable pub allowed_at : List ℕ → Bool → ℕ → Bool
  allowed_at [] write addr = false
  allowed_at (x ∷ xs) write addr =
      let rest = allowed_at xs write addr in
      if covers f x addr then permits write addr (f x) else rest

  allowed_at-below :
      (lo : ℕ) (xs : List ℕ) (write : Bool) (addr : ℕ)
      → IsOrdered f lo xs
      → addr < lo
      → allowed_at xs write addr ≡ false
  unfolding allowed_at covers
  allowed_at-below lo [] write addr o l = refl
  allowed_at-below lo (x ∷ xs) write addr (lx, s, o) l =
      let ih = allowed_at-below (f x).vm_end xs write addr o (omega arith) in
      let t : (leb (f x).vm_start addr && ltb addr (f x).vm_end) ≡ false = ground arith in
      rw (t, ih) refl

  -- Only the area that is found counts.
  allowed_at-found :
      (lo : ℕ) (xs : List ℕ) (write : Bool) (addr x : ℕ)
      → IsOrdered f lo xs
      → find_vma_list f xs addr ≡ some x
      → allowed_at xs write addr ≡ (leb (f x).vm_start addr && permits write addr (f x))
  unfolding allowed_at find_vma_list covers
  allowed_at-found lo [] write addr x o e = cc
  allowed_at-found lo (y ∷ ys) write addr x (l, s, o) e =
      elim (Bool-cases (ltb addr (f y).vm_end)) [
        | inl t ↦
            let same : y ≡ x = ground arith in
            elim (Bool-cases (leb (f y).vm_start addr)) [
              | inl u ↦ rw (← same) (rw (t, u) refl)
              | inr u ↦
                  rw (← same)
                    (rw (t, u, allowed_at-below (f y).vm_end ys write addr o (ground arith)) refl)
            ]
        | inr t ↦
            let ih = allowed_at-found (f y).vm_end ys write addr x o (rw t at e) in
            let n : (leb (f y).vm_start addr && ltb addr (f y).vm_end) ≡ false = ground arith in
            rw (n, ih) refl
      ]

  allowed_at-none :
      (xs : List ℕ) (write : Bool) (addr : ℕ)
      → find_vma_list f xs addr ≡ none
      → allowed_at xs write addr ≡ false
  unfolding allowed_at find_vma_list covers
  allowed_at-none [] write addr e = refl
  allowed_at-none (y ∷ ys) write addr e = elim (Bool-cases (ltb addr (f y).vm_end)) [
    | inl t ↦ absurd (let e' = rw t at e in cc)
    | inr t ↦
        let ih = allowed_at-none ys write addr (rw t at e) in
        let n : (leb (f y).vm_start addr && ltb addr (f y).vm_end) ≡ false = ground arith in
        rw (n, ih) refl
  ]

permits-later :
    (write : Bool) (addr addr' : ℕ) (v : Vma)
    → addr ≤ addr'
    → permits write addr v ≡ true
    → permits write addr' v ≡ true
unfolding permits
permits-later write addr addr' v l h = ground arith

-- What the answer says of the range.
abbrev pub IsVerdict : Mm → Bool → ℕ → ℕ → Bool → Type 0
IsVerdict m write start end' true =
    (addr : ℕ) → start ≤ addr → addr < end' → allowed_at m.vmas m.mmap_list write addr ≡ true
IsVerdict m write start end' false =
    (addr : ℕ) × (start ≤ addr) × (addr < end') × (allowed_at m.vmas m.mmap_list write addr ≡ false)

-- The answer for the rest of the range, behind the area that has `start`.
IsVerdict-step :
    (m : Mm) (write : Bool) (start end' x : ℕ) (b : Bool)
    → IsMm m
    → find_vma_list m.vmas m.mmap_list start ≡ some x
    → (m.vmas x).vm_start ≤ start
    → permits write start (m.vmas x) ≡ true
    → IsVerdict m write (m.vmas x).vm_end end' b
    → IsVerdict m write start end' b
IsVerdict-step m write start end' x true i e l p v = λ addr a h.
    let f = m.vmas in
    let (in_list, r) = In-find_vma_list f m.mmap_list x start e in
    elim (Bool-cases (ltb addr (f x).vm_end)) [
      | inr t ↦ v addr (ground arith) h
      | inl t ↦
          let found =
            find_vma_list-In f m.mmap_list 0 x addr i.ordered in_list (omega arith)
              (ground arith) in
          let low : leb (f x).vm_start addr ≡ true = ground arith in
          rw (allowed_at-found f 0 m.mmap_list write addr x i.ordered found, low)
            (permits-later write start addr (f x) a p)
    ]
IsVerdict-step m write start end' x false i e l p (addr, a, h, n) =
    let (in_list, r) = In-find_vma_list m.vmas m.mmap_list x start e in (addr, omega arith, h, n)

abbrev IsAnswer : Mm → Bool → ℕ → ℕ → Option (Bool × Mm) → Type 0
IsAnswer m write start end' o =
    (b : Bool) × (m' : Mm) × (o ≡ some (b, m')) × IsMm m' × IsVerdict m write start end' b

may_use-false :
    (write : Bool) (start x : ℕ) (m : Mm)
    → may_use write start (some x) m ≡ false
    → (leb (m.vmas x).vm_start start && permits write start (m.vmas x)) ≡ false
unfolding may_use permits
may_use-false write start x m h = ground arith

may_use-true :
    (write : Bool) (start x : ℕ) (m : Mm)
    → may_use write start (some x) m ≡ true
    → ((m.vmas x).vm_start ≤ start) × (permits write start (m.vmas x) ≡ true)
unfolding may_use permits
may_use-true write start x m h = (ground arith, ground arith)

verdict_iff :
    (m : Mm) (write : Bool) (start end' : ℕ) (b : Bool)
    → IsVerdict m write start end' b
    → (b ≡ true) ↔ (
        (true ≡ true)
        × ((a : ℕ) → start ≤ a → a < end' → allowed_at m.vmas m.mmap_list write a ≡ true))
verdict_iff m write start end' true v = ((λ e. (refl, v)), (λ h. refl))
verdict_iff m write start end' false (a, l, h, n) =
    ((λ e. absurd cc), (λ (t, all). let k = all a l h in cc))

check_found_lem :
    (fuel : ℕ) (write : Bool) (start end' : ℕ) (m : Mm) (rest : ℕ → Mm → Option (Bool × Mm))
    (o : Option ℕ)
    → IsMm m
    → end' ≤ start + suc fuel
    → start < end'
    → find_vma_list m.vmas m.mmap_list start ≡ o
    → ((start' : ℕ) (m' : Mm)
        → IsMm m'
        → end' ≤ start' + fuel
        → IsAnswer m' write start' end' (rest start' m'))
    → IsAnswer m write start end' (check_found rest write start (remember o m))
unfolding check_found remember may_use end_of
check_found_lem fuel write start end' m rest none i l se e ih =
    (false, m, refl, i, (start, omega arith, se, allowed_at-none m.vmas m.mmap_list write start e))
check_found_lem fuel write start end' m rest (some x) i l se e ih =
    let f = m.vmas in
    let (in_list, r) = In-find_vma_list f m.mmap_list x start e in
    let mc : Mm = record m { mmap_cache = some x } in
    let ic : IsMm mc =
      remember-IsMm (some x) m (λ y q. let same : x ≡ y = ground arith in rw (← same) in_list) i in
    let found = allowed_at-found f 0 m.mmap_list write start x i.ordered e in
    elim (Bool-cases (may_use write start (some x) mc)) [
      | inr t ↦
          rw (check_found, t)
            (false, mc, refl, ic, (start, omega arith, se, found ∙ may_use-false write start x m t))
      | inl t ↦
          let (low, p) = may_use-true write start x m t in
          let (b, m', run, i', v) = ih (f x).vm_end mc ic (omega arith) in
          rw (check_found, t) (b, m', run, i', IsVerdict-step m write start end' x b i e low p v)
    ]

check_from_lem :
    (fuel : ℕ) (write : Bool) (start end' : ℕ) (m : Mm)
    → IsMm m
    → end' ≤ start + fuel
    → IsAnswer m write start end' (check_from fuel write start end' m)
unfolding check_from
check_from_lem zero write start end' m i l =
    let t : ltb start end' ≡ false = ground arith in
    rw t (true, m, refl, i, λ addr a h. absurd (ground arith))
check_from_lem (suc fuel) write start end' m i l = elim (Bool-cases (ltb start end')) [
  | inr t ↦ rw (check_from, t) (true, m, refl, i, λ addr a h. absurd (ground arith))
  | inl t ↦
      rw (check_from, t, find_vma_lem m start i)
        (check_found_lem fuel write start end' m _ (find_vma_list m.vmas m.mmap_list start) i
          (omega arith) (ground arith) refl
          (λ start' m' i' l'. check_from_lem fuel write start' end' m' i' l'))
]

check_range_lem :
    (addr len end' : ℕ) (write : Bool) (m : Mm)
    → IsMm m
    → end' ≤ addr + len
    → (r : Option (Bool × Mm))
    → r ≡ (elim (user_access addr end') [
      | false ↦ some (false, m)
      | true ↦ check_from len write addr end' m
    ])
    → (b : Bool) × (m' : Mm) × (r ≡ some (b, m'))
      × IsMm m'
      × ((b ≡ true) ↔ (
          (user_access addr end' ≡ true)
          × ((a : ℕ) → addr ≤ a → a < end' → allowed_at m.vmas m.mmap_list write a ≡ true)))
check_range_lem addr len end' write m i l r q = elim (Bool-cases (user_access addr end')) [
  | inr t ↦ rw (q, t) (false, m, refl, i, ((λ e. absurd cc), (λ (e, h). cc)))
  | inl t ↦
      let (b, m', run, i', v) = check_from_lem len write addr end' m i l in
      rw (q, t) (b, m', run, i', verdict_iff m write addr end' b v)
]

check_space-IsVerdict :
    (addr len : ℕ) (write : Bool) (m : Mm)
    → IsMm m
    → (b : Bool) × (m' : Mm) × (check_space addr len write m ≡ some (b, m'))
      × IsMm m'
      × ((b ≡ true) ↔ (
          (user_access addr ((addr + len) % word) ≡ true)
          × ((a : ℕ)
              → addr ≤ a
              → a < (addr + len) % word
              → allowed_at m.vmas m.mmap_list write a ≡ true)))
unfolding check_space
check_space-IsVerdict addr len write m i =
    check_range_lem addr len ((addr + len) % word) write m i (omega arith)
      (check_space addr len write m) refl

abbrev pub IsMmIf : Option Mm → Type 0
IsMmIf none = Unit {0}
IsMmIf (some m) = IsMm m

-- Without a space, that the range is one of the kernel's; with one, that it is a user range with all
-- of its addresses in areas that permit the access.
abbrev pub MayAccess : ℕ → ℕ → Bool → Option Mm → Type 0
MayAccess addr end' write none = (kernbase ≤ addr) × (addr < end') × (end' ≤ kerntop)
MayAccess addr end' write (some m) =
    (user_access addr end' ≡ true)
    × ((a : ℕ) → addr ≤ a → a < end' → allowed_at m.vmas m.mmap_list write a ≡ true)

kern_access_iff :
    (addr end' : ℕ)
    → (kern_access addr end' ≡ true) ↔ ((kernbase ≤ addr) × (addr < end') × (end' ≤ kerntop))
unfolding kern_access
kern_access_iff addr end' =
    ((λ e. (ground arith, ground arith, ground arith)), (λ (a, b, c). ground arith))

-- `user_mem_check` always answers, and exactly whether the range of `len` addresses, as it wraps
-- around, may be accessed: without a space, as of a kernel thread, whether it is a range of the
-- kernel that is not empty; with one, whether it is a user range, all of its addresses are in areas
-- that permit the access, and for a write none is in the page at the end of a stack. The loop ends
-- within `len` rounds, and the space, if any, stays well-formed.
pub user_mem_check-IsVerdict :
    (addr len : ℕ) (write : Bool) (o : Option Mm)
    → IsMmIf o
    → (b : Bool) × (o' : Option Mm) × (user_mem_check addr len write o ≡ some (b, o'))
      × IsMmIf o'
      × ((b ≡ true) ↔ MayAccess addr ((addr + len) % word) write o)
unfolding user_mem_check
user_mem_check-IsVerdict addr len write none i = (
  kern_access addr ((addr + len) % word),
  none,
  refl,
  tt,
  kern_access_iff addr ((addr + len) % word),
)
user_mem_check-IsVerdict addr len write (some m) i =
    let (b, m', run, i', v) = check_space-IsVerdict addr len write m i in
    (b, some m', rw run refl, i', v)
