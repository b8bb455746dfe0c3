-- ===== src/Mm/Vmm/Collect.antt =====
-- kern/mm/vmm.c: the loops of `mm_unmap`. The first moves the areas that meet the range to the free
-- list; the second gives back what is outside the range.
use ucorebook_code.Prelude.{
  ℕ, ◌≤◌, ◌<◌, ◌≡◌, ◌≢◌, ◌⊎◌, inl, inr, refl, sym, ◌∙◌, ap, Bool, true, false, Bool-cases, ltb,
  ◌==◌, List, [], ◌∷◌, ◌++◌, Option, none, some, is_some, arith,
}
use ucorebook_code.Mm.Tree.{without, Ops, IsTree}
use ucorebook_code.Mm.Vmm.{Vma, Mm, has, vm_share, remove_vma_struct}
use ucorebook_code.Mm.Vmm.Order.{In, IsOrdered, EndsBy, or_else, IsOrdered-right}
use ucorebook_code.Mm.Vmm.Find.{IsMm}
use ucorebook_code.Mm.Vmm.Place.{Apart, Apart-In}
use ucorebook_code.Mm.Vmm.Insert.{remove_vma_struct-IsMm}
use ucorebook_code.Mm.Vmm.Flags.{flags_at, covers, flags_at-EndsBy, flags_at-below, flags_at-++}
use ucorebook_code.Mm.Vmm.Agree.{IsAligned, AllAligned}
use ucorebook_code.Mm.Vmm.Map.{collect}

-- A shared area has its shared memory.
abbrev pub HasShmem : Vma → Type 0
HasShmem v = has v.vm_flags vm_share ≡ true → is_some v.shmem ≡ true

-- The area has a part of the range, and does not go beyond it at both ends.
abbrev pub Meets : (ℕ → Vma) → ℕ → ℕ → ℕ → Type 0
Meets f start end' x =
    (start < (f x).vm_end) × ((start ≤ (f x).vm_start) ⊎ ((f x).vm_end ≤ end')) × HasShmem (f x)

-- Areas of the free list: they meet the range, and neither one another nor the areas in `xs`.
abbrev pub IsFree : (ℕ → Vma) → ℕ → ℕ → List ℕ → List ℕ → Type 0
IsFree f start end' xs [] = Unit {0}
IsFree f start end' xs (y ∷ ys) =
    ((f y).vm_start < (f y).vm_end)
    × ((f y).vm_start < end')
    × Meets f start end' y
    × IsAligned (f y)
    × Apart f y xs
    × Apart f y ys
    × IsFree f start end' xs ys

-- `old` has the flags of the addresses before the call; those outside the range keep them.
pub record Collecting (start end' : ℕ) (old : ℕ → Option ℕ) (free : List ℕ) (m : Mm) : Type 0 where
  pub well_formed : IsMm m
  pub aligned : AllAligned m.vmas m.mmap_list
  pub is_free : IsFree m.vmas start end' m.mmap_list free
  pub outside :
      (addr : ℕ)
      → (addr < start) ⊎ (end' ≤ addr)
      → or_else (flags_at m.vmas free addr) (flags_at m.vmas m.mmap_list addr) ≡ old addr

-- No area of the list has an address of the range.
abbrev pub IsCleared : ℕ → ℕ → Mm → Type 0
IsCleared start end' m =
    (addr : ℕ) → start ≤ addr → addr < end' → flags_at m.vmas m.mmap_list addr ≡ none

module _ (f : ℕ → Vma) where
  pub EndsBy-not_In :
      (hi : ℕ) (xs : List ℕ) (y : ℕ) → EndsBy f hi xs → hi < (f y).vm_end → In y xs → ⊥
  EndsBy-not_In hi [] y e l h = h
  EndsBy-not_In hi (x ∷ xs) y (e, es) l (inl q) = let q' = ap (λ z. (f z).vm_end) q in omega arith
  EndsBy-not_In hi (x ∷ xs) y (e, es) l (inr h) = EndsBy-not_In hi xs y es l h

  pub without-split :
      (pre : List ℕ) (y : ℕ) (ys : List ℕ) → (In y pre → ⊥) → without y (pre ++ y ∷ ys) ≡ pre ++ ys
  without-split [] y ys n = ground arith
  without-split (x ∷ pre) y ys n =
      let ih = without-split pre y ys (λ h. n (inr h)) in
      let ne : x ≢ y = λ e. n (inl (sym e)) in ground arith

  pub Apart-++ : (a : ℕ) (xs ys : List ℕ) → Apart f a xs → Apart f a ys → Apart f a (xs ++ ys)
  Apart-++ a [] ys h k = k
  Apart-++ a (x ∷ xs) ys (d, h) k = (d, Apart-++ a xs ys h k)

  pub Apart-EndsBy : (a hi : ℕ) (xs : List ℕ) → EndsBy f hi xs → hi ≤ (f a).vm_start → Apart f a xs
  Apart-EndsBy a hi [] e l = tt
  Apart-EndsBy a hi (x ∷ xs) (e, es) l = (inl (omega arith), Apart-EndsBy a hi xs es l)

  pub Apart-IsOrdered :
      (a lo : ℕ) (xs : List ℕ) → IsOrdered f lo xs → (f a).vm_end ≤ lo → Apart f a xs
  Apart-IsOrdered a lo [] o l = tt
  Apart-IsOrdered a lo (x ∷ xs) (b, s, o) l =
      (inr (omega arith), Apart-IsOrdered a (f x).vm_end xs o (omega arith))

  pub Apart-without : (a y : ℕ) (xs : List ℕ) → Apart f a xs → Apart f a (without y xs)
  Apart-without a y [] d = tt
  Apart-without a y (x ∷ xs) (d, ds) = elim (Bool-cases (x == y)) [
    | inl t ↦ rw t ds
    | inr t ↦ rw t (d, Apart-without a y xs ds)
  ]

  pub AllAligned-without : (y : ℕ) (xs : List ℕ) → AllAligned f xs → AllAligned f (without y xs)
  AllAligned-without y [] d = tt
  AllAligned-without y (x ∷ xs) (d, ds) = elim (Bool-cases (x == y)) [
    | inl t ↦ rw t ds
    | inr t ↦ rw t (d, AllAligned-without y xs ds)
  ]

  pub AllAligned-In : (x : ℕ) (xs : List ℕ) → AllAligned f xs → In x xs → IsAligned (f x)
  AllAligned-In x [] a h = elim h [ ]
  AllAligned-In x (y ∷ ys) (a, as') (inl e) = rw e a
  AllAligned-In x (y ∷ ys) (a, as') (inr h) = AllAligned-In x ys as' h

  IsFree-without :
      (start end' y : ℕ) (xs ys : List ℕ)
      → IsFree f start end' xs ys
      → IsFree f start end' (without y xs) ys
  IsFree-without start end' y xs [] h = tt
  IsFree-without start end' y xs (z ∷ ys) (a, b, c, d, e, g, h) =
      (a, b, c, d, Apart-without z y xs e, g, IsFree-without start end' y xs ys h)

  -- An area of the list is apart from those of the free list.
  IsFree-Apart :
      (start end' x : ℕ) (xs ys : List ℕ) → IsFree f start end' xs ys → In x xs → Apart f x ys
  IsFree-Apart start end' x xs [] h i = tt
  IsFree-Apart start end' x xs (y ∷ ys) (a, b, c, d, e, g, h) i = (
    (elim (Apart-In f y xs x e i) [ inl l ↦ inr l | inr l ↦ inl l ]),
    IsFree-Apart start end' x xs ys h i,
  )

  pub flags_at-Apart :
      (a : ℕ) (xs : List ℕ) (addr : ℕ)
      → Apart f a xs
      → covers f a addr ≡ true
      → flags_at f xs addr ≡ none
  unfolding flags_at covers
  flags_at-Apart a [] addr d c = refl
  flags_at-Apart a (x ∷ xs) addr (d, ds) c =
      let ih = flags_at-Apart a xs addr ds c in
      elim d [ inl l ↦ ground arith | inr l ↦ ground arith ]

  pub In-middle : (pre : List ℕ) (x : ℕ) (xs : List ℕ) → In x (pre ++ x ∷ xs)
  In-middle [] x xs = inl refl
  In-middle (y ∷ pre) x xs = inr (In-middle pre x xs)

  pub flags_at-nil : (addr : ℕ) → flags_at f [] addr ≡ none
  unfolding flags_at
  flags_at-nil addr = refl

  pub flags_at-cons-true :
      (x : ℕ) (xs : List ℕ) (addr : ℕ)
      → covers f x addr ≡ true
      → flags_at f (x ∷ xs) addr ≡ some (f x).vm_flags
  unfolding flags_at
  flags_at-cons-true x xs addr c = rw c refl

  pub flags_at-cons-false :
      (x : ℕ) (xs : List ℕ) (addr : ℕ)
      → covers f x addr ≡ false
      → flags_at f (x ∷ xs) addr ≡ flags_at f xs addr
  unfolding flags_at
  flags_at-cons-false x xs addr c = rw c refl

  -- The flags do not depend on which of the lists has the area.
  pub move-flags :
      (x addr : ℕ) (free pre xs : List ℕ)
      → Apart f x free
      → Apart f x pre
      → or_else (flags_at f (x ∷ free) addr) (flags_at f (pre ++ xs) addr)
        ≡ or_else (flags_at f free addr) (flags_at f (pre ++ x ∷ xs) addr)
  move-flags x addr free pre xs df dp = elim (Bool-cases (covers f x addr)) [
    | inl c ↦
        rw
          (
            flags_at-++ f pre (x ∷ xs) addr,
            flags_at-cons-true x xs addr c,
            flags_at-cons-true x free addr c,
            flags_at-Apart x free addr df c,
            flags_at-Apart x pre addr dp c,
          )
          refl
    | inr c ↦
        rw
          (
            flags_at-++ f pre (x ∷ xs) addr,
            flags_at-++ f pre xs addr,
            flags_at-cons-false x xs addr c,
            flags_at-cons-false x free addr c,
          )
          refl
  ]

abbrev pub MeetsEach : (ℕ → Vma) → ℕ → ℕ → List ℕ → Type 0
MeetsEach f start end' [] = Unit {0}
MeetsEach f start end' (x ∷ xs) = Meets f start end' x × MeetsEach f start end' xs

module _ (ops : Ops) (law : IsTree ops) (got : Bool) (start end' : ℕ) (old : ℕ → Option ℕ) where
  take_one :
      (pre : List ℕ) (x : ℕ) (xs free : List ℕ) (m : Mm)
      → Collecting start end' old free m
      → m.mmap_list ≡ pre ++ x ∷ xs
      → EndsBy m.vmas start pre
      → Meets m.vmas start end' x
      → (m.vmas x).vm_start < end'
      → Collecting start end' old (x ∷ free) (remove_vma_struct ops x m)
        × ((remove_vma_struct ops x m).mmap_list ≡ pre ++ xs)
  unfolding remove_vma_struct
  take_one pre x xs free m c e b me l =
      let f = m.vmas in
      let o = rw e at c.well_formed.ordered in
      let (lx, ends, opre, (lx', sx, oxs)) = IsOrdered-right f pre 0 x xs o in
      let n = EndsBy-not_In f start pre x b me.0 in
      let gone : without x m.mmap_list ≡ pre ++ xs =
        ap (without x) e ∙ without-split f pre x xs n in
      let i : In x m.mmap_list = rw e (In-middle f pre x xs) in
      let apart_pre = Apart-EndsBy f x (f x).vm_start pre ends (omega arith) in
      let apart =
        Apart-++ f x pre xs apart_pre (Apart-IsOrdered f x (f x).vm_end xs oxs (omega arith)) in
      let apart_free = IsFree-Apart f start end' x m.mmap_list free c.is_free i in
      (
        record {
          well_formed = remove_vma_struct-IsMm ops law x m c.well_formed i;
          aligned = AllAligned-without f x m.mmap_list c.aligned;
          is_free = (
            sx,
            l,
            me,
            AllAligned-In f x m.mmap_list c.aligned i,
            rw gone apart,
            apart_free,
            IsFree-without f start end' x m.mmap_list free c.is_free,
          );
          outside = λ addr h.
              let old_eq = rw e at (c.outside addr h) in
              rw gone (move-flags f x addr free pre xs apart_free apart_pre ∙ old_eq);
        },
        gone,
      )

  same_EndsBy :
      (pre : List ℕ) (x : ℕ) (m : Mm)
      → EndsBy m.vmas start pre
      → EndsBy (remove_vma_struct ops x m).vmas start pre
  unfolding remove_vma_struct
  same_EndsBy pre x m b = b

  same_MeetsEach :
      (xs : List ℕ) (x : ℕ) (m : Mm)
      → MeetsEach m.vmas start end' xs
      → MeetsEach (remove_vma_struct ops x m).vmas start end' xs
  unfolding remove_vma_struct
  same_MeetsEach xs x m b = b

  -- The first loop ends with the areas that meet the range in the free list, and no others.
  pub collect-IsCleared :
      (pre xs free : List ℕ) (m : Mm)
      → Collecting start end' old free m
      → m.mmap_list ≡ pre ++ xs
      → EndsBy m.vmas start pre
      → MeetsEach m.vmas start end' xs
      → Collecting start end' old
          (collect ops got end' free xs m).0
          (collect ops got end' free xs m).1
        × IsCleared start end' (collect ops got end' free xs m).1
  unfolding collect
  collect-IsCleared pre [] free m c e b ms = (
    c,
    λ addr l h.
        rw (e, flags_at-++ m.vmas pre [] addr, flags_at-EndsBy m.vmas pre start addr b l)
          (flags_at-nil m.vmas addr),
  )
  collect-IsCleared pre (x ∷ xs) free m c e b (me, ms) =
      elim (Bool-cases (ltb (m.vmas x).vm_start end')) [
        | inl t ↦
            let (c', e') = take_one pre x xs free m c e b me (ground arith) in
            rw (collect, t)
              (collect-IsCleared pre xs (x ∷ free) (remove_vma_struct ops x m) c' e'
                (same_EndsBy pre x m b) (same_MeetsEach xs x m ms))
        | inr t ↦
            rw (collect, t)
              (
                c,
                λ addr l h.
                    let o = rw e at c.well_formed.ordered in
                    let (lx, ends, opre, oxs) = IsOrdered-right m.vmas pre 0 x xs o in
                    rw
                      (
                        e,
                        flags_at-++ m.vmas pre (x ∷ xs) addr,
                        flags_at-EndsBy m.vmas pre start addr b l,
                        flags_at-below m.vmas (x ∷ xs) (m.vmas x).vm_start addr oxs (ground arith),
                      )
                      refl,
              )
      ]
