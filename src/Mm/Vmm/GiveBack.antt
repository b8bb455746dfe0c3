-- ===== src/Mm/Vmm/GiveBack.antt =====
-- kern/mm/vmm.c: the second loop of `mm_unmap`: what is left of an area goes back to the space.
use ucorebook_code.Prelude.{
  ℕ, ◌≤◌, ◌<◌, ◌≡◌, ◌⊎◌, inl, inr, refl, ◌∙◌, Bool, false, Bool-cases, update, update_self, ltb,
  List, [], ◌∷◌, Option, some, arith,
}
use ucorebook_code.Mm.Tree.{insert_by, Ops, IsTree}
use ucorebook_code.Mm.Vmm.{Vma, Mm, set_vma, insert_vma_struct}
use ucorebook_code.Mm.Vmm.Order.{In, or_else}
use ucorebook_code.Mm.Vmm.Place.{key_of, Apart, Apart-In}
use ucorebook_code.Mm.Vmm.Insert.{insert_vma_struct-links}
use ucorebook_code.Mm.Vmm.Flags.{flags_at, covers, flags_at-insert_by}
use ucorebook_code.Mm.Vmm.Agree.{
  IsAligned, AllAligned, Agree, Agree-update, AllAligned-Agree, Apart-Agree, flags_at-Agree,
  set_vma-IsMm,
}
use ucorebook_code.Mm.Vmm.Collect.{
  IsFree, Collecting, IsCleared, flags_at-Apart, flags_at-cons-true, flags_at-cons-false,
}

-- A part of the area `v`, with its flags.
abbrev pub IsPart : Vma → Vma → Type 0
IsPart v w =
    (v.vm_start ≤ w.vm_start)
    × (w.vm_start < w.vm_end)
    × (w.vm_end ≤ v.vm_end)
    × (w.vm_flags ≡ v.vm_flags)

module _ (f : ℕ → Vma) where
  pub Apart-not_In :
      (a : ℕ) (xs : List ℕ) → (f a).vm_start < (f a).vm_end → Apart f a xs → In a xs → ⊥
  Apart-not_In a xs s d h = elim (Apart-In f a xs a d h) [
    | inl e ↦ omega arith
    | inr e ↦ omega arith
  ]

  Apart-insert_by :
      (a x : ℕ) (xs : List ℕ)
      → ((f x).vm_end ≤ (f a).vm_start) ⊎ ((f a).vm_end ≤ (f x).vm_start)
      → Apart f a xs
      → Apart f a (insert_by (key_of f) x xs)
  Apart-insert_by a x [] d ds = (d, tt)
  Apart-insert_by a x (y ∷ ys) d (e, ds) = elim (Bool-cases (ltb (f x).vm_start (f y).vm_start)) [
    | inl t ↦ rw t (d, (e, ds))
    | inr t ↦ rw t (e, Apart-insert_by a x ys d ds)
  ]

  pub AllAligned-insert_by :
      (x : ℕ) (xs : List ℕ)
      → IsAligned (f x)
      → AllAligned f xs
      → AllAligned f (insert_by (key_of f) x xs)
  AllAligned-insert_by x [] d ds = (d, tt)
  AllAligned-insert_by x (y ∷ ys) d (e, ds) =
      elim (Bool-cases (ltb (f x).vm_start (f y).vm_start)) [
        | inl t ↦ rw t (d, (e, ds))
        | inr t ↦ rw t (e, AllAligned-insert_by x ys d ds)
      ]

  IsFree-insert_by :
      (start end' x : ℕ) (xs ys : List ℕ)
      → Apart f x ys
      → IsFree f start end' xs ys
      → IsFree f start end' (insert_by (key_of f) x xs) ys
  IsFree-insert_by start end' x xs [] d h = tt
  IsFree-insert_by start end' x xs (y ∷ ys) (d, ds) (a, b, c, e, g, k, h) = (
    a,
    b,
    c,
    e,
    Apart-insert_by y x xs (elim d [ inl l ↦ inr l | inr l ↦ inl l ]) g,
    k,
    IsFree-insert_by start end' x xs ys ds h,
  )

  Apart-IsPart :
      (g : ℕ → Vma) (x : ℕ) (ys : List ℕ)
      → IsPart (f x) (g x)
      → Agree f g ys
      → Apart f x ys
      → Apart g x ys
  Apart-IsPart g x [] p h d = tt
  Apart-IsPart g x (y ∷ ys) (a, b, c, q) (e, h) (d, ds) = (
    (elim d [ inl l ↦ inl (rw e (omega arith)) | inr l ↦ inr (rw e (omega arith)) ]),
    Apart-IsPart g x ys (a, b, c, q) h ds,
  )

  IsFree-Agree :
      (g : ℕ → Vma) (start end' : ℕ) (xs ys : List ℕ)
      → Agree f g xs
      → Agree f g ys
      → IsFree f start end' xs ys
      → IsFree g start end' xs ys
  IsFree-Agree g start end' xs [] hx hy h = tt
  IsFree-Agree g start end' xs (y ∷ ys) hx (e, hy) (a, b, c, d, k, l, h) = (
    rw e a,
    rw e b,
    rw e c,
    rw e d,
    Apart-Agree f g y xs e hx k,
    Apart-Agree f g y ys e hy l,
    IsFree-Agree g start end' xs ys hx hy h,
  )

module _ (ops : Ops) (law : IsTree ops) (got : Bool) (start end' : ℕ) (old : ℕ → Option ℕ) where
  -- The flags outside the range, with the area back in the list.
  put_back-outside :
      (f g : ℕ → Vma) (x addr : ℕ) (free xs : List ℕ)
      → Agree f g xs
      → Agree f g free
      → Apart f x free
      → Apart g x xs
      → covers g x addr ≡ covers f x addr
      → (g x).vm_flags ≡ (f x).vm_flags
      → or_else (flags_at g free addr) (flags_at g (insert_by (key_of g) x xs) addr)
        ≡ or_else (flags_at f (x ∷ free) addr) (flags_at f xs addr)
  put_back-outside f g x addr free xs hx hf df dx c q = elim (Bool-cases (covers f x addr)) [
    | inl t ↦
        rw
          (
            flags_at-insert_by g x xs addr dx,
            flags_at-Agree f g free addr hf,
            flags_at-cons-true f x free addr t,
            flags_at-Apart f x free addr df t,
            c,
            t,
            q,
          )
          refl
    | inr t ↦
        rw
          (
            flags_at-insert_by g x xs addr dx,
            flags_at-Agree f g free addr hf,
            flags_at-Agree f g xs addr hx,
            flags_at-cons-false f x free addr t,
            c,
            t,
          )
          refl
  ]

  not_covered :
      (f : ℕ → Vma) (x : ℕ) (v : Vma) (addr : ℕ)
      → (v.vm_end ≤ start) ⊎ (end' ≤ v.vm_start)
      → start ≤ addr
      → addr < end'
      → covers (update f x v) x addr ≡ false
  unfolding covers
  not_covered f x v addr (inl e) l h = rw (update_self f x v) (ground arith)
  not_covered f x v addr (inr e) l h = rw (update_self f x v) (ground arith)

  -- A part of an area of the free list, outside the range, goes back to the space.
  pub put_back :
      (x : ℕ) (v : Vma) (free : List ℕ) (m : Mm)
      → Collecting start end' old (x ∷ free) m
      → IsCleared start end' m
      → IsPart (m.vmas x) v
      → IsAligned v
      → (v.vm_end ≤ start) ⊎ (end' ≤ v.vm_start)
      → ((addr : ℕ)
          → (addr < start) ⊎ (end' ≤ addr)
          → covers (update m.vmas x v) x addr ≡ covers m.vmas x addr)
      → (m' : Mm) × (insert_vma_struct ops got x (set_vma x v m) ≡ some m')
        × Collecting start end' old free m'
        × IsCleared start end' m'
  unfolding set_vma
  put_back x v free m c cl p al out same =
      let f = m.vmas in
      let g = update f x v in
      let (sx, lx, me, ax, dl, df, fr) = c.is_free in
      let n = Apart-not_In f x m.mmap_list sx dl in
      let nf = Apart-not_In f x free sx df in
      let gx : g x ≡ v = update_self f x v in
      let hx = Agree-update f x v m.mmap_list n in
      let hf = Agree-update f x v free nf in
      let p' : IsPart (f x) (g x) = rw gx p in
      let dl' = Apart-IsPart f g x m.mmap_list p' hx dl in
      let df' = Apart-IsPart f g x free p' hf df in
      let wf = set_vma-IsMm x v m c.well_formed n in
      let new : ((g x).vm_start < (g x).vm_end) × Apart g x m.mmap_list =
        (let (a, b, c', q) = p in rw gx b, dl') in
      let (m', run, ins) = insert_vma_struct-links ops law got x (set_vma x v m) wf new in
      let fr' =
        IsFree-insert_by g start end' x m.mmap_list free df'
          (IsFree-Agree f g start end' m.mmap_list free hx hf fr) in
      (
        m',
        run,
        record {
          well_formed = ins.well_formed;
          aligned =
              rw (ins.vmas, ins.list)
                (AllAligned-insert_by g x m.mmap_list (rw gx al)
                  (AllAligned-Agree f g m.mmap_list hx c.aligned));
          is_free = rw (ins.vmas, ins.list) fr';
          outside = λ addr h.
              rw (ins.vmas, ins.list)
                (put_back-outside f g x addr free m.mmap_list hx hf df dl' (same addr h)
                    (let (a, b, c', q) = p in rw gx q)
                  ∙ c.outside addr h);
        },
        λ addr l h.
            rw
              (
                ins.vmas,
                ins.list,
                flags_at-insert_by g x m.mmap_list addr dl',
                not_covered f x v addr out l h,
                flags_at-Agree f g m.mmap_list addr hx,
              )
              (cl addr l h),
      )
