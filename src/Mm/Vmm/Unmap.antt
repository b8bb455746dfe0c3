-- ===== src/Mm/Vmm/Unmap.antt =====
-- kern/mm/vmm.c: `mm_unmap` takes the range out of the space and leaves the rest.
use ucorebook_code.Prelude.{
  ℕ, ◌+◌, ◌-◌, ◌%◌, ◌≤◌, ◌<◌, ◌≡◌, ◌⊎◌, inl, inr, refl, sym, ◌∙◌, ap, Bool, true, false, Bool-cases,
  update, update_self, ◌>>=◌, ltb, leb, ◌==◌, List, [], ◌∷◌, Option, none, some, is_some, arith,
  ◌&&◌, if◌then◌else◌, length,
}
use ucorebook_code.Mm.Tree.{Ops, IsTree}
use ucorebook_code.Mm.Vmm.{
  Vma, Mm, pgsize, word, set_vma, has, vm_share, insert_vma_struct, vma_destroy, drop_shmem,
  shmem_ref_dec,
}
use ucorebook_code.Mm.Vmm.Order.{or_else}
use ucorebook_code.Mm.Vmm.Find.{IsMm}
use ucorebook_code.Mm.Vmm.Flags.{flags_at, covers}
use ucorebook_code.Mm.Vmm.Collect.{HasShmem, Collecting, IsCleared, flags_at-cons-false}
use ucorebook_code.Mm.Vmm.GiveBack.{put_back}
use ucorebook_code.Mm.Vmm.Map.{vma_resize, unmap_range, give_part, give_parts}

-- The area with new bounds.
abbrev pub resized : ℕ → ℕ → Vma → Vma
resized start end' v = record v {
  shmem_off =
      if has v.vm_flags vm_share then (v.shmem_off + (start - v.vm_start)) % word else v.shmem_off;
  vm_start = start;
  vm_end = end';
}

pub vma_resize_eq :
    (x start end' : ℕ) (m : Mm)
    → start % pgsize ≡ 0
    → end' % pgsize ≡ 0
    → (m.vmas x).vm_start ≤ start
    → start < end'
    → end' ≤ (m.vmas x).vm_end
    → vma_resize x start end' m ≡ some (set_vma x (resized start end' (m.vmas x)) m)
unfolding vma_resize
vma_resize_eq x start end' m a b c d e =
    let t : (start % pgsize == 0 && end' % pgsize == 0) ≡ true = rw (a, b) refl in
    let u : (leb (m.vmas x).vm_start start && (ltb start end' && leb end' (m.vmas x).vm_end))
        ≡ true =
      ground arith in
    rw (t, u) refl

-- Two states that have the same space.
pub record SameSpace (m m' : Mm) : Type 0 where
  pub vmas : m'.vmas ≡ m.vmas
  pub list : m'.mmap_list ≡ m.mmap_list
  pub tree : m'.mmap_tree ≡ m.mmap_tree
  pub cache : m'.mmap_cache ≡ m.mmap_cache
  pub count : m'.map_count ≡ m.map_count

unmap_range-SameSpace : (start end' : ℕ) (m : Mm) → SameSpace m (unmap_range start end' m)
unfolding unmap_range
unmap_range-SameSpace start end' m = record {
  vmas = refl;
  list = refl;
  tree = refl;
  cache = refl;
  count = refl;
}

SameSpace-if :
    (b : Bool) (m m₁ m₂ : Mm) → SameSpace m m₁ → SameSpace m m₂ → SameSpace m (if b then m₁ else m₂)
SameSpace-if true m m₁ m₂ s t = s
SameSpace-if false m m₁ m₂ s t = t

-- What `vma_destroy` does to the rest, where it can reach the shared memory.
abbrev IsDestroyed : Mm → Option Mm → Type 0
IsDestroyed m o = (m' : Mm) × (o ≡ some m') × SameSpace m m'

drop_shmem-SameSpace : (o : Option ℕ) (m : Mm) → is_some o ≡ true → IsDestroyed m (drop_shmem o m)
unfolding drop_shmem shmem_ref_dec
drop_shmem-SameSpace none m h = absurd cc
drop_shmem-SameSpace (some s) m h = (
  _,
  refl,
  SameSpace-if (m.shmem_ref s == 1) m _ _
      (record { vmas = refl; list = refl; tree = refl; cache = refl; count = refl })
      (record { vmas = refl; list = refl; tree = refl; cache = refl; count = refl }),
)

vma_destroy-SameSpace : (a : ℕ) (m : Mm) → HasShmem (m.vmas a) → IsDestroyed m (vma_destroy a m)
unfolding vma_destroy
vma_destroy-SameSpace a m h = elim (Bool-cases (has (m.vmas a).vm_flags vm_share)) [
  | inl t ↦
      let (m', e, s) = drop_shmem-SameSpace (m.vmas a).shmem m (h t) in
      (
        record m' { freed = a ∷ m'.freed },
        rw (t, e) refl,
        record { vmas = s.vmas; list = s.list; tree = s.tree; cache = s.cache; count = s.count },
      )
  | inr t ↦ (
    record m { freed = a ∷ m.freed },
    rw t refl,
    record { vmas = refl; list = refl; tree = refl; cache = refl; count = refl },
  )
]

SameSpace-IsMm : (m m' : Mm) → SameSpace m m' → IsMm m → IsMm m'
SameSpace-IsMm m m' s i = record {
  ordered = rw (s.vmas, s.list) i.ordered;
  in_tree = λ t e. rw s.list (i.in_tree t (sym s.tree ∙ e));
  in_cache = λ x e. rw s.list (i.in_cache x (sym s.cache ∙ e));
  counted = s.count ∙ i.counted ∙ ap length (sym s.list);
}

module _ (start end' : ℕ) (old : ℕ → Option ℕ) where
  SameSpace-Collecting :
      (m m' : Mm) (free : List ℕ)
      → SameSpace m m'
      → Collecting start end' old free m
      → Collecting start end' old free m'
  SameSpace-Collecting m m' free s c = record {
    well_formed = SameSpace-IsMm m m' s c.well_formed;
    aligned = rw (s.vmas, s.list) c.aligned;
    is_free = rw (s.vmas, s.list) c.is_free;
    outside = λ addr h. rw (s.vmas, s.list) (c.outside addr h);
  }

  SameSpace-IsCleared :
      (m m' : Mm) → SameSpace m m' → IsCleared start end' m → IsCleared start end' m'
  SameSpace-IsCleared m m' s c = λ addr l h. rw (s.vmas, s.list) (c addr l h)

  not_inside :
      (f : ℕ → Vma) (x addr : ℕ)
      → start ≤ (f x).vm_start
      → (f x).vm_end ≤ end'
      → (addr < start) ⊎ (end' ≤ addr)
      → covers f x addr ≡ false
  unfolding covers
  not_inside f x addr a b (inl h) = ground arith
  not_inside f x addr a b (inr h) = ground arith

  -- An area inside the range is dropped.
  drop_head :
      (x : ℕ) (free : List ℕ) (m : Mm)
      → Collecting start end' old (x ∷ free) m
      → start ≤ (m.vmas x).vm_start
      → (m.vmas x).vm_end ≤ end'
      → Collecting start end' old free m
  drop_head x free m c a b =
      let (sx, lx, me, ax, dl, df, fr) = c.is_free in
      record {
        well_formed = c.well_formed;
        aligned = c.aligned;
        is_free = fr;
        outside = λ addr h.
            sym (
              ap (λ o. or_else o (flags_at m.vmas m.mmap_list addr))
                (flags_at-cons-false m.vmas x free addr (not_inside m.vmas x addr a b h)))
            ∙ c.outside addr h;
      }

  same_front :
      (f : ℕ → Vma) (x addr : ℕ)
      → (f x).vm_end ≤ end'
      → start < (f x).vm_end
      → (addr < start) ⊎ (end' ≤ addr)
      → covers (update f x (resized (f x).vm_start start (f x))) x addr ≡ covers f x addr
  unfolding covers
  same_front f x addr a b (inl h) =
      rw (update_self f x (resized (f x).vm_start start (f x))) (ground arith)
  same_front f x addr a b (inr h) =
      rw (update_self f x (resized (f x).vm_start start (f x))) (ground arith)

  same_rear :
      (f : ℕ → Vma) (x addr : ℕ)
      → start ≤ (f x).vm_start
      → (f x).vm_start < end'
      → start < end'
      → (addr < start) ⊎ (end' ≤ addr)
      → covers (update f x (resized end' (f x).vm_end (f x))) x addr ≡ covers f x addr
  unfolding covers
  same_rear f x addr a b c (inl h) =
      rw (update_self f x (resized end' (f x).vm_end (f x))) (ground arith)
  same_rear f x addr a b c (inr h) =
      rw (update_self f x (resized end' (f x).vm_end (f x))) (ground arith)

  -- The state after the second loop has taken care of an area.
  abbrev pub IsGivenBack : List ℕ → Option Mm → Type 0
  IsGivenBack free o =
      (m : Mm) × (o ≡ some m) × Collecting start end' old free m × IsCleared start end' m

  add_range :
      (s e : ℕ) (free : List ℕ) (o : Option Mm)
      → IsGivenBack free o
      → IsGivenBack free (o >>= λ m. some (unmap_range s e m))
  add_range s e free o (m, q, c, cl) =
      let same = unmap_range-SameSpace s e m in
      (
        unmap_range s e m,
        rw q refl,
        SameSpace-Collecting m _ free same c,
        SameSpace-IsCleared m _ same cl,
      )

  module _ (ops : Ops) (law : IsTree ops) (got : Bool) (sa : start % pgsize ≡ 0)
      (ea : end' % pgsize ≡ 0) (se : start < end') where
    give_front :
        (x : ℕ) (free : List ℕ) (m : Mm)
        → Collecting start end' old (x ∷ free) m
        → IsCleared start end' m
        → (m.vmas x).vm_start < start
        → IsGivenBack free (
            insert_vma_struct ops got x
              (set_vma x (resized (m.vmas x).vm_start start (m.vmas x)) m))
    give_front x free m c cl l =
        let (sx, lx, (me, far, sh), ax, dl, df, fr) = c.is_free in
        let room : (m.vmas x).vm_end ≤ end' = elim far [
          | inl h ↦ absurd (omega arith)
          | inr h ↦ h
        ] in
        put_back ops law got start end' old x (resized (m.vmas x).vm_start start (m.vmas x)) free m
          c cl (omega arith, l, omega arith, refl) (ax.0, sa) (inl (omega arith))
          (λ addr h. same_front m.vmas x addr room me h)

    give_rear :
        (x : ℕ) (free : List ℕ) (m : Mm)
        → Collecting start end' old (x ∷ free) m
        → IsCleared start end' m
        → start ≤ (m.vmas x).vm_start
        → end' < (m.vmas x).vm_end
        → IsGivenBack free
            (insert_vma_struct ops got x (set_vma x (resized end' (m.vmas x).vm_end (m.vmas x)) m))
    give_rear x free m c cl l r =
        let (sx, lx, (me, far, sh), ax, dl, df, fr) = c.is_free in
        put_back ops law got start end' old x (resized end' (m.vmas x).vm_end (m.vmas x)) free m c
          cl (omega arith, r, omega arith, refl) (ea, ax.1) (inr (omega arith))
          (λ addr h. same_rear m.vmas x addr l lx se h)

    -- One round of the second loop: no assertion fails.
    give_part-IsGivenBack :
        (x : ℕ) (free : List ℕ) (m : Mm)
        → Collecting start end' old (x ∷ free) m
        → IsCleared start end' m
        → IsGivenBack free (give_part ops got start end' x m)
    unfolding give_part
    give_part-IsGivenBack x free m c cl =
        let (sx, lx, (me, far, sh), ax, dl, df, fr) = c.is_free in
        elim (Bool-cases (ltb (m.vmas x).vm_start start)) [
          | inl t ↦
              rw
                (
                  give_part,
                  t,
                  vma_resize_eq x (m.vmas x).vm_start start m ax.0 sa (omega arith) (ground arith)
                      (omega arith),
                )
                (add_range start (m.vmas x).vm_end free _ (give_front x free m c cl (ground arith)))
          | inr t ↦ elim (Bool-cases (ltb end' (m.vmas x).vm_end)) [
            | inl u ↦
                rw
                  (
                    give_part,
                    t,
                    u,
                    vma_resize_eq x end' (m.vmas x).vm_end m ea ax.1 (omega arith) (ground arith)
                        (omega arith),
                  )
                  (add_range (m.vmas x).vm_start end' free _
                    (give_rear x free m c cl (ground arith) (ground arith)))
            | inr u ↦
                let (m', gone, same) = vma_destroy-SameSpace x m sh in
                rw (give_part, t, u, gone)
                  (add_range (m.vmas x).vm_start (m.vmas x).vm_end free (some m') (
                    m',
                    refl,
                    SameSpace-Collecting m _ free same
                        (drop_head x free m c (ground arith) (ground arith)),
                    SameSpace-IsCleared m _ same cl,
                  ))
          ]
        ]

    pub give_parts-IsGivenBack :
        (free : List ℕ) (m : Mm)
        → Collecting start end' old free m
        → IsCleared start end' m
        → IsGivenBack [] (give_parts ops got start end' free m)
    unfolding give_parts
    give_parts-IsGivenBack [] m c cl = (m, refl, c, cl)
    give_parts-IsGivenBack (x ∷ free) m c cl =
        let (m', q, c', cl') = give_part-IsGivenBack x free m c cl in
        rw q (give_parts-IsGivenBack free m' c' cl')
