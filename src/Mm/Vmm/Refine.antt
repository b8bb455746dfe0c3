-- ===== src/Mm/Vmm/Refine.antt =====
-- kern/mm/vmm.c: `mm_unmap` and `mm_map` as changes of the flags of the addresses.
use ucorebook_code.Prelude.{
  ◌++◌, ℕ, ◌%◌, ◌≤◌, ◌<◌, ◌≡◌, ◌⊎◌, inl, inr, refl, Bool, Bool-cases, ltb, leb, List, [], ◌∷◌,
  Option, none, some, arith, ◌&&◌, if◌then◌else◌,
}
use ucorebook_code.Prelude.Errno.{Result, ok, err, e_no_mem}
use ucorebook_code.Mm.Tree.{Ops, IsTree}
use ucorebook_code.Mm.Vmm.{Vma, Mm, pgsize, find_vma_list}
use ucorebook_code.Mm.Vmm.Order.{In, IsOrdered, IsOrdered-right}
use ucorebook_code.Mm.Vmm.Find.{IsMm}
use ucorebook_code.Mm.Vmm.Flags.{flags_at, find_vma_list-split}
use ucorebook_code.Mm.Vmm.Agree.{AllAligned}
use ucorebook_code.Mm.Vmm.Collect.{HasShmem, MeetsEach, Collecting, collect-IsCleared, flags_at-nil}
use ucorebook_code.Mm.Vmm.Unmap.{give_parts-IsGivenBack}
use ucorebook_code.Mm.Vmm.Map.{collect, from_area, give_parts}

-- A space whose areas are whole pages.
pub record IsSpace (m : Mm) : Type 0 where
  pub well_formed : IsMm m
  pub aligned : AllAligned m.vmas m.mmap_list

-- The flags of an address.
unfoldable pub mapped : Mm → ℕ → Option ℕ
mapped m addr = flags_at m.vmas m.mmap_list addr

unfoldable pub in_range : ℕ → ℕ → ℕ → Bool
in_range start end' addr = leb start addr && ltb addr end'

-- The addresses of the range have no flags any more, and the others have those they had.
pub record IsUnmapped (start end' : ℕ) (m m' : Mm) : Type 0 where
  pub space : IsSpace m'
  pub flags :
      (addr : ℕ) → mapped m' addr ≡ (if in_range start end' addr then none else mapped m addr)

module _ (start end' : ℕ) (m : Mm) where
  -- What the call may end with.
  abbrev pub IsUnmapOutcome : Option ℕ → Result ℕ × Mm → Type 0
  IsUnmapOutcome mem r =
      ((r.0 ≡ ok 0) × IsUnmapped start end' m r.1)
      ⊎ ((r.0 ≡ err e_no_mem)
          × (mem ≡ none)
          × IsSpace r.1
          × ((addr : ℕ) → mapped r.1 addr ≡ mapped m addr))

  pub unmapped_flags :
      (m' : Mm)
      → ((addr : ℕ) → (addr < start) ⊎ (end' ≤ addr) → mapped m' addr ≡ mapped m addr)
      → ((addr : ℕ) → start ≤ addr → addr < end' → mapped m' addr ≡ none)
      → (addr : ℕ) → mapped m' addr ≡ (if in_range start end' addr then none else mapped m addr)
  unfolding in_range
  unmapped_flags m' o i addr = elim (Bool-cases (leb start addr)) [
    | inr a ↦ rw (a, o addr (inl (ground arith))) refl
    | inl a ↦ elim (Bool-cases (ltb addr end')) [
      | inl b ↦ rw (a, b, i addr (ground arith) (ground arith)) refl
      | inr b ↦ rw (a, b, o addr (inr (ground arith))) refl
    ]
  ]

  -- A range that no area has a part of.
  pub IsUnmapped-already :
      ((addr : ℕ) → start ≤ addr → addr < end' → mapped m addr ≡ none)
      → IsSpace m
      → IsUnmapped start end' m m
  IsUnmapped-already h s = record { space = s; flags = unmapped_flags m (λ addr l. refl) h }

-- Each shared area of the list has its shared memory.
abbrev pub AllHaveShmem : (ℕ → Vma) → List ℕ → Type 0
AllHaveShmem f xs = (x : ℕ) → In x xs → HasShmem (f x)

In-++-right : (pre : List ℕ) (x : ℕ) (xs : List ℕ) → In x xs → In x (pre ++ xs)
In-++-right [] x xs i = i
In-++-right (y ∷ pre) x xs i = inr (In-++-right pre x xs i)

MeetsEach-IsOrdered :
    (f : ℕ → Vma) (start end' lo : ℕ) (xs : List ℕ)
    → start ≤ lo
    → IsOrdered f lo xs
    → AllHaveShmem f xs
    → MeetsEach f start end' xs
MeetsEach-IsOrdered f start end' lo [] l o sh = tt
MeetsEach-IsOrdered f start end' lo (x ∷ xs) l (lx, sx, o) sh = (
  (omega arith, inl (omega arith), sh x (inl refl)),
  MeetsEach-IsOrdered f start end' (f x).vm_end xs (omega arith) o (λ y i. sh y (inr i)),
)

module _ (ops : Ops) (law : IsTree ops) (got : Bool) (start end' : ℕ) (sa : start % pgsize ≡ 0)
    (ea : end' % pgsize ≡ 0) (se : start < end') where
  -- The two loops.
  pub loops_lem :
      (x : ℕ) (m : Mm)
      → IsSpace m
      → find_vma_list m.vmas m.mmap_list start ≡ some x
      → (start ≤ (m.vmas x).vm_start) ⊎ ((m.vmas x).vm_end ≤ end')
      → AllHaveShmem m.vmas m.mmap_list
      → (m' : Mm) × (give_parts ops got start end'
            (collect ops got end' [] (from_area x m.mmap_list) m).0
            (collect ops got end' [] (from_area x m.mmap_list) m).1
          ≡ some m')
        × IsUnmapped start end' m m'
  unfolding mapped
  loops_lem x m s e far sh =
      let f = m.vmas in
      let (pre, ys, q, b, lx, fr) =
        find_vma_list-split f 0 m.mmap_list start x s.well_formed.ordered e in
      let (lo, ends, opre, (lx', sx, oys)) =
        IsOrdered-right f pre 0 x ys (rw q at s.well_formed.ordered) in
      let sh' : AllHaveShmem f (x ∷ ys) = λ y i. sh y (rw q (In-++-right pre y (x ∷ ys) i)) in
      let each : MeetsEach f start end' (x ∷ ys) = (
        (lx, far, sh' x (inl refl)),
        MeetsEach-IsOrdered f start end' (f x).vm_end ys (omega arith) oys (λ y i. sh' y (inr i)),
      ) in
      let c : Collecting start end' (flags_at f m.mmap_list) [] m = record {
        well_formed = s.well_formed;
        aligned = s.aligned;
        is_free = tt;
        outside = λ addr h. rw (flags_at-nil f addr) refl;
      } in
      let (c', cl) =
        collect-IsCleared ops law got start end' (flags_at f m.mmap_list) pre (x ∷ ys) [] m c q b
          each in
      let (m', run, c'', cl') =
        give_parts-IsGivenBack start end' (flags_at f m.mmap_list) ops law got sa ea se
          (collect ops got end' [] (x ∷ ys) m).0 (collect ops got end' [] (x ∷ ys) m).1 c' cl in
      (
        m',
        rw fr run,
        record {
          space = record { well_formed = c''.well_formed; aligned = c''.aligned };
          flags =
              unmapped_flags start end' m m'
                (λ addr h. rw (flags_at-nil m'.vmas addr) at (c''.outside addr h)) cl';
        },
      )
