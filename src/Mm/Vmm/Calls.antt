-- ===== src/Mm/Vmm/Calls.antt =====
-- kern/mm/vmm.c: what `mm_unmap` and `mm_map` do to the flags of the addresses, on every branch.
use ucorebook_code.Prelude.{
  ℕ, ◌%◌, ◌≤◌, ◌<◌, ◌≡◌, inl, inr, refl, sym, true, Bool-cases, ltb, List, [], ◌∷◌, ◌++◌, none,
  some, arith,
}
use ucorebook_code.Mm.Vmm.{Vma, Mm, pgsize, page_down, user_access, find_vma_list}
use ucorebook_code.Mm.Vmm.Order.{IsOrdered, EndsBy, IsOrdered-right}
use ucorebook_code.Mm.Vmm.Lists.{++-nil}
use ucorebook_code.Mm.Vmm.Flags.{
  flags_at, find_vma_list-split, flags_at-++, flags_at-EndsBy, flags_at-below,
}

module _ (f : ℕ → Vma) where
  find_vma_list-none : (xs : List ℕ) (addr : ℕ) → find_vma_list f xs addr ≡ none → EndsBy f addr xs
  unfolding find_vma_list
  find_vma_list-none [] addr e = tt
  find_vma_list-none (x ∷ xs) addr e = elim (Bool-cases (ltb addr (f x).vm_end)) [
    | inl t ↦ absurd (let e' = rw t at e in cc)
    | inr t ↦ (ground arith, find_vma_list-none xs addr (rw t at e))
  ]

  -- No area has a part of the range.
  abbrev pub IsUnused : ℕ → ℕ → List ℕ → Type 0
  IsUnused start end' xs =
      (pre : List ℕ) × (ys : List ℕ) × (xs ≡ pre ++ ys) × EndsBy f start pre × IsOrdered f end' ys

  pub IsUnused-flags :
      (start end' : ℕ) (xs : List ℕ) (addr : ℕ)
      → IsUnused start end' xs
      → start ≤ addr
      → addr < end'
      → flags_at f xs addr ≡ none
  IsUnused-flags start end' xs addr (pre, ys, q, b, o) l h =
      rw
        (
          q,
          flags_at-++ f pre ys addr,
          flags_at-EndsBy f pre start addr b l,
          flags_at-below f ys end' addr o h,
        )
        refl

  -- What was found starts behind the range.
  pub found-IsUnused :
      (start end' x : ℕ) (xs : List ℕ)
      → IsOrdered f 0 xs
      → find_vma_list f xs start ≡ some x
      → end' ≤ (f x).vm_start
      → IsUnused start end' xs
  found-IsUnused start end' x xs o e l =
      let (pre, ys, q, b, lx, fr) = find_vma_list-split f 0 xs start x o e in
      let (lo, ends, opre, (lx', sx, oys)) = IsOrdered-right f pre 0 x ys (rw q at o) in
      (pre, x ∷ ys, q, b, (l, sx, oys))

  pub none-IsUnused :
      (start end' : ℕ) (xs : List ℕ) → find_vma_list f xs start ≡ none → IsUnused start end' xs
  none-IsUnused start end' xs e = (xs, [], sym (++-nil xs), find_vma_list-none xs start e, tt)

pub page_down_aligned : (a : ℕ) → page_down a % pgsize ≡ 0
page_down_aligned a = omega arith

pub start_below_end : (start end' : ℕ) → user_access start end' ≡ true → start < end'
start_below_end start end' u = ground arith
