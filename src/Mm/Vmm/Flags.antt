-- ===== src/Mm/Vmm/Flags.antt =====
-- The abstract view of an address space: the flags of an address, where some area has it. How they
-- change when an area is linked in or taken out.
use ucorebook_code.Prelude.{
  ℕ, ◌≤◌, ◌<◌, ◌≡◌, ◌≢◌, ◌⊎◌, inl, inr, refl, ap, Bool, true, false, Bool-cases, ltb, leb, List, [],
  ◌∷◌, ◌++◌, Option, none, some, arith, ◌&&◌, if◌then◌else◌,
}
use ucorebook_code.Mm.Tree.{insert_by}
use ucorebook_code.Mm.Vmm.{Vma, find_vma_list}
use ucorebook_code.Mm.Vmm.Order.{IsOrdered, EndsBy, or_else}
use ucorebook_code.Mm.Vmm.Place.{key_of, Apart}
use ucorebook_code.Mm.Vmm.Map.{from_area}

module _ (f : ℕ → Vma) where
  unfoldable pub covers : ℕ → ℕ → Bool
  covers x addr = leb (f x).vm_start addr && ltb addr (f x).vm_end

  unfoldable pub flags_at : List ℕ → ℕ → Option ℕ
  flags_at [] addr = none
  flags_at (x ∷ xs) addr =
      let rest = flags_at xs addr in if covers x addr then some (f x).vm_flags else rest

  pub flags_at-EndsBy :
      (xs : List ℕ) (hi addr : ℕ) → EndsBy f hi xs → hi ≤ addr → flags_at xs addr ≡ none
  unfolding flags_at covers
  flags_at-EndsBy [] hi addr e h = refl
  flags_at-EndsBy (x ∷ xs) hi addr (e, es) h =
      let ih = flags_at-EndsBy xs hi addr es h in ground arith

  pub flags_at-below :
      (xs : List ℕ) (lo addr : ℕ) → IsOrdered f lo xs → addr < lo → flags_at xs addr ≡ none
  unfolding flags_at covers
  flags_at-below [] lo addr o h = refl
  flags_at-below (x ∷ xs) lo addr (l, s, o) h =
      let ih = flags_at-below xs (f x).vm_end addr o (omega arith) in ground arith

  pub flags_at-++ :
      (xs ys : List ℕ) (addr : ℕ)
      → flags_at (xs ++ ys) addr ≡ or_else (flags_at xs addr) (flags_at ys addr)
  unfolding flags_at
  flags_at-++ [] ys addr = refl
  flags_at-++ (x ∷ xs) ys addr = elim (Bool-cases (covers x addr)) [
    | inl t ↦ rw t refl
    | inr t ↦ rw t (flags_at-++ xs ys addr)
  ]

  pub covers-apart :
      (a x addr : ℕ)
      → ((f x).vm_end ≤ (f a).vm_start) ⊎ ((f a).vm_end ≤ (f x).vm_start)
      → covers x addr ≡ true
      → covers a addr ≡ false
  unfolding covers
  covers-apart a x addr (inl e) c = ground arith
  covers-apart a x addr (inr e) c = ground arith

  pub flags_at-insert_by :
      (a : ℕ) (xs : List ℕ) (addr : ℕ)
      → Apart f a xs
      → flags_at (insert_by (key_of f) a xs) addr
        ≡ (if covers a addr then some (f a).vm_flags else flags_at xs addr)
  unfolding flags_at
  flags_at-insert_by a [] addr d = refl
  flags_at-insert_by a (x ∷ xs) addr (d, ds) =
      elim (Bool-cases (ltb (f a).vm_start (f x).vm_start)) [
        | inl t ↦ rw t refl
        | inr t ↦
            let ih = flags_at-insert_by a xs addr ds in
            elim (Bool-cases (covers x addr)) [
              | inl u ↦ rw (t, u, covers-apart a x addr d u) refl
              | inr u ↦ rw (t, u, ih) refl
            ]
      ]

  -- What the search along the list skips is below the address.
  pub find_vma_list-split :
      (lo : ℕ) (xs : List ℕ) (addr x : ℕ)
      → IsOrdered f lo xs
      → find_vma_list f xs addr ≡ some x
      → (pre : List ℕ) × (ys : List ℕ) × (xs ≡ pre ++ x ∷ ys)
        × EndsBy f addr pre
        × (addr < (f x).vm_end)
        × (from_area x xs ≡ x ∷ ys)
  unfolding find_vma_list from_area
  find_vma_list-split lo [] addr x o e = cc
  find_vma_list-split lo (y ∷ ys) addr x (l, s, o) e = elim (Bool-cases (ltb addr (f y).vm_end)) [
    | inl t ↦
        let same : y ≡ x = ground arith in
        rw (← same) ([], ys, refl, tt, ground arith, ground arith)
    | inr t ↦
        let e' : find_vma_list f ys addr ≡ some x = rw t at e in
        let (pre, zs, q, b, lx, fr) = find_vma_list-split (f y).vm_end ys addr x o e' in
        let ne : y ≢ x = λ z. absurd (let k = ap (λ w. (f w).vm_end) z in ground arith) in
        (y ∷ pre, zs, ap (λ w. y ∷ w) q, (ground arith, b), lx, ground arith)
  ]
