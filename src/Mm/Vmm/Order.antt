-- ===== src/Mm/Vmm/Order.antt =====
-- kern/mm/vmm.c: areas in the order of their addresses, none of which meet, and the search in them.
pub use ucorebook_code.Prelude.{In}
use ucorebook_code.Prelude.{
  ℕ, ◌≤◌, ◌<◌, ◌≡◌, inl, inr, refl, sym, Bool-cases, ltb, leb, List, [], ◌∷◌, ◌++◌, Option, none,
  some, arith,
}
use ucorebook_code.Mm.Tree.{Tree, leaf, node, inorder}
use ucorebook_code.Mm.Vmm.{Vma, find_vma_list, find_vma_rb}

-- The first of two results that is there.
abbrev pub or_else : Option ℕ → Option ℕ → Option ℕ
or_else none o = o
or_else (some x) o = some x

or_else-found :
    (o : Option ℕ) (x : ℕ) (o' : Option ℕ) → or_else o (some x) ≡ or_else (or_else o (some x)) o'
or_else-found none x o' = refl
or_else-found (some y) x o' = refl

module _ (f : ℕ → Vma) where
  -- The areas are not empty, and each starts where the one before ended or behind.
  abbrev pub IsOrdered : ℕ → List ℕ → Type 0
  IsOrdered lo [] = Unit {0}
  IsOrdered lo (x ∷ xs) =
      (lo ≤ (f x).vm_start) × ((f x).vm_start < (f x).vm_end) × IsOrdered (f x).vm_end xs

  abbrev pub EndsBy : ℕ → List ℕ → Type 0
  EndsBy hi [] = Unit {0}
  EndsBy hi (x ∷ xs) = ((f x).vm_end ≤ hi) × EndsBy hi xs

module _ (f : ℕ → Vma) where
  pub IsOrdered-weaken :
      (xs : List ℕ) (lo lo' : ℕ) → lo' ≤ lo → IsOrdered f lo xs → IsOrdered f lo' xs
  IsOrdered-weaken [] lo lo' h o = tt
  IsOrdered-weaken (x ∷ xs) lo lo' h (l, s, o) = (omega arith, s, o)

  pub start-In : (xs : List ℕ) (lo : ℕ) (x : ℕ) → IsOrdered f lo xs → In x xs → lo ≤ (f x).vm_start
  start-In [] lo x o h = elim h [ ]
  start-In (y ∷ ys) lo x (l, s, o) (inl e) = rw e l
  start-In (y ∷ ys) lo x (l, s, o) (inr h) = let k = start-In ys (f y).vm_end x o h in omega arith

  pub area-In :
      (xs : List ℕ) (lo : ℕ) (x : ℕ) → IsOrdered f lo xs → In x xs → (f x).vm_start < (f x).vm_end
  area-In [] lo x o h = elim h [ ]
  area-In (y ∷ ys) lo x (l, s, o) (inl e) = rw e s
  area-In (y ∷ ys) lo x (l, s, o) (inr h) = area-In ys (f y).vm_end x o h

  pub IsOrdered-right :
      (xs : List ℕ) (lo : ℕ) (y : ℕ) (ys : List ℕ)
      → IsOrdered f lo (xs ++ y ∷ ys)
      → (lo ≤ (f y).vm_start)
        × EndsBy f (f y).vm_start xs
        × IsOrdered f lo xs
        × IsOrdered f (f y).vm_start (y ∷ ys)
  IsOrdered-right [] lo y ys (l, s, o) = (l, tt, tt, (omega arith, s, o))
  IsOrdered-right (x ∷ xs) lo y ys (l, s, o) =
      let (l', e, o', r) = IsOrdered-right xs (f x).vm_end y ys o in
      (omega arith, (omega arith, e), (l, s, o'), r)

  pub find_vma_list-++ :
      (xs ys : List ℕ) (addr : ℕ)
      → find_vma_list f (xs ++ ys) addr
        ≡ or_else (find_vma_list f xs addr) (find_vma_list f ys addr)
  unfolding find_vma_list
  find_vma_list-++ [] ys addr = refl
  find_vma_list-++ (x ∷ xs) ys addr = elim (Bool-cases (ltb addr (f x).vm_end)) [
    | inl t ↦ rw t refl
    | inr e ↦ rw e (find_vma_list-++ xs ys addr)
  ]

  pub find_vma_list-EndsBy :
      (xs : List ℕ) (hi : ℕ) (addr : ℕ)
      → EndsBy f hi xs
      → hi ≤ addr
      → find_vma_list f xs addr ≡ none
  unfolding find_vma_list
  find_vma_list-EndsBy [] hi addr e h = refl
  find_vma_list-EndsBy (x ∷ xs) hi addr (e, es) h =
      let rest = find_vma_list-EndsBy xs hi addr es h in ground arith

  pub find_vma_list-In :
      (xs : List ℕ) (lo : ℕ) (x addr : ℕ)
      → IsOrdered f lo xs
      → In x xs
      → (f x).vm_start ≤ addr
      → addr < (f x).vm_end
      → find_vma_list f xs addr ≡ some x
  unfolding find_vma_list
  find_vma_list-In [] lo x addr o h a b = elim h [ ]
  find_vma_list-In (y ∷ ys) lo x addr (l, s, o) (inl e) a b = rw e (ground arith)
  find_vma_list-In (y ∷ ys) lo x addr (l, s, o) (inr h) a b =
      let k = start-In ys (f y).vm_end x o h in
      let rest = find_vma_list-In ys (f y).vm_end x addr o h a b in ground arith

  pub In-find_vma_list :
      (xs : List ℕ) (x addr : ℕ)
      → find_vma_list f xs addr ≡ some x
      → In x xs × (addr < (f x).vm_end)
  unfolding find_vma_list
  In-find_vma_list [] x addr e = cc
  In-find_vma_list (y ∷ ys) x addr e = elim (Bool-cases (ltb addr (f y).vm_end)) [
    | inl t ↦ let q : y ≡ x = ground arith in (inl (sym q), rw (← q) (ground arith))
    | inr t ↦ let (i, l) = In-find_vma_list ys x addr (rw t at e) in (inr i, l)
  ]

  -- The search from the root of a tree finds what the search along the list finds.
  pub find_vma_rb_lem :
      (t : Tree) (lo : ℕ) (addr : ℕ) (vma : Option ℕ)
      → IsOrdered f lo (inorder t)
      → find_vma_rb f t addr vma ≡ or_else (find_vma_list f (inorder t) addr) vma
  unfolding find_vma_rb find_vma_list
  find_vma_rb_lem leaf lo addr vma o = refl
  find_vma_rb_lem (node red l x r) lo addr vma o =
      let (a, e, ol, (ox, s, or)) = IsOrdered-right (inorder l) lo x (inorder r) o in
      let il = find_vma_rb_lem l lo addr (some x) ol in
      let ir = find_vma_rb_lem r (f x).vm_end addr vma or in
      rw (find_vma_list-++ (inorder l) (x ∷ inorder r) addr)
        (elim (Bool-cases (ltb addr (f x).vm_end)) [
          | inl t ↦ elim (Bool-cases (leb (f x).vm_start addr)) [
            | inl u ↦
                rw
                  (
                    t,
                    find_vma_rb,
                    u,
                    find_vma_list-EndsBy (inorder l) (f x).vm_start addr e (ground arith),
                  )
                  refl
            | inr u ↦
                rw (t, find_vma_rb, u, il) (or_else-found (find_vma_list f (inorder l) addr) x vma)
          ]
          | inr t ↦
              rw
                (
                  t,
                  find_vma_rb,
                  find_vma_list-EndsBy (inorder l) (f x).vm_start addr e (ground arith),
                  ir,
                )
                refl
        ])
