-- ===== src/Mm/Vmm/Place.antt =====
-- kern/mm/vmm.c: where `insert_vma_struct` puts an area that meets none of the others.
use ucorebook_code.Prelude.{
  ℕ, ◌≤◌, ◌<◌, ◌≡◌, ◌≢◌, ◌⊎◌, inl, inr, refl, sym, ap, true, Bool-cases, ltb, List, [], ◌∷◌, Option,
  none, some, arith,
}
use ucorebook_code.Mm.Tree.{insert_by, IsIncreasing}
use ucorebook_code.Mm.Vmm.{
  Vma, find_prev, insert_after, next_of, check_prev, check_next, check_vma_overlap,
}
use ucorebook_code.Mm.Tree.{prev_in}
use ucorebook_code.Mm.Vmm.Order.{In, IsOrdered, start-In, area-In}

module _ (f : ℕ → Vma) where
  abbrev pub key_of : ℕ → ℕ
  key_of x = (f x).vm_start

  -- No area of the list meets the area `a`.
  abbrev pub Apart : ℕ → List ℕ → Type 0
  Apart a [] = Unit {0}
  Apart a (x ∷ xs) =
      (((f x).vm_end ≤ (f a).vm_start) ⊎ ((f a).vm_end ≤ (f x).vm_start)) × Apart a xs

  abbrev StartsAbove : ℕ → List ℕ → Type 0
  StartsAbove s [] = Unit {0}
  StartsAbove s (x ∷ xs) = s < (f x).vm_start

  pub Apart-In :
      (a : ℕ) (xs : List ℕ) (x : ℕ)
      → Apart a xs
      → In x xs
      → ((f x).vm_end ≤ (f a).vm_start) ⊎ ((f a).vm_end ≤ (f x).vm_start)
  Apart-In a [] x d h = elim h [ ]
  Apart-In a (y ∷ ys) x (d, ds) (inl e) = rw e d
  Apart-In a (y ∷ ys) x (d, ds) (inr h) = Apart-In a ys x ds h

  pub insert_by-IsOrdered :
      (lo a : ℕ) (xs : List ℕ)
      → lo ≤ (f a).vm_start
      → (f a).vm_start < (f a).vm_end
      → Apart a xs
      → IsOrdered f lo xs
      → IsOrdered f lo (insert_by key_of a xs)
  insert_by-IsOrdered lo a [] l s d o = (l, s, tt)
  insert_by-IsOrdered lo a (x ∷ xs) l s (d, ds) (lx, sx, o) =
      elim (Bool-cases (ltb (f a).vm_start (f x).vm_start)) [
        | inl t ↦ rw t (l, s, (elim d [ inl e ↦ absurd (ground arith) | inr e ↦ e ], sx, o))
        | inr t ↦
            let below : (f x).vm_end ≤ (f a).vm_start = elim d [
              | inl e ↦ e
              | inr e ↦ absurd (ground arith)
            ] in
            rw t (lx, sx, insert_by-IsOrdered (f x).vm_end a xs below s ds o)
      ]

  pub IsOrdered-IsIncreasing : (lo : ℕ) (xs : List ℕ) → IsOrdered f lo xs → IsIncreasing key_of xs
  IsOrdered-IsIncreasing lo [] o = tt
  IsOrdered-IsIncreasing lo (x ∷ []) o = tt
  IsOrdered-IsIncreasing lo (x ∷ y ∷ xs) (l, s, (l', s', o)) =
      (omega arith, IsOrdered-IsIncreasing (f x).vm_end (y ∷ xs) (l', s', o))

  -- In the tree the area before the new one is the one that the walk along the list ends with.
  pub prev_in-insert_by :
      (a : ℕ) (xs : List ℕ) (prev : Option ℕ)
      → (In a xs → ⊥)
      → prev_in a prev (insert_by key_of a xs) ≡ find_prev f xs (f a).vm_start prev
  unfolding prev_in find_prev
  prev_in-insert_by a [] prev n = ground arith
  prev_in-insert_by a (x ∷ xs) prev n = elim (Bool-cases (ltb (f a).vm_start (f x).vm_start)) [
    | inl t ↦ rw t (ground arith)
    | inr t ↦
        let rest = prev_in-insert_by a xs (some x) (λ h. n (inr h)) in
        let ne : x ≢ a = λ e. n (inl (sym e)) in rw t (ground arith)
  ]

  find_prev-cases :
      (s : ℕ) (xs : List ℕ)
      → (StartsAbove s xs × ((q : Option ℕ) → find_prev f xs s q ≡ q))
        ⊎ ((y : ℕ) × In y xs
            × ((f y).vm_start ≤ s)
            × ((q : Option ℕ) → find_prev f xs s q ≡ some y))
  unfolding find_prev
  find_prev-cases s [] = inl (tt, λ q. refl)
  find_prev-cases s (x ∷ xs) = elim (Bool-cases (ltb s (f x).vm_start)) [
    | inl t ↦ inl (ground arith, λ q. rw t refl)
    | inr t ↦ inr (elim (find_prev-cases s xs) [
      | inl (b, h) ↦ (x, inl refl, ground arith, λ q. rw t (h (some x)))
      | inr (y, i, l, h) ↦ (y, inr i, l, λ q. rw t (h (some x)))
    ])
  ]

  insert_by-StartsAbove :
      (a : ℕ) (xs : List ℕ) → StartsAbove (f a).vm_start xs → insert_by key_of a xs ≡ a ∷ xs
  insert_by-StartsAbove a [] h = refl
  insert_by-StartsAbove a (x ∷ xs) h = ground arith

  -- The link behind that area keeps the list sorted.
  pub insert_after-find_prev :
      (lo a : ℕ) (xs : List ℕ)
      → IsOrdered f lo xs
      → insert_after (find_prev f xs (f a).vm_start none) a xs ≡ insert_by key_of a xs
  unfolding insert_after find_prev
  insert_after-find_prev lo a [] o = refl
  insert_after-find_prev lo a (x ∷ xs) (l, s, o) =
      elim (Bool-cases (ltb (f a).vm_start (f x).vm_start)) [
        | inl t ↦ rw t refl
        | inr t ↦ elim (find_prev-cases (f a).vm_start xs) [
          | inl (b, h) ↦ rw (t, h (some x), insert_by-StartsAbove a xs b) (ground arith)
          | inr (y, i, c, h) ↦
              let ih = insert_after-find_prev (f x).vm_end a xs o in
              let k = start-In f xs (f x).vm_end y o i in
              let ne : x ≢ y = λ e. absurd (let q = ap (λ z. (f z).vm_start) e in omega arith) in
              let ih' = rw (h none) at ih in rw (t, h (some x)) (ground arith)
        ]
      ]

  check_prev-none : (a : ℕ) → check_prev f none a ≡ true
  unfolding check_prev
  check_prev-none a = refl

  check_prev-In :
      (lo a : ℕ) (xs : List ℕ) (y : ℕ)
      → (f a).vm_start < (f a).vm_end
      → Apart a xs
      → IsOrdered f lo xs
      → In y xs
      → (f y).vm_start ≤ (f a).vm_start
      → check_prev f (some y) a ≡ true
  unfolding check_prev check_vma_overlap
  check_prev-In lo a xs y s d o i l =
      let sy = area-In f xs lo y o i in
      elim (Apart-In a xs y d i) [ inl h ↦ ground arith | inr h ↦ absurd (omega arith) ]

  check_next-StartsAbove :
      (lo a : ℕ) (xs : List ℕ)
      → (f a).vm_start < (f a).vm_end
      → Apart a xs
      → IsOrdered f lo xs
      → StartsAbove (f a).vm_start xs
      → check_next f a (next_of none xs) ≡ true
  unfolding check_next check_vma_overlap next_of
  check_next-StartsAbove lo a [] s d o b = refl
  check_next-StartsAbove lo a (x ∷ xs) s (d, ds) (l, sx, o) b = elim d [
    | inl h ↦ absurd (omega arith)
    | inr h ↦ ground arith
  ]

  -- The assertions about the neighbours hold.
  pub check_prev-find_prev :
      (lo a : ℕ) (xs : List ℕ)
      → (f a).vm_start < (f a).vm_end
      → Apart a xs
      → IsOrdered f lo xs
      → check_prev f (find_prev f xs (f a).vm_start none) a ≡ true
  check_prev-find_prev lo a xs s d o = elim (find_prev-cases (f a).vm_start xs) [
    | inl (b, h) ↦ rw (h none) (check_prev-none a)
    | inr (y, i, l, h) ↦ rw (h none) (check_prev-In lo a xs y s d o i l)
  ]

  pub check_next-find_prev :
      (lo a : ℕ) (xs : List ℕ)
      → (f a).vm_start < (f a).vm_end
      → Apart a xs
      → IsOrdered f lo xs
      → check_next f a (next_of (find_prev f xs (f a).vm_start none) xs) ≡ true
  unfolding find_prev next_of
  check_next-find_prev lo a [] s d o = check_next-StartsAbove lo a [] s d o tt
  check_next-find_prev lo a (x ∷ xs) s (d, ds) (l, sx, o) =
      elim (Bool-cases (ltb (f a).vm_start (f x).vm_start)) [
        | inl t ↦ rw t (check_next-StartsAbove lo a (x ∷ xs) s (d, ds) (l, sx, o) (ground arith))
        | inr t ↦ elim (find_prev-cases (f a).vm_start xs) [
          | inl (b, h) ↦
              let here : next_of (some x) (x ∷ xs) ≡ next_of none xs = ground arith in
              rw (t, h (some x), here) (check_next-StartsAbove (f x).vm_end a xs s ds o b)
          | inr (y, i, c, h) ↦
              let ih = check_next-find_prev (f x).vm_end a xs s ds o in
              let k = start-In f xs (f x).vm_end y o i in
              let ne : x ≢ y = λ e. absurd (let q = ap (λ z. (f z).vm_start) e in omega arith) in
              let there : next_of (some y) (x ∷ xs) ≡ next_of (some y) xs = ground arith in
              let ih' = rw (h none) at ih in rw (t, h (some x), there) ih'
        ]
      ]
