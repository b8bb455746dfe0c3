-- ===== src/Mm/Vmm/Room.antt =====
-- kern/mm/vmm.c: `get_unmapped_area` finds the highest room for a range.
use ucorebook_code.Prelude.{
  ℕ, ◌+◌, ◌-◌, ◌≤◌, ◌<◌, ◌≡◌, ◌⊎◌, inl, inr, refl, Bool-cases, ltb, leb, ◌==◌, List, [], ◌∷◌, arith,
  ◌||◌,
}
use ucorebook_code.Mm.Vmm.{Vma, Mm, userbase, usertop}
use ucorebook_code.Mm.Vmm.Order.{In, IsOrdered, EndsBy}
use ucorebook_code.Mm.Vmm.Scan.{backwards, area_below, get_unmapped_area}

-- No area of the list meets the range of `len` addresses at `s`.
abbrev pub IsClear : (ℕ → Vma) → ℕ → ℕ → List ℕ → Type 0
IsClear f s len xs = (x : ℕ) → In x xs → ((f x).vm_end ≤ s) ⊎ (s + len ≤ (f x).vm_start)

module _ (f : ℕ → Vma) where
  -- User areas from the highest down.
  abbrev IsDown : List ℕ → Type 0
  IsDown [] = Unit {0}
  IsDown (x ∷ xs) =
      (userbase ≤ (f x).vm_start)
      × ((f x).vm_start < (f x).vm_end)
      × EndsBy f (f x).vm_start xs
      × IsDown xs

  EndsBy-weaken : (hi hi' : ℕ) (xs : List ℕ) → hi ≤ hi' → EndsBy f hi xs → EndsBy f hi' xs
  EndsBy-weaken hi hi' [] l e = tt
  EndsBy-weaken hi hi' (x ∷ xs) l (e, es) = (omega arith, EndsBy-weaken hi hi' xs l es)

  EndsBy-In : (hi : ℕ) (xs : List ℕ) (x : ℕ) → EndsBy f hi xs → In x xs → (f x).vm_end ≤ hi
  EndsBy-In hi [] x e h = elim h [ ]
  EndsBy-In hi (y ∷ ys) x (e, es) (inl q) = rw q e
  EndsBy-In hi (y ∷ ys) x (e, es) (inr h) = EndsBy-In hi ys x es h

  backwards-IsDown :
      (lo : ℕ) (xs acc : List ℕ)
      → userbase ≤ lo
      → IsOrdered f lo xs
      → EndsBy f lo acc
      → IsDown acc
      → IsDown (backwards xs acc)
  unfolding backwards
  backwards-IsDown lo [] acc u o e d = d
  backwards-IsDown lo (x ∷ xs) acc u (l, s, o) e d =
      backwards-IsDown (f x).vm_end xs (x ∷ acc) (omega arith) o
        (omega arith, EndsBy-weaken lo (f x).vm_end acc (omega arith) e)
        (omega arith, s, EndsBy-weaken lo (f x).vm_start acc l e, d)

  In-backwards : (xs acc : List ℕ) (x : ℕ) → In x (backwards xs acc) → In x xs ⊎ In x acc
  unfolding backwards
  In-backwards [] acc x h = inr h
  In-backwards (y ∷ ys) acc x h = elim (In-backwards ys (y ∷ acc) x h) [
    | inl i ↦ inl (inr i)
    | inr (inl e) ↦ inl (inl e)
    | inr (inr i) ↦ inr i
  ]

  backwards-In : (xs acc : List ℕ) (x : ℕ) → In x xs ⊎ In x acc → In x (backwards xs acc)
  unfolding backwards
  backwards-In [] acc x (inl h) = elim h [ ]
  backwards-In [] acc x (inr h) = h
  backwards-In (y ∷ ys) acc x (inl (inl e)) = backwards-In ys (y ∷ acc) x (inr (inl e))
  backwards-In (y ∷ ys) acc x (inl (inr h)) = backwards-In ys (y ∷ acc) x (inl h)
  backwards-In (y ∷ ys) acc x (inr h) = backwards-In ys (y ∷ acc) x (inr (inr h))

  -- The result is clear, and every clear range at or below `start` is at or below it.
  record IsHighest (len start r : ℕ) (xs : List ℕ) : Type 0 where
    clear : (r ≡ 0) ⊎ ((userbase ≤ r) × (r ≤ start) × IsClear f r len xs)
    highest : (s : ℕ) → userbase ≤ s → s ≤ start → IsClear f s len xs → s ≤ r

  IsClear-step :
      (len start start' r x : ℕ) (xs : List ℕ)
      → start' ≤ start
      → start' + len ≤ (f x).vm_start
      → (r ≡ 0) ⊎ ((userbase ≤ r) × (r ≤ start') × IsClear f r len xs)
      → (r ≡ 0) ⊎ ((userbase ≤ r) × (r ≤ start) × IsClear f r len (x ∷ xs))
  IsClear-step len start start' r x xs a b (inl e) = inl e
  IsClear-step len start start' r x xs a b (inr (u, l, c)) =
      inr (u, omega arith, λ y h. elim h [ inl e ↦ inr (rw e (omega arith)) | inr h ↦ c y h ])

  area_below-IsHighest :
      (len start : ℕ) (xs : List ℕ) → IsDown xs → IsHighest len start (area_below f len start xs) xs
  unfolding area_below
  area_below-IsHighest len start [] d = elim (Bool-cases (leb userbase start)) [
    | inl t ↦ rw t (record {
      clear = inr (ground arith, omega arith, λ x h. elim h [ ]);
      highest = λ s u l c. l;
    })
    | inr t ↦ rw t (record { clear = inl refl; highest = λ s u l c. absurd (ground arith) })
  ]
  area_below-IsHighest len start (x ∷ xs) (u, sx, e, d) =
      elim (Bool-cases (leb (f x).vm_end start)) [
        | inl t ↦
            rw (area_below, t)
              (record {
                clear = inr (
                  ground arith,
                  omega arith,
                  λ y h. inl (elim h [
                    | inl q ↦ rw q (ground arith)
                    | inr h ↦ let k = EndsBy-In (f x).vm_start xs y e h in ground arith
                  ]),
                );
                highest = λ s u l c. l;
              })
        | inr t ↦ elim (Bool-cases (ltb (f x).vm_start (start + len))) [
          | inr v ↦
              let ih = area_below-IsHighest len start xs d in
              rw (area_below, t, v)
                (record {
                  clear = IsClear-step len start start _ x xs (omega arith) (ground arith) ih.clear;
                  highest = λ s u l c. ih.highest s u l (λ y h. c y (inr h));
                })
          | inl v ↦ elim (Bool-cases (leb (f x).vm_start len)) [
            | inl w ↦
                rw (area_below, t, v, w)
                  (record {
                    clear = inl refl;
                    highest = λ s u l c. elim (c x (inl refl)) [
                      | inl a ↦ absurd (ground arith)
                      | inr a ↦ absurd (ground arith)
                    ];
                  })
            | inr w ↦
                let ih = area_below-IsHighest len ((f x).vm_start - len) xs d in
                rw (area_below, t, v, w)
                  (record {
                    clear =
                        IsClear-step len start ((f x).vm_start - len) _ x xs (ground arith)
                          (ground arith) ih.clear;
                    highest = λ s u l c. elim (c x (inl refl)) [
                      | inl a ↦ absurd (ground arith)
                      | inr a ↦ ih.highest s u (omega arith) (λ y h. c y (inr h))
                    ];
                  })
          ]
        ]
      ]

-- Where all areas are user areas in order, `get_unmapped_area` gives 0 or the start of a range of `len`
-- addresses that is in the user's part of the memory and that no area meets, and no other such range
-- starts higher: it gives 0 only if there is none.
pub get_unmapped_area-IsHighest :
    (len : ℕ) (m : Mm)
    → IsOrdered m.vmas userbase m.mmap_list
    → ((get_unmapped_area len m ≡ 0)
        ⊎ ((userbase ≤ get_unmapped_area len m)
            × (get_unmapped_area len m + len ≤ usertop)
            × IsClear m.vmas (get_unmapped_area len m) len m.mmap_list))
      × ((s : ℕ)
          → 0 < len
          → userbase ≤ s
          → s + len ≤ usertop
          → IsClear m.vmas s len m.mmap_list
          → s ≤ get_unmapped_area len m)
unfolding get_unmapped_area
get_unmapped_area-IsHighest len m o =
    let d = backwards-IsDown m.vmas userbase m.mmap_list [] (omega arith) o tt tt in
    let k = area_below-IsHighest m.vmas len (usertop - len) (backwards m.mmap_list []) d in
    elim (Bool-cases (len == 0 || ltb usertop len)) [
      | inl t ↦ rw t (inl refl, λ s l u h c. absurd (ground arith))
      | inr t ↦ rw t (
        (elim k.clear [
          | inl e ↦ inl e
          | inr (a, b, c) ↦
              inr (a, ground arith, λ x h. c x (backwards-In m.vmas m.mmap_list [] x (inl h)))
        ]),
        λ s l u h c. k.highest s u (omega arith) (λ x i.
            c x (elim (In-backwards m.vmas m.mmap_list [] x i) [ inl j ↦ j | inr j ↦ absurd j ])),
      )
    ]
