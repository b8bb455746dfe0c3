-- ===== src/Proc/Table/Family.antt =====
-- kern/process/proc.c: the links between siblings are the list of the children, the youngest first.
use ucorebook_code.Prelude.{
  ℕ, ◌≡◌, ◌≢◌, ◌⊎◌, ◌∙◌, inl, inr, refl, sym, ap, true, false, ◌==◌, List, [], ◌∷◌, Option, none,
  some, arith, In, without, without-In, update, update_self, update_ne, subst, ℕ_discrete,
}
use ucorebook_code.Proc.Table.{Processes, update_if, set_links, remove_links}
use ucorebook_code.Proc.Table.Lookup.{IsDistinct, without-IsDistinct}

abbrev pub head? : List ℕ → Option ℕ
head? [] = none
head? (x ∷ xs) = some x

-- `y` leads to the process before, `o` to the one behind.
abbrev pub IsChain : (ℕ → Option ℕ) → (ℕ → Option ℕ) → Option ℕ → List ℕ → Type 0
IsChain y o prev [] = Unit {0}
IsChain y o prev (x ∷ xs) = (y x ≡ prev) × (o x ≡ head? xs) × IsChain y o (some x) xs

-- The children of `q` are those in the list.
pub record IsFamily (k : Processes) (q : ℕ) (xs : List ℕ) : Type 0 where
  pub first : k.cptr q ≡ head? xs
  pub chain : IsChain k.yptr k.optr none xs
  pub parents : (x : ℕ) → In x xs → k.parent x ≡ q
  pub distinct : IsDistinct xs

IsChain-agree :
    (y o y' o' : ℕ → Option ℕ) (prev : Option ℕ) (xs : List ℕ)
    → ((x : ℕ) → In x xs → y' x ≡ y x)
    → ((x : ℕ) → In x xs → o' x ≡ o x)
    → IsChain y o prev xs
    → IsChain y' o' prev xs
IsChain-agree y o y' o' prev [] hy ho c = tt
IsChain-agree y o y' o' prev (x ∷ xs) hy ho (a, b, c) = (
  hy x (inl refl) ∙ a,
  ho x (inl refl) ∙ b,
  IsChain-agree y o y' o' (some x) xs (λ z i. hy z (inr i)) (λ z i. ho z (inr i)) c,
)

update_if_ne :
    (f : ℕ → Option ℕ) (a v : Option ℕ) (x : ℕ) → (a ≡ some x → ⊥) → update_if f a v x ≡ f x
unfolding update_if
update_if_ne f none v x n = refl
update_if_ne f (some p) v x n = update_ne f v (λ e. n (ap some (sym e)))

update_if_self : (f : ℕ → Option ℕ) (v : Option ℕ) (x : ℕ) → update_if f (some x) v x ≡ v
unfolding update_if
update_if_self f v x = update_self f x v

some_inj : {a b : ℕ} → some a ≡ some b → b ≡ a
some_inj e = ground arith

In-subst : (xs : List ℕ) {x z : ℕ} → z ≡ x → In z xs → In x xs
In-subst xs e i = subst (λ w. In w xs) e i

module _ (y o : ℕ → Option ℕ) where
  linked-IsChain :
      (p : ℕ) (xs : List ℕ)
      → IsChain y o none xs
      → IsDistinct xs
      → (In p xs → ⊥)
      → IsChain
          (update_if (update y p none) (head? xs) (some p))
          (update o p (head? xs))
          none
          (p ∷ xs)
  linked-IsChain p [] c d n = (
    update_if_ne (update y p none) none (some p) p (λ e. cc) ∙ update_self y p none,
    update_self o p none,
    tt,
  )
  linked-IsChain p (x ∷ xs) (c₁, c₂, c₃) (d₁, d₂) n =
      let ne : p ≢ x = λ e. n (inl e) in
      (
        update_if_ne (update y p none) (some x) (some p) p (λ e. ne (some_inj e))
            ∙ update_self y p none,
        update_self o p (some x),
        (
          update_if_self (update y p none) (some p) x,
          update_ne o (some x) (λ e. ne (sym e)) ∙ c₂,
          IsChain-agree y o _ _ (some x) xs
              (λ z i.
                update_if_ne (update y p none) (some x) (some p) z
                  (λ e. d₁ (In-subst xs (some_inj e) i))
                ∙ update_ne y none (λ e. n (inr (In-subst xs e i))))
              (λ z i. update_ne o (some x) (λ e. n (inr (In-subst xs e i)))) c₃,
        ),
      )

  -- What the links of a process in the chain lead to.
  younger-In :
      (prev : Option ℕ) (xs : List ℕ) (p : ℕ)
      → IsChain y o prev xs
      → In p xs
      → (y p ≡ prev) ⊎ ((w : ℕ) × In w xs × (y p ≡ some w))
  younger-In prev [] p c i = elim i [ ]
  younger-In prev (x ∷ xs) p (c₁, c₂, c₃) (inl e) = inl (ap y e ∙ c₁)
  younger-In prev (x ∷ xs) p (c₁, c₂, c₃) (inr i) = elim (younger-In (some x) xs p c₃ i) [
    | inl e ↦ inr (x, inl refl, e)
    | inr (w, j, e) ↦ inr (w, inr j, e)
  ]

  older-In :
      (prev : Option ℕ) (xs : List ℕ) (p : ℕ)
      → IsChain y o prev xs
      → In p xs
      → (o p ≡ none) ⊎ ((w : ℕ) × In w xs × (o p ≡ some w))
  older-In prev [] p c i = elim i [ ]
  older-In prev (x ∷ []) p (c₁, c₂, c₃) (inl e) = inl (ap o e ∙ c₂)
  older-In prev (x ∷ z ∷ zs) p (c₁, c₂, c₃) (inl e) = inr (z, inr (inl refl), ap o e ∙ c₂)
  older-In prev (x ∷ xs) p (c₁, c₂, c₃) (inr i) = elim (older-In (some x) xs p c₃ i) [
    | inl e ↦ inl e
    | inr (w, j, e) ↦ inr (w, inr j, e)
  ]

  -- The chain behind a process that is taken out, joined to the one before it.
  join-IsChain :
      (p : ℕ) (prev : Option ℕ) (xs : List ℕ)
      → IsChain y o (some p) xs
      → IsDistinct xs
      → ((w : ℕ) → prev ≡ some w → In w xs → ⊥)
      → IsChain (update_if y (head? xs) prev) (update_if o prev (head? xs)) prev xs
  join-IsChain p prev [] c d n = tt
  join-IsChain p prev (x ∷ xs) (c₁, c₂, c₃) (d₁, d₂) n = (
    update_if_self y prev x,
    update_if_ne o prev (some x) x (λ e. n x e (inl refl)) ∙ c₂,
    IsChain-agree y o _ _ (some x) xs
        (λ z i. update_if_ne y (some x) prev z (λ e. d₁ (In-subst xs (some_inj e) i)))
        (λ z i. update_if_ne o prev (some x) z (λ e. n z e (inr i))) c₃,
  )

  not_older :
      (x : ℕ) (xs : List ℕ) (p : ℕ)
      → IsChain y o (some x) xs
      → (In x xs → ⊥)
      → In p xs
      → o p ≡ some x
      → ⊥
  not_older x xs p c n i e = elim (older-In (some x) xs p c i) [
    | inl q ↦ cc
    | inr (w, j, q) ↦ n (In-subst xs (some_inj (sym e ∙ q)) j)
  ]

  -- The link back to the process in front of the one that is taken out.
  front_link :
      (x : ℕ) (xs : List ℕ) (p : ℕ)
      → IsChain y o (some x) xs
      → IsDistinct xs
      → (In x xs → ⊥)
      → In p xs
      → o x ≡ head? xs
      → update_if o (y p) (o p) x ≡ head? (without p xs)
  front_link x [] p c d n i q = elim i [ ]
  front_link x (r ∷ rs) p (c₁, c₂, c₃) (d₁, d₂) n i q = elim (ℕ_discrete r p) [
    | yes e ↦
        let t : (r == p) ≡ true = ground arith in rw (t, ← e, c₁) (update_if_self o (o r) x ∙ c₂)
    | no ne ↦
        let t : (r == p) ≡ false = ground arith in
        let j : In p rs = elim i [ inl e ↦ absurd (ne (sym e)) | inr j ↦ j ] in
        let away : y p ≡ some x → ⊥ = λ e. elim (younger-In (some r) rs p c₃ j) [
          | inl h ↦ n (inl (some_inj (sym h ∙ e)))
          | inr (w, v, h) ↦ n (inr (In-subst rs (sym (some_inj (sym h ∙ e))) v))
        ] in
        rw t (update_if_ne o (y p) (o p) x away ∙ q)
  ]

  unlinked-IsChain :
      (prev : Option ℕ) (xs : List ℕ) (p : ℕ)
      → IsChain y o prev xs
      → IsDistinct xs
      → ((w : ℕ) → prev ≡ some w → In w xs → ⊥)
      → In p xs
      → IsChain (update_if y (o p) (y p)) (update_if o (y p) (o p)) prev (without p xs)
  unlinked-IsChain prev [] p c d n i = elim i [ ]
  unlinked-IsChain prev (x ∷ xs) p (c₁, c₂, c₃) (d₁, d₂) n i = elim (ℕ_discrete x p) [
    | yes e ↦
        let t : (x == p) ≡ true = ground arith in
        rw (t, ← e, c₁, c₂) (join-IsChain x prev xs c₃ d₂ (λ w h j. n w h (inr j)))
    | no ne ↦
        let t : (x == p) ≡ false = ground arith in
        let j : In p xs = elim i [ inl e ↦ absurd (ne (sym e)) | inr j ↦ j ] in
        rw t (
          update_if_ne y (o p) (y p) x (not_older x xs p c₃ d₁ j) ∙ c₁,
          front_link x xs p c₃ d₂ d₁ j c₂,
          unlinked-IsChain (some x) xs p c₃ d₂ (λ w h v. d₁ (In-subst xs (some_inj h) v)) j,
        )
  ]

  first_left :
      (cptr : Option ℕ) (xs : List ℕ) (p : ℕ)
      → IsChain y o none xs
      → In p xs
      → cptr ≡ head? xs
      → ((y p ≡ none) × (o p ≡ head? (without p xs)))
        ⊎ ((w : ℕ) × (y p ≡ some w) × (cptr ≡ head? (without p xs)))
  first_left cptr [] p c i q = elim i [ ]
  first_left cptr (x ∷ xs) p (c₁, c₂, c₃) i q = elim (ℕ_discrete x p) [
    | yes e ↦ let t : (x == p) ≡ true = ground arith in rw (t, ← e) (inl (c₁, c₂))
    | no ne ↦
        let t : (x == p) ≡ false = ground arith in
        let j : In p xs = elim i [ inl e ↦ absurd (ne (sym e)) | inr j ↦ j ] in
        rw t (
          inr (elim (younger-In (some x) xs p c₃ j) [
            | inl h ↦ (x, h, q)
            | inr (w, v, h) ↦ (w, h, q)
          ]))
  ]

-- The new child stands in front of the others.
pub set_links-IsFamily :
    (p : ℕ) (k : Processes) (xs : List ℕ)
    → IsFamily k (k.parent p) xs
    → (In p xs → ⊥)
    → IsFamily (set_links p k) (k.parent p) (p ∷ xs)
unfolding set_links
set_links-IsFamily p k xs f n = record {
  first = update_self k.cptr (k.parent p) (some p);
  chain =
      subst
        (λ w.
          IsChain (update_if (update k.yptr p none) w (some p)) (update k.optr p w) none (p ∷ xs))
        (sym f.first) (linked-IsChain k.yptr k.optr p xs f.chain f.distinct n);
  parents = λ x i. elim i [ inl e ↦ ap k.parent e | inr j ↦ f.parents x j ];
  distinct = (n, f.distinct);
}

-- A child that is taken out leaves the others, in their order.
pub remove_links-IsFamily :
    (p : ℕ) (k : Processes) (xs : List ℕ)
    → IsFamily k (k.parent p) xs
    → In p xs
    → IsFamily (remove_links p k) (k.parent p) (without p xs)
unfolding remove_links
remove_links-IsFamily p k xs f i = record {
  first = elim (first_left k.yptr k.optr (k.cptr (k.parent p)) xs p f.chain i f.first) [
    | inl (a, b) ↦ rw (remove_links, a) (update_self k.cptr (k.parent p) (k.optr p) ∙ b)
    | inr (w, a, b) ↦ rw (remove_links, a) b
  ];
  chain = unlinked-IsChain k.yptr k.optr none xs p f.chain f.distinct (λ w e j. cc) i;
  parents = λ x j. f.parents x (without-In p xs x j);
  distinct = without-IsDistinct p xs f.distinct;
}
