-- ===== src/Mm/Vmm/Punch.antt =====
-- kern/mm/vmm.c: `mm_unmap` in the middle of one area.
use ucorebook_code.Prelude.{
  ℕ, ◌≤◌, ◌<◌, ◌≡◌, ◌⊎◌, inl, inr, refl, sym, ◌∙◌, true, false, Bool-cases, update, update_ne, List,
  [], ◌∷◌, ◌++◌, none, some, arith, if◌then◌else◌,
}
use ucorebook_code.Mm.Tree.{insert_by}
use ucorebook_code.Mm.Vmm.{Vma}
use ucorebook_code.Mm.Vmm.Order.{In, IsOrdered, EndsBy, or_else, IsOrdered-right}
use ucorebook_code.Mm.Vmm.Place.{key_of, Apart}
use ucorebook_code.Mm.Vmm.Flags.{
  flags_at, covers, flags_at-insert_by, flags_at-++, flags_at-EndsBy, flags_at-below,
}
use ucorebook_code.Mm.Vmm.Agree.{Agree, flags_at-Agree, IsOrdered-Agree}
use ucorebook_code.Mm.Vmm.Collect.{
  flags_at-cons-false, flags_at-cons-true, Apart-EndsBy, Apart-IsOrdered, Apart-++,
}

-- `g` has the area `x` of `f` cut down to the part behind the range, and the part before it as the
-- area `a`.
pub record IsPunched (f g : ℕ → Vma) (start end' x a : ℕ) (pre ys : List ℕ) : Type 0 where
  pub ordered : IsOrdered f 0 (pre ++ x ∷ ys)
  pub pre_same : Agree f g pre
  pub ys_same : Agree f g ys
  pub below : (f x).vm_start < start
  pub range : start < end'
  pub above : end' < (f x).vm_end
  pub front :
      ((g a).vm_start ≡ (f x).vm_start) × ((g a).vm_end ≡ start) × ((g a).vm_flags ≡ (f x).vm_flags)
  pub rear :
      ((g x).vm_start ≡ end') × ((g x).vm_end ≡ (f x).vm_end) × ((g x).vm_flags ≡ (f x).vm_flags)

pub Agree-EndsBy :
    (f g : ℕ → Vma) (hi : ℕ) (xs : List ℕ) → Agree f g xs → EndsBy f hi xs → EndsBy g hi xs
Agree-EndsBy f g hi [] h e = tt
Agree-EndsBy f g hi (x ∷ xs) (q, h) (l, e) = (rw q l, Agree-EndsBy f g hi xs h e)

IsOrdered-replace :
    (f g : ℕ → Vma) (lo x : ℕ) (pre ys : List ℕ)
    → IsOrdered f lo (pre ++ x ∷ ys)
    → Agree f g pre
    → Agree f g ys
    → (f x).vm_start ≤ (g x).vm_start
    → (g x).vm_start < (g x).vm_end
    → (g x).vm_end ≡ (f x).vm_end
    → IsOrdered g lo (pre ++ x ∷ ys)
IsOrdered-replace f g lo x [] ys (l, s, o) hp hy a b c =
    (omega arith, b, rw c (IsOrdered-Agree f g (f x).vm_end ys hy o))
IsOrdered-replace f g lo x (y ∷ pre) ys (l, s, o) (q, hp) hy a b c =
    rw q (l, s, IsOrdered-replace f g (f y).vm_end x pre ys o hp hy a b c)

module _ {f g : ℕ → Vma} {start end' x a : ℕ} {pre ys : List ℕ}
    (p : IsPunched f g start end' x a pre ys) where
  pub punched-IsOrdered : IsOrdered g 0 (pre ++ x ∷ ys)
  punched-IsOrdered =
      let (r₁, r₂, r₃) = p.rear in
      let b = p.below in
      let c = p.range in
      let d = p.above in
      IsOrdered-replace f g 0 x pre ys p.ordered p.pre_same p.ys_same (omega arith) (omega arith) r₂

  pub punched-front : (g a).vm_start < (g a).vm_end
  punched-front = let (r₁, r₂, r₃) = p.front in let b = p.below in omega arith

  pub punched-Apart : Apart g a (pre ++ x ∷ ys)
  punched-Apart =
      let (r₁, r₂, r₃) = p.front in
      let (s₁, s₂, s₃) = p.rear in
      let b = p.below in
      let c = p.range in
      let d = p.above in
      let (lx, ends, opre, (lx', sx, oys)) = IsOrdered-right f pre 0 x ys p.ordered in
      Apart-++ g a pre (x ∷ ys)
        (Apart-EndsBy g a (f x).vm_start pre (Agree-EndsBy f g (f x).vm_start pre p.pre_same ends)
          (omega arith))
        (
          inr (omega arith),
          Apart-IsOrdered g a (f x).vm_end ys (IsOrdered-Agree f g (f x).vm_end ys p.ys_same oys)
              (omega arith),
        )

  covers_none :
      (addr : ℕ) → covers f x addr ≡ false → (covers g a addr ≡ false) × (covers g x addr ≡ false)
  unfolding covers
  covers_none addr h =
      let (r₁, r₂, r₃) = p.front in
      let (s₁, s₂, s₃) = p.rear in
      let b = p.below in let c = p.range in let d = p.above in (ground arith, ground arith)

  covers_front : (addr : ℕ) → covers f x addr ≡ true → addr < start → covers g a addr ≡ true
  unfolding covers
  covers_front addr h l = let (r₁, r₂, r₃) = p.front in ground arith

  covers_rear :
      (addr : ℕ)
      → covers f x addr ≡ true
      → end' ≤ addr
      → (covers g a addr ≡ false) × (covers g x addr ≡ true)
  unfolding covers
  covers_rear addr h l =
      let (r₁, r₂, r₃) = p.front in
      let (s₁, s₂, s₃) = p.rear in let c = p.range in (ground arith, ground arith)

  covers_hole :
      (addr : ℕ)
      → start ≤ addr
      → addr < end'
      → (covers g a addr ≡ false) × (covers g x addr ≡ false) × (covers f x addr ≡ true)
  unfolding covers
  covers_hole addr h l =
      let (r₁, r₂, r₃) = p.front in
      let (s₁, s₂, s₃) = p.rear in
      let b = p.below in let d = p.above in (ground arith, ground arith, ground arith)

  covers-start :
      (addr : ℕ) → covers f x addr ≡ true → ((f x).vm_start ≤ addr) × (addr < (f x).vm_end)
  unfolding covers
  covers-start addr h = (ground arith, ground arith)

  flags_pre : (addr : ℕ) → covers f x addr ≡ true → flags_at g pre addr ≡ none
  flags_pre addr h =
      let (lx, ends, opre, rest) = IsOrdered-right f pre 0 x ys p.ordered in
      flags_at-EndsBy g pre (f x).vm_start addr
        (Agree-EndsBy f g (f x).vm_start pre p.pre_same ends) (covers-start addr h).0

  flags_ys : (addr : ℕ) → covers f x addr ≡ true → flags_at g ys addr ≡ none
  flags_ys addr h =
      let (lx, ends, opre, (lx', sx, oys)) = IsOrdered-right f pre 0 x ys p.ordered in
      flags_at-below g ys (f x).vm_end addr (IsOrdered-Agree f g (f x).vm_end ys p.ys_same oys)
        (covers-start addr h).1

  whole :
      (addr : ℕ)
      → flags_at g (insert_by (key_of g) a (pre ++ x ∷ ys)) addr ≡ (
          if covers g a addr
          then some (g a).vm_flags
          else or_else (flags_at g pre addr) (flags_at g (x ∷ ys) addr))
  whole addr =
      rw
        (flags_at-insert_by g a (pre ++ x ∷ ys) addr punched-Apart, flags_at-++ g pre (x ∷ ys) addr)
        refl

  -- The addresses of the range lose their flags.
  pub punched-inside :
      (addr : ℕ)
      → start ≤ addr
      → addr < end'
      → flags_at g (insert_by (key_of g) a (pre ++ x ∷ ys)) addr ≡ none
  punched-inside addr l h =
      let (ca, cx, cf) = covers_hole addr l h in
      rw (whole addr, ca, flags_pre addr cf, flags_at-cons-false g x ys addr cx, flags_ys addr cf)
        refl

  -- The other addresses keep theirs.
  pub punched-outside :
      (addr : ℕ)
      → (addr < start) ⊎ (end' ≤ addr)
      → flags_at g (insert_by (key_of g) a (pre ++ x ∷ ys)) addr ≡ flags_at f (pre ++ x ∷ ys) addr
  punched-outside addr h = elim (Bool-cases (covers f x addr)) [
    | inr n ↦
        let (ca, cx) = covers_none addr n in
        rw
          (
            whole addr,
            ca,
            flags_at-cons-false g x ys addr cx,
            flags_at-++ f pre (x ∷ ys) addr,
            flags_at-cons-false f x ys addr n,
            flags_at-Agree f g pre addr p.pre_same,
            flags_at-Agree f g ys addr p.ys_same,
          )
          refl
    | inl t ↦
        let before_x = sym (flags_at-Agree f g pre addr p.pre_same) ∙ flags_pre addr t in
        let (r₁, r₂, r₃) = p.front in
        let (s₁, s₂, s₃) = p.rear in
        elim h [
          | inl l ↦
              rw
                (
                  whole addr,
                  covers_front addr t l,
                  flags_at-++ f pre (x ∷ ys) addr,
                  before_x,
                  flags_at-cons-true f x ys addr t,
                  r₃,
                )
                refl
          | inr l ↦
              let (ca, cx) = covers_rear addr t l in
              rw
                (
                  whole addr,
                  ca,
                  flags_pre addr t,
                  flags_at-cons-true g x ys addr cx,
                  flags_at-++ f pre (x ∷ ys) addr,
                  before_x,
                  flags_at-cons-true f x ys addr t,
                  s₃,
                )
                refl
        ]
  ]

-- The two writes of the call, seen from the other areas.
pub Agree-update₂ :
    (f : ℕ → Vma) (a x : ℕ) (v w : Vma) (xs : List ℕ)
    → (In a xs → ⊥)
    → (In x xs → ⊥)
    → Agree f (update (update f a v) x w) xs
Agree-update₂ f a x v w [] n n' = tt
Agree-update₂ f a x v w (y ∷ ys) n n' = (
  update_ne (update f a v) w (λ e. n' (inl (sym e))) ∙ update_ne f v (λ e. n (inl (sym e))),
  Agree-update₂ f a x v w ys (λ h. n (inr h)) (λ h. n' (inr h)),
)

pub In-++-left : (xs ys : List ℕ) (x : ℕ) → In x xs → In x (xs ++ ys)
In-++-left [] ys x h = elim h [ ]
In-++-left (y ∷ xs) ys x (inl e) = inl e
In-++-left (y ∷ xs) ys x (inr h) = inr (In-++-left xs ys x h)

pub In-++-right : (xs ys : List ℕ) (x : ℕ) → In x ys → In x (xs ++ ys)
In-++-right [] ys x h = h
In-++-right (y ∷ xs) ys x h = inr (In-++-right xs ys x h)
