-- ===== src/Mm/RbTree/Inorder.antt =====
-- kern/libs/rb_tree.c: an insertion puts the node in its place in the order of the tree, a deletion
-- takes it out, and neither the rotations nor the colours change that order.
use mathlib.Core.List.{append_assoc}
use ucorebook_code.Prelude.{
  ℕ, ◌≡◌, ◌∙◌, sym, ap, refl, inl, inr, true, false, Bool-cases, ltb, List, [], ◌∷◌, ◌++◌, arith,
}
use ucorebook_code.Mm.Tree.{Tree, leaf, node, inorder, insert_by, IsIncreasing}
use ucorebook_code.Mm.Vmm.Lists.{++-nil, IsIncreasing-left, IsIncreasing-above, IsIncreasing-tail}
use ucorebook_code.Mm.RbTree.{
  is_red, blacken, Context, top, in_left, in_right, plug, descend, rotate_inner_left,
  rotate_inner_right, insert_fixup, rb_insert,
}

pub inorder-blacken : (t : Tree) → inorder (blacken t) ≡ inorder t
unfolding blacken
inorder-blacken leaf = refl
inorder-blacken (node red l x r) = refl

-- The nodes in front of a place and behind it.
abbrev before : Context → List ℕ
before top = []
before (in_left red x r up) = before up
before (in_right red l x up) = before up ++ (inorder l ++ x ∷ [])

abbrev behind : Context → List ℕ
behind top = []
behind (in_left red x r up) = x ∷ (inorder r ++ behind up)
behind (in_right red l x up) = behind up

inorder-plug : (c : Context) (t : Tree) → inorder (plug c t) ≡ before c ++ (inorder t ++ behind c)
unfolding plug
inorder-plug top t = sym (++-nil (inorder t))
inorder-plug (in_left red x r up) t = inorder-plug up (node red t x r) ∙ simp (append_assoc)
inorder-plug (in_right red l x up) t = inorder-plug up (node red l x t) ∙ simp (append_assoc)

plug_same :
    (c : Context) (t t' : Tree) → inorder t ≡ inorder t' → inorder (plug c t) ≡ inorder (plug c t')
plug_same c t t' e =
    inorder-plug c t ∙ ap (λ xs. before c ++ (xs ++ behind c)) e ∙ sym (inorder-plug c t')

inorder-rotate_inner_left :
    (pl : Tree) (p : ℕ) (t : Tree) (g : ℕ) (u : Tree)
    → inorder (rotate_inner_left pl p t g u) ≡ (inorder pl ++ p ∷ inorder t) ++ g ∷ inorder u
unfolding rotate_inner_left
inorder-rotate_inner_left pl p leaf g u = refl
inorder-rotate_inner_left pl p (node red a x b) g u = simp (append_assoc)

inorder-rotate_inner_right :
    (u : Tree) (g : ℕ) (t : Tree) (p : ℕ) (pr : Tree)
    → inorder (rotate_inner_right u g t p pr) ≡ inorder u ++ g ∷ (inorder t ++ p ∷ inorder pr)
unfolding rotate_inner_right
inorder-rotate_inner_right u g leaf p pr = refl
inorder-rotate_inner_right u g (node red a x b) p pr = simp (append_assoc)

-- The loop of `rb_insert` keeps the order.
inorder-insert_fixup : (c : Context) (t : Tree) → inorder (insert_fixup c t) ≡ inorder (plug c t)
unfolding insert_fixup plug
inorder-insert_fixup top t = refl
inorder-insert_fixup (in_left false p pr up) t = refl
inorder-insert_fixup (in_right false pl p up) t = refl
inorder-insert_fixup (in_left true p pr top) t = refl
inorder-insert_fixup (in_right true pl p top) t = refl
inorder-insert_fixup (in_left true p pr (in_left red g u up)) t = elim (Bool-cases (is_red u)) [
  | inl e ↦
      rw (insert_fixup, e)
        (inorder-insert_fixup up (node true (node false t p pr) g (blacken u))
          ∙ plug_same up _ _ (rw (inorder-blacken u) refl))
  | inr e ↦ rw (insert_fixup, e) (plug_same up _ _ (simp (append_assoc)))
]
inorder-insert_fixup (in_right true pl p (in_left red g u up)) t = elim (Bool-cases (is_red u)) [
  | inl e ↦
      rw (insert_fixup, e)
        (inorder-insert_fixup up (node true (node false pl p t) g (blacken u))
          ∙ plug_same up _ _ (rw (inorder-blacken u) refl))
  | inr e ↦ rw (insert_fixup, e) (plug_same up _ _ (inorder-rotate_inner_left pl p t g u))
]
inorder-insert_fixup (in_right true pl p (in_right red u g up)) t = elim (Bool-cases (is_red u)) [
  | inl e ↦
      rw (insert_fixup, e)
        (inorder-insert_fixup up (node true (blacken u) g (node false pl p t))
          ∙ plug_same up _ _ (rw (inorder-blacken u) refl))
  | inr e ↦ rw (insert_fixup, e) (plug_same up _ _ (simp (append_assoc)))
]
inorder-insert_fixup (in_left true p pr (in_right red u g up)) t = elim (Bool-cases (is_red u)) [
  | inl e ↦
      rw (insert_fixup, e)
        (inorder-insert_fixup up (node true (blacken u) g (node false t p pr))
          ∙ plug_same up _ _ (rw (inorder-blacken u) refl))
  | inr e ↦ rw (insert_fixup, e) (plug_same up _ _ (inorder-rotate_inner_right u g t p pr))
]

-- The place that a new node descends to.
insert_by-front :
    (key : ℕ → ℕ) (x : ℕ) (xs : List ℕ) (y : ℕ) (ys : List ℕ)
    → ltb (key x) (key y) ≡ true
    → insert_by key x (xs ++ y ∷ ys) ≡ insert_by key x xs ++ y ∷ ys
insert_by-front key x [] y ys t = rw t refl
insert_by-front key x (z ∷ xs) y ys t = elim (Bool-cases (ltb (key x) (key z))) [
  | inl u ↦ rw u refl
  | inr u ↦ rw u (ap (λ zs. z ∷ zs) (insert_by-front key x xs y ys t))
]

insert_by-behind :
    (key : ℕ → ℕ) (x : ℕ) (xs : List ℕ) (y : ℕ) (ys : List ℕ)
    → IsIncreasing key (xs ++ y ∷ ys)
    → ltb (key x) (key y) ≡ false
    → insert_by key x (xs ++ y ∷ ys) ≡ xs ++ y ∷ insert_by key x ys
insert_by-behind key x [] y ys h t = rw t refl
insert_by-behind key x (z ∷ xs) y ys h t =
    let low = IsIncreasing-above key z xs y ys h in
    let u : ltb (key x) (key z) ≡ false = ground arith in
    rw u (
      ap (λ zs. z ∷ zs)
        (insert_by-behind key x xs y ys (IsIncreasing-tail key z (xs ++ y ∷ ys) h) t))

IsIncreasing-right :
    (key : ℕ → ℕ) (xs : List ℕ) (y : ℕ) (ys : List ℕ)
    → IsIncreasing key (xs ++ y ∷ ys)
    → IsIncreasing key ys
IsIncreasing-right key [] y ys h = IsIncreasing-tail key y ys h
IsIncreasing-right key (x ∷ xs) y ys h =
    IsIncreasing-right key xs y ys (IsIncreasing-tail key x (xs ++ y ∷ ys) h)

descend_lem :
    (key : ℕ → ℕ) (x : ℕ) (t : Tree) (c : Context)
    → IsIncreasing key (inorder t)
    → before (descend key x t c) ++ x ∷ behind (descend key x t c)
      ≡ before c ++ (insert_by key x (inorder t) ++ behind c)
unfolding descend
descend_lem key x leaf c h = refl
descend_lem key x (node red l y r) c h = elim (Bool-cases (ltb (key x) (key y))) [
  | inl t ↦
      rw (descend, t, insert_by-front key x (inorder l) y (inorder r) t)
        (descend_lem key x l (in_left red y r c)
            (IsIncreasing-left key (inorder l) (y ∷ inorder r) h)
          ∙ simp (append_assoc))
  | inr t ↦
      rw (descend, t, insert_by-behind key x (inorder l) y (inorder r) h t)
        (descend_lem key x r (in_right red l y c)
            (IsIncreasing-right key (inorder l) y (inorder r) h)
          ∙ simp (append_assoc))
]

pub inorder-rb_insert :
    (key : ℕ → ℕ) (x : ℕ) (t : Tree)
    → IsIncreasing key (inorder t)
    → inorder (rb_insert key x t) ≡ insert_by key x (inorder t)
unfolding rb_insert
inorder-rb_insert key x t h =
    inorder-blacken (insert_fixup (descend key x t top) (node true leaf x leaf))
    ∙ inorder-insert_fixup (descend key x t top) (node true leaf x leaf)
    ∙ inorder-plug (descend key x t top) (node true leaf x leaf)
    ∙ descend_lem key x t top h
    ∙ ++-nil (insert_by key x (inorder t))
