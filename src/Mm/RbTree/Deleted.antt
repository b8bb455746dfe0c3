-- ===== src/Mm/RbTree/Deleted.antt =====
-- kern/libs/rb_tree.c: a deletion takes the node out of the order of the tree and keeps the others.
use mathlib.Core.List.{append_assoc}
use ucorebook_code.Prelude.{
  ℕ, ◌≡◌, ◌∙◌, sym, ap, refl, inl, inr, Bool, true, false, Bool-cases, ◌==◌, List, [], ◌∷◌, ◌++◌,
  Option, none, some,
}
use ucorebook_code.Mm.Tree.{Tree, leaf, node, inorder, without, IsTree}
use ucorebook_code.Mm.Vmm.Lists.{++-nil}
use ucorebook_code.Mm.RbTree.{
  is_red, fix_left_black, fix_left, fix_right_black, fix_right, splice, take_first, delete_here,
  delete_from, rb_delete, rb_ops,
}
use ucorebook_code.Mm.RbTree.Inorder.{inorder-blacken, inorder-rb_insert}

inorder-fix_left_black :
    (red : Bool) (l : Tree) (x : ℕ) (r : Tree)
    → inorder (fix_left_black red l x r).0 ≡ inorder l ++ x ∷ inorder r
unfolding fix_left_black
inorder-fix_left_black red l x leaf = refl
inorder-fix_left_black red l x (node wred leaf w wr) = elim (Bool-cases (is_red wr)) [
  | inl e ↦ rw (fix_left_black, e, inorder-blacken wr) (simp (append_assoc))
  | inr e ↦ rw (fix_left_black, e) refl
]
inorder-fix_left_black red l x (node wred (node true a n b) w wr) = elim (Bool-cases (is_red wr)) [
  | inl e ↦ rw (fix_left_black, e, inorder-blacken wr) (simp (append_assoc))
  | inr e ↦ rw (fix_left_black, e) (simp (append_assoc))
]
inorder-fix_left_black red l x (node wred (node false a n b) w wr) = elim (Bool-cases (is_red wr)) [
  | inl e ↦ rw (fix_left_black, e, inorder-blacken wr) (simp (append_assoc))
  | inr e ↦ rw (fix_left_black, e) refl
]

inorder-fix_left :
    (short red : Bool) (l : Tree) (x : ℕ) (r : Tree)
    → inorder (fix_left short red l x r).0 ≡ inorder l ++ x ∷ inorder r
unfolding fix_left
inorder-fix_left false red l x r = refl
inorder-fix_left true red l x leaf = inorder-fix_left_black red l x leaf
inorder-fix_left true red l x (node true wl w wr) =
    rw (inorder-fix_left_black true l x wl) (simp (append_assoc))
inorder-fix_left true red l x (node false wl w wr) =
    inorder-fix_left_black red l x (node false wl w wr)

inorder-fix_right_black :
    (red : Bool) (l : Tree) (x : ℕ) (r : Tree)
    → inorder (fix_right_black red l x r).0 ≡ inorder l ++ x ∷ inorder r
unfolding fix_right_black
inorder-fix_right_black red leaf x r = refl
inorder-fix_right_black red (node wred wl w leaf) x r = elim (Bool-cases (is_red wl)) [
  | inl e ↦ rw (fix_right_black, e, inorder-blacken wl) (simp (append_assoc))
  | inr e ↦ rw (fix_right_black, e) refl
]
inorder-fix_right_black red (node wred wl w (node true a n b)) x r = elim (Bool-cases (is_red wl)) [
  | inl e ↦ rw (fix_right_black, e, inorder-blacken wl) (simp (append_assoc))
  | inr e ↦ rw (fix_right_black, e) (simp (append_assoc))
]
inorder-fix_right_black red (node wred wl w (node false a n b)) x r =
    elim (Bool-cases (is_red wl)) [
      | inl e ↦ rw (fix_right_black, e, inorder-blacken wl) (simp (append_assoc))
      | inr e ↦ rw (fix_right_black, e) refl
    ]

inorder-fix_right :
    (short red : Bool) (l : Tree) (x : ℕ) (r : Tree)
    → inorder (fix_right short red l x r).0 ≡ inorder l ++ x ∷ inorder r
unfolding fix_right
inorder-fix_right false red l x r = refl
inorder-fix_right true red leaf x r = inorder-fix_right_black red leaf x r
inorder-fix_right true red (node true wl w wr) x r =
    rw (inorder-fix_right_black true wr x r) (simp (append_assoc))
inorder-fix_right true red (node false wl w wr) x r =
    inorder-fix_right_black red (node false wl w wr) x r

inorder-splice : (red : Bool) (t : Tree) → inorder (splice red t).0 ≡ inorder t
unfolding splice
inorder-splice true t = refl
inorder-splice false t = elim (Bool-cases (is_red t)) [
  | inl e ↦ rw e (inorder-blacken t)
  | inr e ↦ rw e refl
]

inorder-take_first :
    (red : Bool) (l : Tree) (x : ℕ) (r : Tree)
    → (take_first red l x r).0 ∷ inorder (take_first red l x r).1.0 ≡ inorder l ++ x ∷ inorder r
unfolding take_first
inorder-take_first red leaf x r = ap (λ xs. x ∷ xs) (inorder-splice red r)
inorder-take_first red (node lred a y b) x r =
    let t = take_first lred a y b in
    ap (λ xs. t.0 ∷ xs) (inorder-fix_left t.1.1 red t.1.0 x r)
    ∙ ap (λ xs. xs ++ x ∷ inorder r) (inorder-take_first lred a y b)

inorder-delete_here :
    (red : Bool) (l r : Tree) → inorder (delete_here red l r).0 ≡ inorder l ++ inorder r
unfolding delete_here
inorder-delete_here red leaf r = inorder-splice red r
inorder-delete_here red (node lred a y b) leaf =
    inorder-splice red (node lred a y b) ∙ sym (++-nil (inorder a ++ y ∷ inorder b))
inorder-delete_here red (node lred a y b) (node rred a' y' b') =
    let t = take_first rred a' y' b' in
    inorder-fix_right t.1.1 red (node lred a y b) t.0 t.1.0
    ∙ ap (λ xs. inorder (node lred a y b) ++ xs) (inorder-take_first rred a' y' b')

-- What the search and the deletion do to the nodes `xs` of a subtree, before any others.
abbrev Outcome : ℕ → List ℕ → Option (Tree × Bool) → Type 0
Outcome x xs none = (ys : List ℕ) → without x (xs ++ ys) ≡ xs ++ without x ys
Outcome x xs (some (t, short)) = (ys : List ℕ) → without x (xs ++ ys) ≡ inorder t ++ ys

found : (x y : ℕ) (ys : List ℕ) → (y == x) ≡ true → without x (y ∷ ys) ≡ ys
found x y ys t = rw t refl

passed : (x y : ℕ) (ys : List ℕ) → (y == x) ≡ false → without x (y ∷ ys) ≡ y ∷ without x ys
passed x y ys t = rw t refl

delete_right :
    (x : ℕ) (red : Bool) (l : Tree) (y : ℕ) (r : Tree) (o : Option (Tree × Bool))
    → delete_from x l ≡ none
    → (y == x) ≡ false
    → delete_from x r ≡ o
    → Outcome x (inorder l) none
    → Outcome x (inorder r) o
    → Outcome x (inorder (node red l y r)) (delete_from x (node red l y r))
unfolding delete_from
delete_right x red l y r none e t e' h h' =
    rw (delete_from, e, t, e')
      (λ ys.
        ap (without x) (append_assoc (inorder l) (y ∷ inorder r) ys)
        ∙ h (y ∷ (inorder r ++ ys))
        ∙ ap (λ zs. inorder l ++ zs) (passed x y (inorder r ++ ys) t ∙ ap (λ zs. y ∷ zs) (h' ys))
        ∙ sym (append_assoc (inorder l) (y ∷ inorder r) (without x ys)))
delete_right x red l y r (some (r', short)) e t e' h h' =
    rw (delete_from, e, t, e')
      (λ ys.
        ap (without x) (append_assoc (inorder l) (y ∷ inorder r) ys)
        ∙ h (y ∷ (inorder r ++ ys))
        ∙ ap (λ zs. inorder l ++ zs) (passed x y (inorder r ++ ys) t ∙ ap (λ zs. y ∷ zs) (h' ys))
        ∙ sym (append_assoc (inorder l) (y ∷ inorder r') ys)
        ∙ ap (λ xs. xs ++ ys) (sym (inorder-fix_right short red l y r')))

delete_step :
    (x : ℕ) (red : Bool) (l : Tree) (y : ℕ) (r : Tree) (o o' : Option (Tree × Bool))
    → delete_from x l ≡ o
    → delete_from x r ≡ o'
    → Outcome x (inorder l) o
    → Outcome x (inorder r) o'
    → Outcome x (inorder (node red l y r)) (delete_from x (node red l y r))
unfolding delete_from
delete_step x red l y r (some (l', short)) o' e e' h h' =
    rw (delete_from, e)
      (λ ys.
        ap (without x) (append_assoc (inorder l) (y ∷ inorder r) ys)
        ∙ h (y ∷ (inorder r ++ ys))
        ∙ sym (append_assoc (inorder l') (y ∷ inorder r) ys)
        ∙ ap (λ xs. xs ++ ys) (sym (inorder-fix_left short red l' y r)))
delete_step x red l y r none o' e e' h h' = elim (Bool-cases (y == x)) [
  | inl t ↦
      rw (delete_from, e, t)
        (λ ys.
          ap (without x) (append_assoc (inorder l) (y ∷ inorder r) ys)
          ∙ h (y ∷ (inorder r ++ ys))
          ∙ ap (λ zs. inorder l ++ zs) (found x y (inorder r ++ ys) t)
          ∙ sym (append_assoc (inorder l) (inorder r) ys)
          ∙ ap (λ xs. xs ++ ys) (sym (inorder-delete_here red l r)))
  | inr t ↦ delete_right x red l y r o' e t e' h h'
]

delete_from-Outcome : (x : ℕ) (t : Tree) → Outcome x (inorder t) (delete_from x t)
unfolding delete_from
delete_from-Outcome x leaf = λ ys. refl
delete_from-Outcome x (node red l y r) =
    delete_step x red l y r (delete_from x l) (delete_from x r) refl refl (delete_from-Outcome x l)
      (delete_from-Outcome x r)

of_Outcome :
    (x : ℕ) (t : Tree) (o : Option (Tree × Bool))
    → delete_from x t ≡ o
    → Outcome x (inorder t) o
    → inorder (rb_delete x t) ≡ without x (inorder t)
unfolding rb_delete
of_Outcome x t none e h =
    rw (rb_delete, e) (sym (ap (without x) (sym (++-nil (inorder t))) ∙ h [] ∙ ++-nil (inorder t)))
of_Outcome x t (some (t', short)) e h =
    rw (rb_delete, e) (sym (ap (without x) (sym (++-nil (inorder t))) ∙ h [] ∙ ++-nil (inorder t')))

pub inorder-rb_delete : (x : ℕ) (t : Tree) → inorder (rb_delete x t) ≡ without x (inorder t)
inorder-rb_delete x t = of_Outcome x t (delete_from x t) refl (delete_from-Outcome x t)

-- The operations of the tree do what its clients rely on.
pub rb-IsTree : IsTree rb_ops
rb-IsTree = record {
  inorder-insert = inorder-rb_insert;
  inorder-delete = λ key x t h. inorder-rb_delete x t;
}
