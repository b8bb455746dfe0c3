-- ===== src/Mm/RbTree/Previous.antt =====
-- kern/libs/rb_tree.c: the predecessor of a node is the one before it in the order of the tree.
use mathlib.Core.List.{append_assoc}
use ucorebook_code.Prelude.{
  ℕ, ◌≡◌, ◌∙◌, sym, ap, refl, inl, inr, Bool, true, false, Bool-cases, ◌==◌, List, [], ◌∷◌, ◌++◌,
  Option, none, some,
}
use ucorebook_code.Mm.Tree.{Tree, leaf, node, inorder}
use ucorebook_code.Mm.Tree.{prev_in}
use ucorebook_code.Mm.Vmm.Lists.{++-nil}
use ucorebook_code.Mm.RbTree.{last_of, predecessor, rb_node_prev}

prev_in-nil : (x : ℕ) (up : Option ℕ) → prev_in x up [] ≡ none
unfolding prev_in
prev_in-nil x up = refl

prev_in-found :
    (x : ℕ) (up : Option ℕ) (y : ℕ) (ys : List ℕ) → (y == x) ≡ true → prev_in x up (y ∷ ys) ≡ up
unfolding prev_in
prev_in-found x up y ys t = rw t refl

prev_in-passed :
    (x : ℕ) (up : Option ℕ) (y : ℕ) (ys : List ℕ)
    → (y == x) ≡ false
    → prev_in x up (y ∷ ys) ≡ prev_in x (some y) ys
unfolding prev_in
prev_in-passed x up y ys t = rw t refl

-- What a search through a subtree says of the nodes `xs` and any others behind them.
abbrev Answers : ℕ → Option ℕ → Option ℕ → List ℕ → Option (Option ℕ) → Type 0
Answers x up last xs none = (ys : List ℕ) → prev_in x up (xs ++ ys) ≡ prev_in x last ys
Answers x up last xs (some o) = (ys : List ℕ) → prev_in x up (xs ++ ys) ≡ o

search_right :
    (x : ℕ) (up : Option ℕ) (red : Bool) (l : Tree) (y : ℕ) (r : Tree) (o : Option (Option ℕ))
    → predecessor x up l ≡ none
    → (y == x) ≡ false
    → predecessor x (some y) r ≡ o
    → Answers x up (last_of up l) (inorder l) none
    → Answers x (some y) (last_of (some y) r) (inorder r) o
    → Answers x up
        (last_of up (node red l y r))
        (inorder (node red l y r))
        (predecessor x up (node red l y r))
unfolding predecessor last_of
search_right x up red l y r none e t e' h h' =
    rw (predecessor, e, t, e')
      (λ ys.
        ap (prev_in x up) (append_assoc (inorder l) (y ∷ inorder r) ys)
        ∙ h (y ∷ (inorder r ++ ys))
        ∙ prev_in-passed x (last_of up l) y (inorder r ++ ys) t
        ∙ h' ys)
search_right x up red l y r (some o) e t e' h h' =
    rw (predecessor, e, t, e')
      (λ ys.
        ap (prev_in x up) (append_assoc (inorder l) (y ∷ inorder r) ys)
        ∙ h (y ∷ (inorder r ++ ys))
        ∙ prev_in-passed x (last_of up l) y (inorder r ++ ys) t
        ∙ h' ys)

search_step :
    (x : ℕ) (up : Option ℕ) (red : Bool) (l : Tree) (y : ℕ) (r : Tree) (o : Option (Option ℕ))
    → predecessor x up l ≡ o
    → Answers x up (last_of up l) (inorder l) o
    → Answers x (some y) (last_of (some y) r) (inorder r) (predecessor x (some y) r)
    → Answers x up
        (last_of up (node red l y r))
        (inorder (node red l y r))
        (predecessor x up (node red l y r))
unfolding predecessor last_of
search_step x up red l y r (some o) e h h' =
    rw (predecessor, e)
      (λ ys.
        ap (prev_in x up) (append_assoc (inorder l) (y ∷ inorder r) ys) ∙ h (y ∷ (inorder r ++ ys)))
search_step x up red l y r none e h h' = elim (Bool-cases (y == x)) [
  | inl t ↦
      rw (predecessor, e, t)
        (λ ys.
          ap (prev_in x up) (append_assoc (inorder l) (y ∷ inorder r) ys)
          ∙ h (y ∷ (inorder r ++ ys))
          ∙ prev_in-found x (last_of up l) y (inorder r ++ ys) t)
  | inr t ↦ search_right x up red l y r (predecessor x (some y) r) e t refl h h'
]

predecessor-Answers :
    (x : ℕ) (up : Option ℕ) (t : Tree)
    → Answers x up (last_of up t) (inorder t) (predecessor x up t)
unfolding predecessor last_of
predecessor-Answers x up leaf = λ ys. refl
predecessor-Answers x up (node red l y r) =
    search_step x up red l y r (predecessor x up l) refl (predecessor-Answers x up l)
      (predecessor-Answers x (some y) r)

of_Answers :
    (x : ℕ) (t : Tree) (o : Option (Option ℕ))
    → predecessor x none t ≡ o
    → Answers x none (last_of none t) (inorder t) o
    → rb_node_prev x t ≡ prev_in x none (inorder t)
unfolding rb_node_prev
of_Answers x t none e h =
    rw (rb_node_prev, e)
      (sym (ap (prev_in x none) (sym (++-nil (inorder t))) ∙ h [] ∙ prev_in-nil x (last_of none t)))
of_Answers x t (some o) e h =
    rw (rb_node_prev, e) (sym (ap (prev_in x none) (sym (++-nil (inorder t))) ∙ h []))

-- The predecessor that the links give is the one in the order of the tree.
pub rb_node_prev_lem : (x : ℕ) (t : Tree) → rb_node_prev x t ≡ prev_in x none (inorder t)
rb_node_prev_lem x t = of_Answers x t (predecessor x none t) refl (predecessor-Answers x none t)
