-- ===== src/Mm/Tree.antt =====
-- A search tree over addresses, as the clients of kern/libs/rb_tree.c see it: they walk from the root
-- by left and right links, insert and delete. `Ops` has the operations, and `IsTree` what they do to
-- the nodes in order; the colours are the implementation's, which is `rb_ops` of Mm/RbTree.antt.
pub use ucorebook_code.Prelude.{without}
use ucorebook_code.Prelude.{
  ℕ, ◌<◌, ◌≡◌, ltb, if◌then◌else◌, Bool, List, [], ◌∷◌, ◌++◌, Option, none, some, ◌==◌,
}

pub data Tree : Type 0 where
  leaf : Tree
  node : Bool → Tree → ℕ → Tree → Tree

-- The nodes from left to right.
abbrev pub inorder : Tree → List ℕ
inorder leaf = []
inorder (node red l x r) = inorder l ++ x ∷ inorder r

-- Each key is below the next.
abbrev pub IsIncreasing : (ℕ → ℕ) → List ℕ → Type 0
IsIncreasing key [] = Unit {0}
IsIncreasing key (x ∷ []) = Unit {0}
IsIncreasing key (x ∷ y ∷ xs) = (key x < key y) × IsIncreasing key (y ∷ xs)

-- In front of the first node with a greater key.
abbrev pub insert_by : (ℕ → ℕ) → ℕ → List ℕ → List ℕ
insert_by key x [] = x ∷ []
insert_by key x (y ∷ ys) = if ltb (key x) (key y) then x ∷ y ∷ ys else y ∷ insert_by key x ys

-- The node before `x` in a list of nodes; `prev` is the one before the first.
unfoldable pub prev_in : ℕ → Option ℕ → List ℕ → Option ℕ
prev_in x prev [] = none
prev_in x prev (y ∷ ys) = let rest = prev_in x (some y) ys in if y == x then prev else rest

-- `rb_insert`, with the order of the nodes' keys, and `rb_delete`.
pub record Ops : Type 0 where
  pub insert : (ℕ → ℕ) → ℕ → Tree → Tree
  pub delete : ℕ → Tree → Tree

-- What a client relies on, where no two keys are equal.
pub record IsTree (ops : Ops) : Type 0 where
  pub inorder-insert :
      (key : ℕ → ℕ) (x : ℕ) (t : Tree)
      → IsIncreasing key (inorder t)
      → inorder (ops.insert key x t) ≡ insert_by key x (inorder t)
  pub inorder-delete :
      (key : ℕ → ℕ) (x : ℕ) (t : Tree)
      → IsIncreasing key (inorder t)
      → inorder (ops.delete x t) ≡ without x (inorder t)
