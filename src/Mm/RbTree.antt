-- ===== src/Mm/RbTree.antt =====
-- kern/libs/rb_tree.c: insertion, deletion and the predecessor. A node is named by its address, and
-- `leaf` stands for `nil`. The way from a node up to the root, over the parent links, is a context. A
-- rotation and the colours around it are one step; what the code does to the sentinel above the root
-- or to `nil`, where the tree is no red-black tree, is not modelled, and nothing is rotated there.
pub mod Inorder
pub mod Deleted
pub mod Previous
use ucorebook_code.Prelude.{ℕ, Bool, true, false, ltb, ◌==◌, if◌then◌else◌, Option, none, some}
use ucorebook_code.Mm.Tree.{Tree, leaf, node, Ops}

unfoldable pub is_red : Tree → Bool
is_red leaf = false
is_red (node red l x r) = red

unfoldable pub blacken : Tree → Tree
blacken leaf = leaf
blacken (node red l x r) = node false l x r

unfoldable pub redden : Tree → Tree
redden leaf = leaf
redden (node red l x r) = node true l x r

-- The place of a subtree: the colour, the address and the other subtree of each node above it.
pub data Context : Type 0 where
  top : Context
  in_left : Bool → ℕ → Tree → Context → Context
  in_right : Bool → Tree → ℕ → Context → Context

unfoldable pub plug : Context → Tree → Tree
plug top t = t
plug (in_left red x r up) t = plug up (node red t x r)
plug (in_right red l x up) t = plug up (node red l x t)

-- `rb_insert_binary`: the place of a new node with the address `x`.
unfoldable pub descend : (ℕ → ℕ) → ℕ → Tree → Context → Context
descend key x leaf c = c
descend key x (node red l y r) c = elim (ltb (key x) (key y)) [
  | true ↦ descend key x l (in_left red y r c)
  | false ↦ descend key x r (in_right red l y c)
]

-- The two rotations where the node at hand is the inner child of `p`, and the one where it is the
-- outer child, with `g` above `p` and the black uncle `u`.
unfoldable pub rotate_inner_left : Tree → ℕ → Tree → ℕ → Tree → Tree
rotate_inner_left pl p leaf g u = node true (node false pl p leaf) g u
rotate_inner_left pl p (node red a x b) g u = node false (node true pl p a) x (node true b g u)

unfoldable pub rotate_inner_right : Tree → ℕ → Tree → ℕ → Tree → Tree
rotate_inner_right u g leaf p pr = node true u g (node false leaf p pr)
rotate_inner_right u g (node red a x b) p pr = node false (node true u g a) x (node true b p pr)

-- The loop of `rb_insert`, at a red node in its place.
unfoldable pub insert_fixup : Context → Tree → Tree
insert_fixup top t = t
insert_fixup (in_left false p pr up) t = plug up (node false t p pr)
insert_fixup (in_right false pl p up) t = plug up (node false pl p t)
insert_fixup (in_left true p pr top) t = node true t p pr
insert_fixup (in_right true pl p top) t = node true pl p t
insert_fixup (in_left true p pr (in_left red g u up)) t = elim (is_red u) [
  | true ↦ insert_fixup up (node true (node false t p pr) g (blacken u))
  | false ↦ plug up (node false t p (node true pr g u))
]
insert_fixup (in_right true pl p (in_left red g u up)) t = elim (is_red u) [
  | true ↦ insert_fixup up (node true (node false pl p t) g (blacken u))
  | false ↦ plug up (rotate_inner_left pl p t g u)
]
insert_fixup (in_right true pl p (in_right red u g up)) t = elim (is_red u) [
  | true ↦ insert_fixup up (node true (blacken u) g (node false pl p t))
  | false ↦ plug up (node false (node true u g pl) p t)
]
insert_fixup (in_left true p pr (in_right red u g up)) t = elim (is_red u) [
  | true ↦ insert_fixup up (node true (blacken u) g (node false t p pr))
  | false ↦ plug up (rotate_inner_right u g t p pr)
]

unfoldable pub rb_insert : (ℕ → ℕ) → ℕ → Tree → Tree
rb_insert key x t = blacken (insert_fixup (descend key x t top) (node true leaf x leaf))

-- The rounds of `rb_delete_fixup` at a left child `l` of `x` with the sibling `w`, which is black: the
-- tree at `x`, and whether the loop goes on from there.
unfoldable pub fix_left_black : Bool → Tree → ℕ → Tree → Tree × Bool
fix_left_black red l x leaf = (node red l x leaf, false)
fix_left_black red l x (node wred wl w wr) = elim (is_red wr) [
  | true ↦ (node red (node false l x wl) w (blacken wr), false)
  | false ↦ elim wl [
    | leaf ↦ (node false l x (node true leaf w wr), if red then false else true)
    | node nred a n b ↦ elim nred [
      | true ↦ (node red (node false l x a) n (node false b w wr), false)
      | false ↦ (node false l x (node true (node false a n b) w wr), if red then false else true)
    ]
  ]
]

-- A red sibling is rotated up first.
unfoldable pub fix_left : Bool → Bool → Tree → ℕ → Tree → Tree × Bool
fix_left false red l x r = (node red l x r, false)
fix_left true red l x leaf = fix_left_black red l x leaf
fix_left true red l x (node true wl w wr) =
    (node false (fix_left_black true l x wl).0 w wr, (fix_left_black true l x wl).1)
fix_left true red l x (node false wl w wr) = fix_left_black red l x (node false wl w wr)

-- The same with the sides exchanged.
unfoldable pub fix_right_black : Bool → Tree → ℕ → Tree → Tree × Bool
fix_right_black red leaf x r = (node red leaf x r, false)
fix_right_black red (node wred wl w wr) x r = elim (is_red wl) [
  | true ↦ (node red (blacken wl) w (node false wr x r), false)
  | false ↦ elim wr [
    | leaf ↦ (node false (node true wl w leaf) x r, if red then false else true)
    | node nred a n b ↦ elim nred [
      | true ↦ (node red (node false wl w a) n (node false b x r), false)
      | false ↦ (node false (node true wl w (node false a n b)) x r, if red then false else true)
    ]
  ]
]

unfoldable pub fix_right : Bool → Bool → Tree → ℕ → Tree → Tree × Bool
fix_right false red l x r = (node red l x r, false)
fix_right true red leaf x r = fix_right_black red leaf x r
fix_right true red (node true wl w wr) x r =
    (node false wl w (fix_right_black true wr x r).0, (fix_right_black true wr x r).1)
fix_right true red (node false wl w wr) x r = fix_right_black red (node false wl w wr) x r

-- A node with one child at most, `t`, is taken out.
unfoldable pub splice : Bool → Tree → Tree × Bool
splice true t = (t, false)
splice false t = if is_red t then (blacken t, false) else (t, true)

-- The first node of the tree below, which is the successor of the node above it, is taken out.
unfoldable pub take_first : Bool → Tree → ℕ → Tree → ℕ × (Tree × Bool)
take_first red leaf x r = (x, splice red r)
take_first red (node lred a y b) x r = (
  (take_first lred a y b).0,
  fix_left (take_first lred a y b).1.1 red (take_first lred a y b).1.0 x r,
)

-- The node above the two trees is taken out; with two children its successor takes its place and its
-- colour.
unfoldable pub delete_here : Bool → Tree → Tree → Tree × Bool
delete_here red leaf r = splice red r
delete_here red (node lred a y b) leaf = splice red (node lred a y b)
delete_here red (node lred a y b) (node rred a' y' b') =
    fix_right (take_first rred a' y' b').1.1 red (node lred a y b) (take_first rred a' y' b').0
      (take_first rred a' y' b').1.0

-- The node is searched for, as the model has no pointer to it; `none` where it is not in the tree.
unfoldable pub delete_from : ℕ → Tree → Option (Tree × Bool)
delete_from x leaf = none
delete_from x (node red l y r) = elim (delete_from x l) [
  | some (l', short) ↦ some (fix_left short red l' y r)
  | none ↦ elim (y == x) [
    | true ↦ some (delete_here red l r)
    | false ↦ elim (delete_from x r) [
      | some (r', short) ↦ some (fix_right short red l y r')
      | none ↦ none
    ]
  ]
]

unfoldable pub rb_delete : ℕ → Tree → Tree
rb_delete x t = elim (delete_from x t) [ none ↦ t | some (t', short) ↦ t' ]

abbrev pub rb_ops : Ops
rb_ops = record { insert = rb_insert; delete = rb_delete }

-- The last node of a tree, or the one given where it is empty.
unfoldable pub last_of : Option ℕ → Tree → Option ℕ
last_of up leaf = up
last_of up (node red l x r) = last_of (some x) r

-- `rb_tree_predecessor`, by a search for the node that remembers the last node above it on whose right
-- the search went on: the last node of the left subtree, or else that node. `none` where the node is
-- not in the tree.
unfoldable pub predecessor : ℕ → Option ℕ → Tree → Option (Option ℕ)
predecessor x up leaf = none
predecessor x up (node red l y r) = elim (predecessor x up l) [
  | some o ↦ some o
  | none ↦ elim (y == x) [ true ↦ some (last_of up l) | false ↦ predecessor x (some y) r ]
]

-- The node before `x`; `none` is NULL.
unfoldable pub rb_node_prev : ℕ → Tree → Option ℕ
rb_node_prev x t = elim (predecessor x none t) [ none ↦ none | some o ↦ o ]
