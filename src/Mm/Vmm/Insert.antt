-- ===== src/Mm/Vmm/Insert.antt =====
-- kern/mm/vmm.c: `insert_vma_struct` and `remove_vma_struct` keep a space well-formed.
use ucorebook_code.Prelude.{
  ℕ, ◌+◌, ◌<◌, ◌≡◌, ◌≢◌, ◌⊎◌, inl, inr, refl, sym, ◌∙◌, ap, Bool, true, false, Bool-cases,
  Option-cases, ltb, leb, List, [], ◌∷◌, ◌++◌, Option, none, some, arith, ◌&&◌, if◌then◌else◌,
}
use ucorebook_code.Mm.Tree.{Tree, leaf, inorder, insert_by, without, IsIncreasing, Ops, IsTree}
use ucorebook_code.Mm.RbTree.Previous.{rb_node_prev_lem}
use ucorebook_code.Mm.Vmm.{
  Mm, find_prev, tree_with, prev_of, insert_each, build_tree, insert_vma_struct, remove_vma_struct,
  rb_min_map_count,
}
use ucorebook_code.Mm.Vmm.Order.{In}
use ucorebook_code.Mm.Vmm.Lists.{
  In-insert_by, length-insert_by, In-without, length-without, without-IsOrdered, IsIncreasing-left,
  insert_by-last, ++-assoc-one, ++-nil,
}
use ucorebook_code.Mm.Vmm.Find.{IsMm}
use ucorebook_code.Mm.Vmm.Place.{
  key_of, Apart, Apart-In, insert_by-IsOrdered, IsOrdered-IsIncreasing, prev_in-insert_by,
  insert_after-find_prev, check_prev-find_prev, check_next-find_prev,
}

module _ (ops : Ops) (law : IsTree ops) where
  -- The nodes one by one, each behind those before.
  insert_each_lem :
      (key : ℕ → ℕ) (xs : List ℕ) (t : Tree)
      → IsIncreasing key (inorder t ++ xs)
      → inorder (insert_each ops key xs t) ≡ inorder t ++ xs
  unfolding insert_each
  insert_each_lem key [] t h = sym (++-nil (inorder t))
  insert_each_lem key (x ∷ xs) t h =
      let at_end =
        law.inorder-insert key x t (IsIncreasing-left key (inorder t) (x ∷ xs) h)
        ∙ insert_by-last key (inorder t) x xs h in
      let whole = ++-assoc-one (inorder t) x xs in
      insert_each_lem key xs (ops.insert key x t) (rw (at_end, whole) h) ∙ rw (at_end, whole) refl

  prev_of_lem :
      (a : ℕ) (m : Mm)
      → IsMm m
      → (In a m.mmap_list → ⊥)
      → prev_of ops a m ≡ find_prev m.vmas m.mmap_list (m.vmas a).vm_start none
  unfolding prev_of
  prev_of_lem a m i n = elim (Option-cases m.mmap_tree) [
    | inl e ↦ rw (prev_of, e) refl
    | inr (t, e) ↦
        let q = i.in_tree t e in
        let inc = IsOrdered-IsIncreasing m.vmas 0 m.mmap_list i.ordered in
        let ins = law.inorder-insert (key_of m.vmas) a t (rw q inc) in
        rw (prev_of, e, rb_node_prev_lem a (ops.insert (key_of m.vmas) a t), ins, q)
          (prev_in-insert_by m.vmas a m.mmap_list none n)
  ]

  -- The space with the area linked in.
  abbrev pub linked : ℕ → Mm → Mm
  linked a m = record m {
    mmap_tree = tree_with ops a m;
    mmap_list = insert_by (key_of m.vmas) a m.mmap_list;
    map_count = m.map_count + 1;
  }

  -- What a new area must be.
  abbrev pub IsNew : ℕ → Mm → Type 0
  IsNew a m = ((m.vmas a).vm_start < (m.vmas a).vm_end) × Apart m.vmas a m.mmap_list

  IsNew-not_In : (a : ℕ) (m : Mm) → IsNew a m → In a m.mmap_list → ⊥
  IsNew-not_In a m (s, d) h = elim (Apart-In m.vmas a m.mmap_list a d h) [
    | inl e ↦ omega arith
    | inr e ↦ omega arith
  ]

  -- None of the assertions fails.
  pub insert_vma_struct_eq :
      (got : Bool) (a : ℕ) (m : Mm)
      → IsMm m
      → IsNew a m
      → insert_vma_struct ops got a m ≡ some (build_tree ops got (linked a m))
  unfolding insert_vma_struct
  insert_vma_struct_eq got a m i (s, d) =
      let test : ltb (m.vmas a).vm_start (m.vmas a).vm_end ≡ true = ground arith in
      rw
        (
          prev_of_lem a m i (IsNew-not_In a m (s, d)),
          test,
          check_prev-find_prev m.vmas 0 a m.mmap_list s d i.ordered,
          check_next-find_prev m.vmas 0 a m.mmap_list s d i.ordered,
          insert_after-find_prev m.vmas 0 a m.mmap_list i.ordered,
        )
        refl

  tree_with_lem :
      (a : ℕ) (m : Mm) (t : Tree)
      → IsMm m
      → tree_with ops a m ≡ some t
      → inorder t ≡ insert_by (key_of m.vmas) a m.mmap_list
  unfolding tree_with
  tree_with_lem a m t i e = elim (Option-cases m.mmap_tree) [
    | inl q ↦ absurd (let e' = rw q at e in cc)
    | inr (t', q) ↦
        let in_list = i.in_tree t' q in
        let e' = rw q at e in
        let inc = IsOrdered-IsIncreasing m.vmas 0 m.mmap_list i.ordered in
        let same : ops.insert (key_of m.vmas) a t' ≡ t = cc in
        rw (← same) (
          law.inorder-insert (key_of m.vmas) a t' (rw in_list inc)
          ∙ ap (insert_by (key_of m.vmas) a) in_list)
  ]

  linked-IsMm : (a : ℕ) (m : Mm) → IsMm m → IsNew a m → IsMm (linked a m)
  linked-IsMm a m i (s, d) = record {
    ordered = insert_by-IsOrdered m.vmas 0 a m.mmap_list (omega arith) s d i.ordered;
    in_tree = λ t e. tree_with_lem a m t i e;
    in_cache = λ x e. In-insert_by (key_of m.vmas) a m.mmap_list x (i.in_cache x e);
    counted =
        let l = length-insert_by (key_of m.vmas) a m.mmap_list in let c = i.counted in omega arith;
  }

  build_tree-IsMm : (got : Bool) (m : Mm) → IsMm m → IsMm (build_tree ops got m)
  unfolding build_tree
  build_tree-IsMm got m i = elim (Option-cases m.mmap_tree) [
    | inr (t, e) ↦ rw (build_tree, e) i
    | inl e ↦ elim (Bool-cases (leb rb_min_map_count m.map_count && got)) [
      | inl b ↦
          rw (build_tree, e, b)
            (record {
              ordered = i.ordered;
              in_tree = λ t q.
                  let inc = IsOrdered-IsIncreasing m.vmas 0 m.mmap_list i.ordered in
                  let same : insert_each ops (key_of m.vmas) m.mmap_list leaf ≡ t = cc in
                  rw (← same) (insert_each_lem (key_of m.vmas) m.mmap_list leaf inc);
              in_cache = i.in_cache;
              counted = i.counted;
            })
      | inr b ↦ rw (build_tree, e, b) i
    ]
  ]

  build_tree-cases :
      (got : Bool) (m : Mm)
      → (build_tree ops got m ≡ m)
        ⊎ ((t : Tree) × (build_tree ops got m ≡ record m { mmap_tree = some t }))
  unfolding build_tree
  build_tree-cases got m = go m.mmap_tree (leb rb_min_map_count m.map_count && got)
    where
      built : Mm
      built = record m { mmap_tree = some (insert_each ops (key_of m.vmas) m.mmap_list leaf) }

      go :
          (o : Option Tree) (b : Bool)
          → ((elim o [ none ↦ if b then built else m | some t ↦ m ]) ≡ m)
            ⊎ ((t : Tree) × ((elim o [ none ↦ if b then built else m | some t ↦ m ])
                  ≡ record m { mmap_tree = some t }))
      go none true = inr (insert_each ops (key_of m.vmas) m.mmap_list leaf, refl)
      go none false = inl refl
      go (some t) b = inl refl

  remove_tree :
      (a : ℕ) (m : Mm) (t : Tree)
      → IsMm m
      → (remove_vma_struct ops a m).mmap_tree ≡ some t
      → inorder t ≡ without a m.mmap_list
  unfolding remove_vma_struct
  remove_tree a m t i e = elim (Option-cases m.mmap_tree) [
    | inl q ↦ absurd (let e' = rw q at e in cc)
    | inr (t', q) ↦
        let in_list = i.in_tree t' q in
        let e' = rw q at e in
        let inc = IsOrdered-IsIncreasing m.vmas 0 m.mmap_list i.ordered in
        let same : ops.delete a t' ≡ t = cc in
        rw (← same)
          (law.inorder-delete (key_of m.vmas) a t' (rw in_list inc) ∙ ap (without a) in_list)
  ]

  remove_cache :
      (a : ℕ) (m : Mm) (x : ℕ)
      → IsMm m
      → (remove_vma_struct ops a m).mmap_cache ≡ some x
      → In x (without a m.mmap_list)
  unfolding remove_vma_struct
  remove_cache a m x i e = elim (Option-cases m.mmap_cache) [
    | inl q ↦ absurd (let e' = rw q at e in cc)
    | inr (y, q) ↦
        let e' = rw q at e in
        let same : y ≡ x = ground arith in
        let ne : x ≢ a = ground arith in
        In-without a m.mmap_list x ne (i.in_cache x (rw (← same) q))
  ]

  -- Nothing but the tree, the list and the count of the space differs.
  pub record Inserted (a : ℕ) (m m' : Mm) : Type 0 where
    pub well_formed : IsMm m'
    pub vmas : m'.vmas ≡ m.vmas
    pub list : m'.mmap_list ≡ insert_by (key_of m.vmas) a m.mmap_list
    pub cache : m'.mmap_cache ≡ m.mmap_cache
    pub refs : m'.shmem_ref ≡ m.shmem_ref
    pub freed : m'.freed ≡ m.freed
    pub unmapped : m'.unmapped ≡ m.unmapped

  build_tree-linked-Inserted :
      (got : Bool) (a : ℕ) (m : Mm)
      → IsMm m
      → IsNew a m
      → Inserted a m (build_tree ops got (linked a m))
  build_tree-linked-Inserted got a m i n =
      let w = build_tree-IsMm got (linked a m) (linked-IsMm a m i n) in
      elim (build_tree-cases got (linked a m)) [
        | inl e ↦ record {
          well_formed = w;
          vmas = rw e refl;
          list = rw e refl;
          cache = rw e refl;
          refs = rw e refl;
          freed = rw e refl;
          unmapped = rw e refl;
        }
        | inr (t, e) ↦ record {
          well_formed = w;
          vmas = rw e refl;
          list = rw e refl;
          cache = rw e refl;
          refs = rw e refl;
          freed = rw e refl;
          unmapped = rw e refl;
        }
      ]

  -- The same for any tree that keeps the order.
  pub insert_vma_struct-links :
      (got : Bool) (a : ℕ) (m : Mm)
      → IsMm m
      → IsNew a m
      → (m' : Mm) × (insert_vma_struct ops got a m ≡ some m') × Inserted a m m'
  insert_vma_struct-links got a m i n = (
    build_tree ops got (linked a m),
    insert_vma_struct_eq got a m i n,
    build_tree-linked-Inserted got a m i n,
  )

  -- An area that is in the space is taken out.
  pub remove_vma_struct-IsMm :
      (a : ℕ) (m : Mm) → IsMm m → In a m.mmap_list → IsMm (remove_vma_struct ops a m)
  unfolding remove_vma_struct
  remove_vma_struct-IsMm a m i h = record {
    ordered = without-IsOrdered m.vmas 0 a m.mmap_list i.ordered;
    in_tree = λ t e. remove_tree a m t i e;
    in_cache = λ x e. remove_cache a m x i e;
    counted = let l = length-without a m.mmap_list h in let c = i.counted in omega arith;
  }
